-- ===== src/Stream/MessageId/Spaces.antt =====
-- internal/stream/message_id.go: the two spaces of message IDs, as uint64 numbers.
use gorums_ata.Base.{ℕ, ◌+◌, ◌%◌, ◌^◌, ◌<◌, ◌≡◌, true, arith, leb, if◌then◌else◌}
use gorums_ata.Stream.MessageId.{server_sequence_number, is_server_sequence_number}
use gorums_ata.Stream.MessageId.Digits.{and-high, or-high}
use Prim.Native.Nat.{bit_or}

-- A message ID is in the server's space exactly if it is `2 ^ 63` or more.
is_server_sequence_number_lem : (x : ℕ) → x < 2 ^ 64 → is_server_sequence_number x ≡ leb (2 ^ 63) x
unfolding is_server_sequence_number
is_server_sequence_number_lem x h = ground (arith, and-high 63 x h)

-- Marking any uint64 gives a uint64 of the server's space, from which the number of a client's
-- space can be read back; marking twice changes nothing more.
pub server_sequence_number_lem :
    (x : ℕ)
    → x < 2 ^ 64
    → (server_sequence_number x < 2 ^ 64)
      × (is_server_sequence_number (server_sequence_number x) ≡ true)
      × (server_sequence_number x % 2 ^ 63 ≡ x % 2 ^ 63)
      × (server_sequence_number (server_sequence_number x) ≡ server_sequence_number x)
      × (is_server_sequence_number x ≡ leb (2 ^ 63) x)
unfolding server_sequence_number
server_sequence_number_lem x h =
    let marked : bit_or x (2 ^ 63) ≡ (if leb (2 ^ 63) x then x else x + 2 ^ 63) = or-high 63 x h in
    let fits : bit_or x (2 ^ 63) < 2 ^ 64 = ground arith in
    (
      fits,
      ground (arith, is_server_sequence_number_lem (bit_or x (2 ^ 63)) fits),
      ground arith,
      ground (arith, or-high 63 (bit_or x (2 ^ 63)) fits),
      is_server_sequence_number_lem x h,
    )
