-- ===== src/Stream/MessageId.antt =====
-- internal/stream/message_id.go: the high bit of a message ID tells who began the call.
mod Digits
pub mod Spaces
use gorums_ata.Base.{ℕ, ◌-◌, ◌/◌, ◌^◌, ◌<◌, Bool, not, ◌==◌}
use Prim.Native.Nat.{bit_and, bit_or}

-- `uint64(1) << 63`
abbrev pub server_bit : ℕ
server_bit = 2 ^ 63

-- `ServerSequenceNumber`
unfoldable pub server_sequence_number : ℕ → ℕ
server_sequence_number seq_no = bit_or seq_no server_bit

-- `isServerSequenceNumber`
unfoldable pub is_server_sequence_number : ℕ → Bool
is_server_sequence_number seq_no = not (bit_and seq_no server_bit == 0)
