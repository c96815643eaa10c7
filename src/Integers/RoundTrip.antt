-- ===== src/Integers/RoundTrip.antt =====
-- internal/strconv/number.go, inbound_manager.go: what is formatted is parsed back.
use gorums_ata.Base.{
  ℕ, ◌^◌, ◌≤◌, ◌<◌, ◌≡◌, refl, ap, true, false, some, arith, ℤ, pos, negsuc, none,
}
use gorums_ata.Integers.Parsed.{double_pow, parse_int-pos, parse_int-neg, parse_uint-format_uint}
use native.Mathlib.Nat.{mod-eq_of_lt}
use gorums_ata.Integers.{
  IntType, int, uint, bits, IsValue, signed, convert, parse_integer, format, node_id,
  has_peer_metadata, metadata_with_node_id,
}

signed-int : (w : ℕ) → signed (int w) ≡ true
unfolding signed
signed-int w = ground arith

signed-uint : (w : ℕ) → 1 ≤ w → signed (uint w) ≡ false
unfolding signed
signed-uint w h = ground (arith, (double_pow w h).0, (double_pow w h).1)

convert_value : (t : IntType) (i : ℤ) → 1 ≤ bits t → IsValue t i → convert t i ≡ i
unfolding convert
convert_value (int w) (pos n) h v = ground (
  arith,
  (double_pow w h).0,
  mod-eq_of_lt {n = n} {m = 2 ^ w} (omega (arith, (double_pow w h).0)),
)
convert_value (int w) (negsuc n) h v = ground (
  arith,
  (double_pow w h).0,
  mod-eq_of_lt {n = n} {m = 2 ^ w} (omega (arith, (double_pow w h).0)),
)
convert_value (uint w) (pos n) h v = ap pos (mod-eq_of_lt v)
convert_value (uint w) (negsuc n) h v = absurd v

-- `ParseInteger` gives back, for any integer type, any value of it that `Format` printed in the
-- same base, from 2 to 36, and no error.
pub parse_integer-format :
    (t : IntType) (i : ℤ) (base : ℕ)
    → 1 ≤ bits t
    → 2 ≤ base
    → base ≤ 36
    → IsValue t i
    → parse_integer t (format t i base) base ≡ (i, none)
unfolding parse_integer format
parse_integer-format (int w) (pos n) base h lo hi v =
    rw (signed-int w)
      (rw (parse_int-pos n base w h lo hi v) (rw (convert_value (int w) (pos n) h v) refl))
parse_integer-format (int w) (negsuc n) base h lo hi v =
    rw (signed-int w)
      (rw (parse_int-neg n base w h lo hi v) (rw (convert_value (int w) (negsuc n) h v) refl))
parse_integer-format (uint w) (negsuc n) base h lo hi v = absurd v
parse_integer-format (uint w) (pos n) base h lo hi v =
    rw (signed-uint w h)
      (rw (parse_uint-format_uint n base w lo hi v) (rw (convert_value (uint w) (pos n) h v) refl))

-- A server reads from a stream's metadata the ID that the client put there, and sees that there is
-- metadata, for the ID 0 too.
pub node_id-metadata :
    (id : ℕ)
    → id < 2 ^ 32
    → (node_id (some (metadata_with_node_id id)) ≡ id)
      × (has_peer_metadata (some (metadata_with_node_id id)) ≡ true)
unfolding node_id metadata_with_node_id has_peer_metadata
node_id-metadata id small =
    let back =
      parse_integer-format (uint 32) (pos id) 10 (omega arith) (omega arith) (omega arith) small in
    (rw back refl, ground arith)
