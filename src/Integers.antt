-- ===== src/Integers.antt =====
-- internal/strconv/number.go: integers as strings, for any of Go's integer types.
pub mod Strconv
pub mod Parsed
pub mod RoundTrip
use gorums_ata.Base.{
  ℕ, ◌-◌, ◌/◌, ◌%◌, ◌^◌, ◌<◌, Bool, false, Option, none, some, List, [], ◌∷◌, ltb, ◌==◌,
  if◌then◌else◌, is_some, length, any, ℤ, pos, negsuc,
}
use gorums_ata.Base.{Text}
use gorums_ata.Integers.Strconv.{NumError, format_uint, format_int, parse_uint, parse_int}

-- `Integer`, with the number of bits: a signed or an unsigned type.
pub data IntType : Type 0 where
  int uint : ℕ → IntType

abbrev pub bits : IntType → ℕ
bits (int w) = w
bits (uint w) = w

-- The values of a type.
abbrev pub IsValue : IntType → ℤ → Type 0
IsValue (int w) (pos n) = n < 2 ^ (w - 1)
IsValue (int w) (negsuc n) = n < 2 ^ (w - 1)
IsValue (uint w) (pos n) = n < 2 ^ w
IsValue (uint w) (negsuc n) = ⊥

-- `^x` for `x` 0
abbrev all_ones : IntType → ℤ
all_ones (int w) = negsuc 0
all_ones (uint w) = pos (2 ^ w - 1)

-- `x >> 1`
abbrev shift_right : ℤ → ℤ
shift_right (pos n) = pos (n / 2)
shift_right (negsuc n) = negsuc (n / 2)

abbrev same_int : ℤ → ℤ → Bool
same_int (pos a) (pos b) = a == b
same_int (pos a) (negsuc b) = false
same_int (negsuc a) (pos b) = false
same_int (negsuc a) (negsuc b) = a == b

-- `signed`
unfoldable pub signed : IntType → Bool
signed t = let x = all_ones t in same_int x (shift_right x)

-- `T(i)`: the low bits.
unfoldable pub convert : IntType → ℤ → ℤ
convert (uint w) (pos n) = pos (n % 2 ^ w)
convert (uint w) (negsuc n) = pos (2 ^ w - 1 - n % 2 ^ w)
convert (int w) (pos n) =
    let m = n % 2 ^ w in if ltb m (2 ^ (w - 1)) then pos m else negsuc (2 ^ w - 1 - m)
convert (int w) (negsuc n) =
    let m = n % 2 ^ w in if ltb m (2 ^ (w - 1)) then negsuc m else pos (2 ^ w - 1 - m)

-- `ParseInteger`
unfoldable pub parse_integer : IntType → Text → ℕ → ℤ × Option NumError
parse_integer t s base =
    let i = parse_int s base (bits t) in
    let u = parse_uint s base (bits t) in
    if signed t then (convert t i.0, i.1) else (convert t (pos u.0), u.1)

-- `uint64(i)`
abbrev pub as_uint : ℤ → ℕ
as_uint (pos n) = n
as_uint (negsuc n) = 2 ^ 64 - 1 - n

-- `Format`
unfoldable pub format : IntType → ℤ → ℕ → Text
format t i base = if signed t then format_int i base else format_uint (as_uint i) base

-- `nodeID`, of the values of the key `gorums-node-id` if there is incoming metadata.
unfoldable pub node_id : Option (List Text) → ℕ
node_id none = 0
node_id (some []) = 0
node_id (some (s ∷ ss)) =
    let r = parse_integer (uint 32) s 10 in
    if is_some r.1 then 0 else elim r.0 [ pos n ↦ n | negsuc n ↦ 0 ]

-- `hasPeerMetadata`
unfoldable pub has_peer_metadata : Option (List Text) → Bool
has_peer_metadata none = false
has_peer_metadata (some ss) = ltb 0 (length ss)

-- `metadataWithNodeID`: the values of its one key.
unfoldable pub metadata_with_node_id : ℕ → List Text
unfolding format
metadata_with_node_id id = format (uint 32) (pos id) 10 ∷ []
