-- ===== src/Integers/Strconv.antt =====
-- internal/strconv/number.go: what Go's own strconv does, for the bases from 2 to 36. Base 0, where
-- a prefix of the text gives the base, is not looked at.
use gorums_ata.Base.{
  ℕ, zero, suc, ◌+◌, ◌-◌, ◌*◌, ◌/◌, ◌%◌, ◌^◌, Bool, true, false, ◌&&◌, Option, none, some, [], ◌∷◌,
  ltb, leb, ◌==◌, if◌then◌else◌, ℤ, pos, negsuc,
}
use gorums_ata.Base.{Text}

-- The two errors of package strconv.
pub data NumError : Type 0 where
  syntax range : NumError

-- `0` to `9`, and then `a` to `z`.
abbrev pub digit_char : ℕ → ℕ
digit_char d = if ltb d 10 then 48 + d else 87 + d

abbrev pub digit_value : ℕ → Option ℕ
digit_value c =
    if leb 48 c && leb c 57
    then some (c - 48)
    else if leb 97 c && leb c 122
    then some (c - 87)
    else if leb 65 c && leb c 90
    then some (c - 55)
    else none

-- The digits of `n` before those in `acc`, on fuel.
unfoldable pub digits : ℕ → ℕ → ℕ → Text → Text
digits base zero n acc = acc
digits base (suc fuel) n acc =
    let rest = digits base fuel (n / base) (digit_char (n % base) ∷ acc) in
    if ltb n base then digit_char n ∷ acc else rest

-- `strconv.FormatUint`: a number has at most as many digits as it is large, and one for 0.
unfoldable pub format_uint : ℕ → ℕ → Text
unfolding digits
format_uint n base = digits base (n + 1) n []

-- `strconv.FormatInt`
unfoldable pub format_int : ℤ → ℕ → Text
unfolding format_uint
format_int (pos n) base = format_uint n base
format_int (negsuc n) base = 45 ∷ format_uint (n + 1) base

-- The loop of `strconv.ParseUint` for `w` bits.
unfoldable pub parse_from : ℕ → ℕ → ℕ → Text → ℕ × Option NumError
parse_from base w n [] = (n, none)
parse_from base w n (c ∷ cs) = elim (digit_value c) [
  | none ↦ (0, some syntax)
  | some d ↦
      let rest = parse_from base w (n * base + d) cs in
      if leb base d
      then (0, some syntax)
      else if ltb (n * base + d) (2 ^ w)
      then rest
      else (2 ^ w - 1, some range)
]

-- `strconv.ParseUint`
unfoldable pub parse_uint : Text → ℕ → ℕ → ℕ × Option NumError
unfolding parse_from
parse_uint [] base w = (0, some syntax)
parse_uint (c ∷ cs) base w = parse_from base w 0 (c ∷ cs)

-- The end of `strconv.ParseInt`, by the sign.
abbrev pub signed_result : Bool → ℕ → ℕ × Option NumError → ℤ × Option NumError
signed_result neg w (un, some syntax) = (pos 0, some syntax)
signed_result false w (un, e) =
    if leb (2 ^ (w - 1)) un then (pos (2 ^ (w - 1) - 1), some range) else (pos un, none)
signed_result true w (un, e) =
    if ltb (2 ^ (w - 1)) un
    then (negsuc (2 ^ (w - 1) - 1), some range)
    else if un == 0
    then (pos 0, none)
    else (negsuc (un - 1), none)

-- `strconv.ParseInt`
unfoldable pub parse_int : Text → ℕ → ℕ → ℤ × Option NumError
unfolding parse_uint
parse_int [] base w = (pos 0, some syntax)
parse_int (c ∷ cs) base w =
    if c == 45
    then signed_result true w (parse_uint cs base w)
    else if c == 43
    then signed_result false w (parse_uint cs base w)
    else signed_result false w (parse_uint (c ∷ cs) base w)
