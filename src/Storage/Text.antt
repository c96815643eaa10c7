-- ===== src/Storage/Text.antt =====
-- examples/storage/repl.go: lines of text as lists of code points, and what Go's library does with
-- them.
use gorums_ata.Base.{
  ℕ, zero, suc, ◌+◌, ◌-◌, ◌*◌, ◌^◌, Bool, ◌&&◌, ◌||◌, Option, none, some, List, [], ◌∷◌, leb, ◌==◌,
  if◌then◌else◌, ℤ, pos, negsuc,
}
pub use gorums_ata.Base.{Text, codes, same_text}
unfoldable pub use gorums_ata.Base.{cut}

abbrev within : ℕ → ℕ → ℕ → Bool
within lo hi c = leb lo c && leb c hi

-- `unicode.IsSpace`
unfoldable pub is_space : ℕ → Bool
is_space c =
    within 9 13 c
    || c == 32
    || c == 0x85
    || c == 0xa0
    || c == 0x1680
    || within 0x2000 0x200a c
    || within 0x2028 0x2029 c
    || c == 0x202f
    || c == 0x205f
    || c == 0x3000

abbrev is_digit : ℕ → Bool
is_digit = within 48 57

unfoldable pub digits_from : ℕ → Text → Option ℕ
digits_from n [] = some n
digits_from n (c ∷ cs) =
    let rest = digits_from (n * 10 + (c - 48)) cs in if is_digit c then rest else none

unfoldable pub natural : Text → Option ℕ
unfolding digits_from
natural [] = none
natural (c ∷ cs) = digits_from 0 (c ∷ cs)

abbrev at_most : ℕ → Option ℕ → Option ℕ
at_most m none = none
at_most m (some n) = if leb n m then some n else none

abbrev positive : Option ℕ → Option ℤ
positive none = none
positive (some n) = some (pos n)

abbrev negative : Option ℕ → Option ℤ
negative none = none
negative (some zero) = some (pos 0)
negative (some (suc n)) = some (negsuc n)

-- `strconv.Atoi`, of a 64-bit int; `none` is its error.
unfoldable pub atoi : Text → Option ℤ
unfolding natural
atoi [] = none
atoi (c ∷ cs) =
    if c == 45
    then negative (at_most (2 ^ 63) (natural cs))
    else if c == 43
    then positive (at_most (2 ^ 63 - 1) (natural cs))
    else positive (at_most (2 ^ 63 - 1) (natural (c ∷ cs)))

abbrev push_first : ℕ → List Text → List Text
push_first x [] = (x ∷ []) ∷ []
push_first x (t ∷ ts) = (x ∷ t) ∷ ts

-- `strings.Split`, at a separator of one character: there is always a first part.
unfoldable pub split_on : ℕ → Text → List Text
split_on c [] = [] ∷ []
split_on c (x ∷ xs) = let rest = split_on c xs in if x == c then [] ∷ rest else push_first x rest
