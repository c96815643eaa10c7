-- ===== src/Base/Texts.antt =====
-- Texts as lists of code points: equality, and `strings.LastIndex` of one character.
use Prim.Native.Nat.{ℕ, zero, suc, ◌+◌}
use Prim.Native.Char.{code}
use Prim.Native.String.{String}
use mathlib.Core.Path.{◌≡◌, refl}
use mathlib.Core.Logic.{◌↔◌}
use mathlib.Core.Bool.{Bool, true, false, ◌&&◌}
use mathlib.Core.Option.{Option, none, some}
use mathlib.Core.List.{List, [], ◌∷◌}
use native.Mathlib.Omega.{arith}
use gorums_ata.Base.Tests.{◌==◌, if◌then◌else◌}
use gorums_ata.Base.Lists.{Text}

abbrev pub codes : String → Text
codes String.[] = []
codes (String.◌∷◌ c s) = code c ∷ codes s

abbrev pub same_text : Text → Text → Bool
same_text [] [] = true
same_text [] (d ∷ t) = false
same_text (c ∷ s) [] = false
same_text (c ∷ s) (d ∷ t) = c == d && same_text s t

pub same_text_iff : (s t : Text) → (same_text s t ≡ true) ↔ (s ≡ t)
same_text_iff [] [] = (λ h. refl, λ e. refl)
same_text_iff [] (d ∷ t) = (λ h. cc, λ e. cc)
same_text_iff (c ∷ s) [] = (λ h. cc, λ e. cc)
same_text_iff (c ∷ s) (d ∷ t) =
    (λ h. ground (arith, same_text_iff s t), λ e. ground (arith, same_text_iff s t))

abbrev pub drop {ℓ} : {A : Type ℓ} → ℕ → List A → List A
drop zero xs = xs
drop (suc n) [] = []
drop (suc n) (x ∷ xs) = drop n xs

abbrev pub take {ℓ} : {A : Type ℓ} → ℕ → List A → List A
take zero xs = []
take (suc n) [] = []
take (suc n) (x ∷ xs) = x ∷ take n xs

-- `strings.LastIndex` of a text of one character, where -1 is `none`.
unfoldable pub last_index : ℕ → Text → Option ℕ
last_index c [] = none
last_index c (x ∷ s) = elim (last_index c s) [
  | some i ↦ some (i + 1)
  | none ↦ if x == c then some 0 else none
]

-- `s[strings.LastIndex(s, c)+1:]`
unfoldable pub after_last : ℕ → Text → Text
unfolding last_index
after_last c s = elim (last_index c s) [ none ↦ s | some i ↦ drop (i + 1) s ]

-- `s[:strings.LastIndex(s, c)]`, of a text that has the character.
unfoldable pub before_last : ℕ → Text → Text
unfolding last_index
before_last c s = elim (last_index c s) [ none ↦ s | some i ↦ take i s ]

-- What stands before and behind the first `c`, by `strings.Index`.
unfoldable pub cut : ℕ → Text → Option (Text × Text)
cut c [] = none
cut c (x ∷ xs) =
    let rest = cut c xs in
    if x == c then some ([], xs) else elim rest [ none ↦ none | some p ↦ some (x ∷ p.0, p.1) ]
