-- ===== src/Base/Order.antt =====
-- The order of texts by their code points, as in `sort.Strings`.
use Prim.Native.Nat.{Ordering, compare}
use mathlib.Core.Path.{subst, ◌≡◌, refl, sym, ap, ◌∙◌}
use mathlib.Core.Logic.{◌≢◌, inl, inr}
use mathlib.Core.Bool.{Bool, true, false, ◌||◌}
use mathlib.Core.List.{List, [], ◌∷◌, ◌++◌}
use native.Mathlib.Omega.{arith}
use gorums_ata.Base.Tests.{Bool-cases}
use gorums_ata.Base.Lists.{Text, any}
use gorums_ata.Base.Texts.{same_text, same_text_iff}
use gorums_ata.Base.Sort.{
  IsSorted, insert_by, sort_by, any-insert_by, any-sort_by, sort_by-IsSorted,
}

unfoldable pub compare_text : Text → Text → Ordering
compare_text [] [] = Ordering.eq
compare_text [] (d ∷ t) = Ordering.lt
compare_text (c ∷ s) [] = Ordering.gt
compare_text (c ∷ s) (d ∷ t) = elim (compare c d) [
  | Ordering.eq ↦ compare_text s t
  | Ordering.lt ↦ Ordering.lt
  | Ordering.gt ↦ Ordering.gt
]

pub compare_text_flip :
    (s t : Text) → compare_text s t ≡ Ordering.gt → compare_text t s ≢ Ordering.gt
unfolding compare_text
compare_text_flip [] [] h = ground arith
compare_text_flip [] (d ∷ t) h = ground arith
compare_text_flip (c ∷ s) [] h = ground arith
compare_text_flip (c ∷ s) (d ∷ t) h = ground (arith, compare_text_flip s t)

compare_text_antisym :
    (s t : Text) → compare_text s t ≢ Ordering.gt → compare_text t s ≢ Ordering.gt → s ≡ t
unfolding compare_text
compare_text_antisym [] [] h k = refl
compare_text_antisym [] (d ∷ t) h k = ground arith
compare_text_antisym (c ∷ s) [] h k = ground arith
compare_text_antisym (c ∷ s) (d ∷ t) h k = ground (arith, compare_text_antisym s t)

compare_text_trans :
    (s t u : Text)
    → compare_text s t ≢ Ordering.gt
    → compare_text t u ≢ Ordering.gt
    → compare_text s u ≢ Ordering.gt
unfolding compare_text
compare_text_trans [] t [] h k = ground arith
compare_text_trans [] t (e ∷ u) h k = ground arith
compare_text_trans (c ∷ s) [] u h k = ground arith
compare_text_trans (c ∷ s) (d ∷ t) [] h k = ground arith
compare_text_trans (c ∷ s) (d ∷ t) (e ∷ u) h k = ground (arith, compare_text_trans s t u)

-- A text does not occur twice.
abbrev pub NoRepeats : List Text → Type 0
NoRepeats [] = Unit
NoRepeats (s ∷ ss) = (any (same_text s) ss ≡ false) × NoRepeats ss

pub any-snoc :
    (p : Text → Bool) (ss : List Text) (s : Text) → any p (ss ++ s ∷ []) ≡ (any p ss || p s)
any-snoc p [] s = ground arith
any-snoc p (x ∷ ss) s = ground (arith, any-snoc p ss s)

pub NoRepeats-snoc :
    (ss : List Text) (s : Text)
    → NoRepeats ss
    → any (same_text s) ss ≡ false
    → NoRepeats (ss ++ s ∷ [])
NoRepeats-snoc [] s h k = (refl, tt)
NoRepeats-snoc (x ∷ ss) s h k = (
  ground (arith, any-snoc (same_text x) ss s, same_text_iff x s, same_text_iff s x),
  NoRepeats-snoc ss s h.1 (ground arith),
)

sorted-le :
    (s t : Text) (ss : List Text)
    → IsSorted compare_text (s ∷ ss)
    → any (same_text t) ss ≡ true
    → compare_text s t ≢ Ordering.gt
sorted-le s t [] sorted h = cc
sorted-le s t (x ∷ ss) sorted h = elim (Bool-cases (same_text t x)) [
  | inl same ↦ ground (arith, same_text_iff t x)
  | inr other ↦ compare_text_trans s x t sorted.0 (sorted-le x t ss sorted.1 (ground arith))
]

head-le :
    (x y : Text) (xs : List Text)
    → IsSorted compare_text (x ∷ xs)
    → any (same_text y) (x ∷ xs) ≡ true
    → compare_text x y ≢ Ordering.gt
head-le x y xs sorted has = elim (Bool-cases (same_text y x)) [
  | inl same ↦
      let e : x ≡ y = sym ((same_text_iff y x).0 same) in rw e (λ h. compare_text_flip y y h h)
  | inr other ↦ sorted-le x y xs sorted (ground arith)
]

tail-members :
    (x : Text) (xs ys : List Text)
    → any (same_text x) xs ≡ false
    → any (same_text x) ys ≡ false
    → ((t : Text) → any (same_text t) (x ∷ xs) ≡ any (same_text t) (x ∷ ys))
    → (t : Text) → any (same_text t) xs ≡ any (same_text t) ys
tail-members x xs ys nx ny same t = elim (Bool-cases (same_text t x)) [
  | inl e ↦ rw ((same_text_iff t x).0 e) (nx ∙ sym ny)
  | inr other ↦ ground (arith, same t)
]

-- Sorted lists without repetitions that have the same members are equal.
sorted-eq :
    (xs ys : List Text)
    → IsSorted compare_text xs
    → IsSorted compare_text ys
    → NoRepeats xs
    → NoRepeats ys
    → ((t : Text) → any (same_text t) xs ≡ any (same_text t) ys)
    → xs ≡ ys
sorted-eq [] [] sx sy nx ny same = refl
sorted-eq [] (y ∷ ys) sx sy nx ny same = ground (arith, same y, same_text_iff y y)
sorted-eq (x ∷ xs) [] sx sy nx ny same = ground (arith, same x, same_text_iff x x)
sorted-eq (x ∷ xs) (y ∷ ys) sx sy nx ny same =
    let e : x ≡ y =
      compare_text_antisym x y (head-le x y xs sx (same y ∙ ground (arith, same_text_iff y y)))
        (head-le y x ys sy (sym (same x) ∙ ground (arith, same_text_iff x x))) in
    let nx' : any (same_text y) xs ≡ false = rw (← e) nx.0 in
    let same' : (t : Text) → any (same_text t) (y ∷ xs) ≡ any (same_text t) (y ∷ ys) =
      subst (λ z. (t : Text) → any (same_text t) (z ∷ xs) ≡ any (same_text t) (y ∷ ys)) e same in
    rw e (ap (◌∷◌ y) (sorted-eq xs ys sx.1 sy.1 nx.1 ny.1 (tail-members y xs ys nx' ny.0 same')))

NoRepeats-insert_by :
    (x : Text) (xs : List Text)
    → NoRepeats xs
    → any (same_text x) xs ≡ false
    → NoRepeats (insert_by compare_text x xs)
unfolding insert_by
NoRepeats-insert_by x [] h k = (refl, tt)
NoRepeats-insert_by x (y ∷ ys) h k = ground (
  arith,
  NoRepeats-insert_by x ys h.1,
  any-insert_by compare_text (same_text y) x ys,
  same_text_iff x y,
  same_text_iff y x,
)

NoRepeats-sort_by : (xs : List Text) → NoRepeats xs → NoRepeats (sort_by compare_text xs)
unfolding sort_by
NoRepeats-sort_by [] h = tt
NoRepeats-sort_by (x ∷ xs) h =
    NoRepeats-insert_by x (sort_by compare_text xs) (NoRepeats-sort_by xs h.1)
      (any-sort_by compare_text (same_text x) xs ∙ h.0)

-- Lists without repetitions that have the same members are equal when they are sorted.
pub sort_by-members :
    (xs ys : List Text)
    → NoRepeats xs
    → NoRepeats ys
    → ((t : Text) → any (same_text t) xs ≡ any (same_text t) ys)
    → sort_by compare_text xs ≡ sort_by compare_text ys
sort_by-members xs ys nx ny same =
    sorted-eq (sort_by compare_text xs) (sort_by compare_text ys)
      (sort_by-IsSorted compare_text compare_text_flip xs)
      (sort_by-IsSorted compare_text compare_text_flip ys) (NoRepeats-sort_by xs nx)
      (NoRepeats-sort_by ys ny)
      (λ t.
        any-sort_by compare_text (same_text t) xs
        ∙ same t
        ∙ sym (any-sort_by compare_text (same_text t) ys))
