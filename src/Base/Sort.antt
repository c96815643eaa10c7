-- ===== src/Base/Sort.antt =====
-- `slices.SortStableFunc` as an insertion sort by a comparison: it keeps the order of entries that
-- compare equal. `slices.SortFunc` is this function where no two entries compare equal.
use Prim.Native.Nat.{◌+◌, Ordering}
use mathlib.Core.Path.{◌≡◌, refl}
use mathlib.Core.Logic.{◌≢◌}
use mathlib.Core.Bool.{Bool, true, false}
use mathlib.Core.List.{List, [], ◌∷◌}
use native.Mathlib.Omega.{arith}
use gorums_ata.Base.Tests.{if◌then◌else◌, to_nat}
use gorums_ata.Base.Lists.{length, tally, any, keep}

abbrev pub is_gt : Ordering → Bool
is_gt Ordering.gt = true
is_gt _ = false

module _ {ℓ} {A : Type ℓ} (cmp : A → A → Ordering) where
  -- Before the first entry that is not smaller: an entry meets those that stood behind it.
  unfoldable pub insert_by : A → List A → List A
  insert_by x [] = x ∷ []
  insert_by x (y ∷ ys) =
      let rest = insert_by x ys in if is_gt (cmp x y) then y ∷ rest else x ∷ y ∷ ys

  unfoldable pub sort_by : List A → List A
  sort_by [] = []
  sort_by (x ∷ xs) = insert_by x (sort_by xs)

  length-insert_by : (x : A) (xs : List A) → length (insert_by x xs) ≡ 1 + length xs
  unfolding insert_by
  length-insert_by x [] = refl
  length-insert_by x (y ∷ ys) = ground (arith, length-insert_by x ys)

  pub length-sort_by : (xs : List A) → length (sort_by xs) ≡ length xs
  unfolding sort_by
  length-sort_by [] = refl
  length-sort_by (x ∷ xs) = omega (arith, length-insert_by x (sort_by xs), length-sort_by xs)

  pub tally-insert_by :
      (p : A → Bool) (x : A) (xs : List A) → tally p (insert_by x xs) ≡ to_nat (p x) + tally p xs
  unfolding insert_by
  tally-insert_by p x [] = omega arith
  tally-insert_by p x (y ∷ ys) = ground (arith, tally-insert_by p x ys)

  -- Sorting keeps how many entries pass any test.
  pub tally-sort_by : (p : A → Bool) (xs : List A) → tally p (sort_by xs) ≡ tally p xs
  unfolding sort_by
  tally-sort_by p [] = refl
  tally-sort_by p (x ∷ xs) = omega (arith, tally-insert_by p x (sort_by xs), tally-sort_by p xs)

  pub any-insert_by : (p : A → Bool) (x : A) (xs : List A) → any p (insert_by x xs) ≡ any p (x ∷ xs)
  unfolding insert_by
  any-insert_by p x [] = refl
  any-insert_by p x (y ∷ ys) = ground (arith, any-insert_by p x ys)

  pub any-sort_by : (p : A → Bool) (xs : List A) → any p (sort_by xs) ≡ any p xs
  unfolding sort_by
  any-sort_by p [] = refl
  any-sort_by p (x ∷ xs) = ground (arith, any-insert_by p x (sort_by xs), any-sort_by p xs)

  -- No entry is greater than the one behind it.
  abbrev pub HeadLe : A → List A → Type 0
  HeadLe x [] = Unit
  HeadLe x (y ∷ ys) = cmp x y ≢ Ordering.gt

  abbrev pub IsSorted : List A → Type 0
  IsSorted [] = Unit
  IsSorted (x ∷ xs) = HeadLe x xs × IsSorted xs

  module _ (flip : (x y : A) → cmp x y ≡ Ordering.gt → cmp y x ≢ Ordering.gt) where
    HeadLe-insert_by :
        (x y : A) (ys : List A) → HeadLe y ys → cmp y x ≢ Ordering.gt → HeadLe y (insert_by x ys)
    unfolding insert_by
    HeadLe-insert_by x y [] h k = k
    HeadLe-insert_by x y (z ∷ zs) h k = ground arith

    pub insert_by-IsSorted : (x : A) (xs : List A) → IsSorted xs → IsSorted (insert_by x xs)
    unfolding insert_by
    insert_by-IsSorted x [] s = (tt, tt)
    insert_by-IsSorted x (y ∷ ys) s =
        ground (arith, flip x y, insert_by-IsSorted x ys s.1, HeadLe-insert_by x y ys s.0)

    pub sort_by-IsSorted : (xs : List A) → IsSorted (sort_by xs)
    unfolding sort_by
    sort_by-IsSorted [] = tt
    sort_by-IsSorted (x ∷ xs) = insert_by-IsSorted x (sort_by xs) (sort_by-IsSorted xs)

  insert_by_least : (x : A) (xs : List A) → HeadLe x xs → insert_by x xs ≡ x ∷ xs
  unfolding insert_by
  insert_by_least x [] h = refl
  insert_by_least x (y ∷ ys) h = ground arith

  -- What is in order stays as it is.
  pub sort_by_sorted : (xs : List A) → IsSorted xs → sort_by xs ≡ xs
  unfolding sort_by
  sort_by_sorted [] s = refl
  sort_by_sorted (x ∷ xs) s = rw (sort_by_sorted xs s.1) (insert_by_least x xs s.0)

  -- Entries none of which is greater than another keep their order.
  module _ (p : A → Bool)
      (level : (x y : A) → p x ≡ true → p y ≡ true → cmp x y ≢ Ordering.gt) where
    keep-insert_by : (x : A) (xs : List A) → keep p (insert_by x xs) ≡ keep p (x ∷ xs)
    unfolding insert_by
    keep-insert_by x [] = refl
    keep-insert_by x (y ∷ ys) = ground (arith, level x y, keep-insert_by x ys)

    pub keep-sort_by : (xs : List A) → keep p (sort_by xs) ≡ keep p xs
    unfolding sort_by
    keep-sort_by [] = refl
    keep-sort_by (x ∷ xs) = ground (arith, keep-insert_by x (sort_by xs), keep-sort_by xs)
