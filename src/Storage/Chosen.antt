-- ===== src/Storage/Chosen.antt =====
-- examples/storage/repl.go: what `parseConfiguration` chooses is not empty and of the configuration.
use gorums_ata.Base.{
  ℕ, zero, suc, ◌-◌, ◌<◌, ◌≡◌, refl, sym, ◌∙◌, ◌⊎◌, inl, inr, Bool, true, some, List, [], ◌∷◌, map,
  arith, Bool-cases, Option-cases, length, get_elem?, any, length-sort_by, sort_by, any-sort_by, ℤ,
  pos, negsuc, count_up, Sum-cases,
}
use mathlib.Core.Path.{subst}
use gorums_ata.Stream.Types.{ok}
use gorums_ata.Node.{Node, compare_id}
use gorums_ata.Config.{Configuration}
use gorums_ata.Storage.Text.{Text, atoi, cut, split_on}
use gorums_ata.Storage.Indices.{
  ParseError, bound, range_indices, list_indices, parse_indices, parse_configuration,
  parse_configuration_returns, IsParsed,
}
use gorums_ata.Storage.Safe.{IsWithin}

split_on_nonempty : (c : ℕ) (t : Text) → 0 < length (split_on c t)
unfolding split_on
split_on_nonempty c [] = omega arith
split_on_nonempty c (x ∷ xs) = ground (arith, split_on_nonempty c xs)

list_indices-length :
    (n : ℕ) (seen : List ℕ) (ts : List Text) (is : List ℕ)
    → list_indices n seen ts ≡ inl is
    → length is ≡ length ts
unfolding list_indices
list_indices-length n seen [] is h = ground arith
list_indices-length n seen (t ∷ ts) is h = elim (Option-cases (atoi t)) [
  | inl bad ↦ absurd (ground arith)
  | inr (negsuc i, at) ↦ absurd (ground arith)
  | inr (pos i, at) ↦ elim (Sum-cases (list_indices n (i ∷ seen) ts)) [
    | inr (e, bad) ↦ absurd (ground arith)
    | inl (js, rest) ↦
        let same : i ∷ js ≡ is = ground arith in
        let len = list_indices-length n (i ∷ seen) ts js rest in rw (← same) (omega arith)
  ]
]

count_up_nonempty : (a k : ℕ) → 0 < k → 0 < length (count_up a k)
count_up_nonempty a zero h = absurd (omega arith)
count_up_nonempty a (suc k) h = omega arith

range_indices_nonempty :
    (n : ℕ) (a b : ℤ) (is : List ℕ) → range_indices n a b ≡ inl is → 0 < length is
unfolding range_indices
range_indices_nonempty n (pos a) (pos b) is h =
    let same : count_up a (b - a) ≡ is = ground arith in
    let some_left : a < b = ground arith in rw (← same) (count_up_nonempty a (b - a) (omega arith))
range_indices_nonempty n (pos a) (negsuc b) is h = cc
range_indices_nonempty n (negsuc a) b is h = cc

parse_indices_nonempty :
    (t : Text) (n : ℕ) (is : List ℕ) → parse_indices t n ≡ inl is → 0 < length is
unfolding parse_indices
parse_indices_nonempty t n is h = elim (Option-cases (cut 58 t)) [
  | inl listed ↦ ground (arith, list_indices-length n [] (split_on 44 t) is, split_on_nonempty 44 t)
  | inr (p, ranged) ↦ elim (Option-cases (bound 0 p.0)) [
    | inl bad ↦ absurd (ground arith)
    | inr (a, from) ↦ elim (Option-cases (bound n p.1)) [
      | inl bad ↦ absurd (ground arith)
      | inr (b, to) ↦ range_indices_nonempty n a b is (ground arith)
    ]
  ]
]

any-get_elem? :
    (p : Node → Bool) (c : Configuration) (i : ℕ) (n : Node)
    → get_elem? c i ≡ some n
    → p n ≡ true
    → any p c ≡ true
any-get_elem? p [] i n h k = cc
any-get_elem? p (m ∷ c) zero n h k = ground arith
any-get_elem? p (m ∷ c) (suc i) n h k = ground (arith, any-get_elem? p c i n)

any_chosen :
    (p : Node → Bool) (c : Configuration) (is : List ℕ) (ns : List Node)
    → map (get_elem? c) is ≡ map some ns
    → any p ns ≡ true
    → any p c ≡ true
any_chosen p c is [] h k = cc
any_chosen p c [] (n ∷ ns) h k = cc
any_chosen p c (i ∷ is) (n ∷ ns) h k = elim (Bool-cases (p n)) [
  | inl first ↦ any-get_elem? p c i n (ground arith) first
  | inr later ↦ any_chosen p c is ns (ground arith) (ground arith)
]

length-chosen :
    (c : Configuration) (is : List ℕ) (ns : List Node)
    → map (get_elem? c) is ≡ map some ns
    → length ns ≡ length is
length-chosen c [] [] h = refl
length-chosen c [] (n ∷ ns) h = cc
length-chosen c (i ∷ is) [] h = cc
length-chosen c (i ∷ is) (n ∷ ns) h = ground (arith, length-chosen c is ns)

chosen_good :
    (c : Configuration) (t : Text) (is : List ℕ) (ns : List Node)
    → parse_indices t (length c) ≡ inl is
    → map (get_elem? c) is ≡ map some ns
    → (0 < length (sort_by compare_id ns)) × IsWithin c (sort_by compare_id ns)
chosen_good c t is ns h found = (
  omega (
    arith,
    parse_indices_nonempty t (length c) is h,
    length-chosen c is ns found,
    length-sort_by compare_id ns,
  ),
  λ p some_one. any_chosen p c is ns found (sym (any-sort_by compare_id p ns) ∙ some_one),
)

IsParsed-good :
    (c : Configuration) (t : Text) (r : Configuration ⊎ ParseError) (d : Configuration)
    → IsParsed c (parse_indices t (length c)) r
    → r ≡ inl d
    → (0 < length d) × IsWithin c d
IsParsed-good c t r d parsed chosen = elim (Sum-cases (parse_indices t (length c))) [
  | inr (e, bad) ↦
      let wrong : r ≡ inr e = subst (λ x. IsParsed c x r) bad parsed in absurd (ground arith)
  | inl (is, fine) ↦
      let (ns, made, found, distinct, sorted) : IsParsed c (inl is) r =
        subst (λ x. IsParsed c x r) fine parsed in
      let same : sort_by compare_id ns ≡ d = ground arith in
      rw (← same) (chosen_good c t is ns fine found)
]

pub parse_configuration_good :
    (c : Configuration) (t : Text)
    → (r : Configuration ⊎ ParseError) × (parse_configuration c t ≡ ok r)
      × ((d : Configuration) → r ≡ inl d → (0 < length d) × IsWithin c d)
parse_configuration_good c t =
    let (r, ran, parsed) = parse_configuration_returns c t in
    (r, ran, λ d chosen. IsParsed-good c t r d parsed chosen)
