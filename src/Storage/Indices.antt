-- ===== src/Storage/Indices.antt =====
-- examples/storage/repl.go: `parseIndices`, `parseConfiguration`.
use gorums_ata.Base.{
  ℕ, zero, suc, ◌+◌, ◌-◌, ◌≤◌, ◌<◌, ◌≡◌, refl, ◌⊎◌, inl, inr, true, false, ◌||◌, Option, none, some,
  List, [], ◌∷◌, map, arith, ltb, leb, ◌==◌, if◌then◌else◌, Bool-cases, Option-cases, length,
  get_elem?, All, mem, sort_by, IsSorted, sort_by-IsSorted, ℤ, pos, negsuc, count_up, Sum-cases,
  get_elem?-some,
}
use gorums_ata.Stream.Types.{Run, ok, panics}
use gorums_ata.Node.{compare_id}
use gorums_ata.Node.Compare.{compare_id-flip}
use gorums_ata.Config.{Configuration}
use gorums_ata.Storage.Text.{Text, atoi, cut, split_on}

pub data ParseError : Type 0 where
  not_numeric invalid_configuration : ParseError
  duplicate_index : ℕ → ParseError

abbrev pub Indices : Type 0
Indices = List ℕ ⊎ ParseError

-- The branch of `parseIndices` for a range, behind the calls of `Atoi`.
unfoldable pub range_indices : ℕ → ℤ → ℤ → Indices
range_indices n (pos a) (pos b) =
    if leb b a || ltb n b then inr invalid_configuration else inl (count_up a (b - a))
range_indices n (pos a) (negsuc b) = inr invalid_configuration
range_indices n (negsuc a) b = inr invalid_configuration

-- A bound of a range, which may be left out.
abbrev pub bound : ℕ → Text → Option ℤ
bound default [] = some (pos default)
bound default (c ∷ cs) = atoi (c ∷ cs)

-- The loop over a list of indices, with the keys of `seen`.
unfoldable pub list_indices : ℕ → List ℕ → List Text → Indices
list_indices n seen [] = inl []
list_indices n seen (t ∷ ts) = elim (atoi t) [
  | none ↦ inr not_numeric
  | some (negsuc i) ↦ inr invalid_configuration
  | some (pos i) ↦
      let rest = list_indices n (i ∷ seen) ts in
      if leb n i
      then inr invalid_configuration
      else if mem i seen
      then inr (duplicate_index i)
      else elim rest [ inl is ↦ inl (i ∷ is) | inr e ↦ inr e ]
]

-- `parseIndices`
unfoldable pub parse_indices : Text → ℕ → Indices
unfolding range_indices list_indices
parse_indices t n = elim (cut 58 t) [
  | some p ↦ elim (bound 0 p.0) [
    | none ↦ inr not_numeric
    | some start ↦ elim (bound n p.1) [
      | none ↦ inr not_numeric
      | some stop ↦ range_indices n start stop
    ]
  ]
  | none ↦ list_indices n [] (split_on 44 t)
]

-- `cfgNodes[i]` for each index, which panics out of range.
unfoldable pub nodes_at : Configuration → List ℕ → Run Configuration
nodes_at c [] = ok []
nodes_at c (i ∷ is) =
    let rest = nodes_at c is in
    elim (get_elem? c i) [
      | none ↦ panics
      | some n ↦ elim rest [ ok ns ↦ ok (n ∷ ns) | Run.blocks ↦ Run.blocks | panics ↦ panics ]
    ]

-- `parseConfiguration`
unfoldable pub parse_configuration : Configuration → Text → Run (Configuration ⊎ ParseError)
parse_configuration c t = elim (parse_indices t (length c)) [
  | inr e ↦ ok (inr e)
  | inl is ↦ elim (nodes_at c is) [
    | ok ns ↦ ok (inl (sort_by compare_id ns))
    | Run.blocks ↦ Run.blocks
    | panics ↦ panics
  ]
]

-- No index twice, and each below `n`.
abbrev pub IsDistinct : List ℕ → Type 0
IsDistinct [] = Unit {0}
IsDistinct (i ∷ is) = (mem i is ≡ false) × IsDistinct is

abbrev pub IsBelow : ℕ → List ℕ → Type 0
IsBelow n = All (λ i. i < n)

count_up-IsBelow : (a k n : ℕ) → a + k ≤ n → IsBelow n (count_up a k)
count_up-IsBelow a zero n h = tt
count_up-IsBelow a (suc k) n h = (omega arith, count_up-IsBelow (a + 1) k n (omega arith))

mem-count_up : (i a k : ℕ) → i < a → mem i (count_up a k) ≡ false
mem-count_up i a zero h = refl
mem-count_up i a (suc k) h = ground (arith, mem-count_up i (a + 1) k)

count_up-IsDistinct : (a k : ℕ) → IsDistinct (count_up a k)
count_up-IsDistinct a zero = tt
count_up-IsDistinct a (suc k) =
    (mem-count_up a (a + 1) k (omega arith), count_up-IsDistinct (a + 1) k)

range_indices_lem :
    (n : ℕ) (a b : ℤ) (is : List ℕ) → range_indices n a b ≡ inl is → IsBelow n is × IsDistinct is
unfolding range_indices
range_indices_lem n (pos a) (pos b) is h =
    let same : count_up a (b - a) ≡ is = ground arith in
    let fits : a + (b - a) ≤ n = ground arith in
    rw (← same) (count_up-IsBelow a (b - a) n fits, count_up-IsDistinct a (b - a))
range_indices_lem n (pos a) (negsuc b) is h = cc
range_indices_lem n (negsuc a) b is h = cc

-- What the loop has found when `seen` are the indices before.
abbrev IsFound : ℕ → List ℕ → List ℕ → Type 0
IsFound n seen is = IsBelow n is × IsDistinct is × ((i : ℕ) → mem i seen ≡ true → mem i is ≡ false)

mem-cons_other :
    (j i : ℕ) (js seen : List ℕ)
    → mem j seen ≡ true
    → mem i seen ≡ false
    → (mem j (i ∷ seen) ≡ true → mem j js ≡ false)
    → mem j (i ∷ js) ≡ false
mem-cons_other j i js seen m new apart = elim (Bool-cases (j == i)) [
  | inl same ↦ let equal : j ≡ i = ground arith in ground arith
  | inr other ↦ let later : mem j js ≡ false = apart (ground arith) in ground arith
]

list_indices_lem :
    (n : ℕ) (seen : List ℕ) (ts : List Text) (is : List ℕ)
    → list_indices n seen ts ≡ inl is
    → IsFound n seen is
unfolding list_indices
list_indices_lem n seen [] is h =
    let same : [] ≡ is = ground arith in rw (← same) (tt, tt, λ i m. refl)
list_indices_lem n seen (t ∷ ts) is h = elim (Option-cases (atoi t)) [
  | inl bad ↦ absurd (ground arith)
  | inr (negsuc i, at) ↦ absurd (ground arith)
  | inr (pos i, at) ↦ elim (Sum-cases (list_indices n (i ∷ seen) ts)) [
    | inr (e, bad) ↦ absurd (ground arith)
    | inl (js, rest) ↦
        let (below, distinct, apart) = list_indices_lem n (i ∷ seen) ts js rest in
        let same : i ∷ js ≡ is = ground arith in
        let small : i < n = ground arith in
        let new : mem i seen ≡ false = ground arith in
        let first : mem i js ≡ false = apart i (ground arith) in
        rw (← same)
          ((small, below), (first, distinct), λ j m. mem-cons_other j i js seen m new (apart j))
  ]
]

-- `parseIndices` returns only indices of nodes, and none twice.
pub parse_indices_lem :
    (t : Text) (n : ℕ) (is : List ℕ) → parse_indices t n ≡ inl is → IsBelow n is × IsDistinct is
unfolding parse_indices
parse_indices_lem t n is h = elim (Option-cases (cut 58 t)) [
  | inl listed ↦
      let (below, distinct, _) = list_indices_lem n [] (split_on 44 t) is (ground arith) in
      (below, distinct)
  | inr (p, ranged) ↦ elim (Option-cases (bound 0 p.0)) [
    | inl bad ↦ absurd (ground arith)
    | inr (a, from) ↦ elim (Option-cases (bound n p.1)) [
      | inl bad ↦ absurd (ground arith)
      | inr (b, to) ↦ range_indices_lem n a b is (ground arith)
    ]
  ]
]

nodes_at_returns :
    (c : Configuration) (is : List ℕ)
    → IsBelow (length c) is
    → (ns : Configuration) × (nodes_at c is ≡ ok ns) × (map (get_elem? c) is ≡ map some ns)
unfolding nodes_at
nodes_at_returns c [] h = ([], refl, refl)
nodes_at_returns c (i ∷ is) (small, h) =
    let (ns, ran, found) = nodes_at_returns c is h in
    let (n, at) = get_elem?-some c i small in (n ∷ ns, ground arith, rw (at, found) refl)

-- What `parseConfiguration` makes of the indices of a text.
abbrev pub IsParsed : Configuration → Indices → Configuration ⊎ ParseError → Type 0
IsParsed c (inr e) r = r ≡ inr e
IsParsed c (inl is) r =
    (ns : Configuration) × (r ≡ inl (sort_by compare_id ns))
    × (map (get_elem? c) is ≡ map some ns)
    × IsDistinct is
    × IsSorted compare_id (sort_by compare_id ns)

-- `parseConfiguration` returns for any text, without an index out of range: the error of
-- `parseIndices`, or the nodes at its indices, which are all different, sorted by ID.
pub parse_configuration_returns :
    (c : Configuration) (t : Text)
    → (r : Configuration ⊎ ParseError) × (parse_configuration c t ≡ ok r)
      × IsParsed c (parse_indices t (length c)) r
unfolding parse_configuration
parse_configuration_returns c t = elim (Sum-cases (parse_indices t (length c))) [
  | inr (e, bad) ↦ (inr e, ground arith, rw bad refl)
  | inl (is, fine) ↦
      let (below, distinct) = parse_indices_lem t (length c) is fine in
      let (ns, ran, found) = nodes_at_returns c is below in
      let returns : parse_configuration c t ≡ ok (inl (sort_by compare_id ns)) = ground arith in
      (
        inl (sort_by compare_id ns),
        returns,
        rw fine (ns, refl, found, distinct, sort_by-IsSorted compare_id compare_id-flip ns),
      )
]
