-- ===== src/Calls/Responses/Quorum.antt =====
-- responses.go: why two quorum calls that reach a majority of one configuration share a node.
use gorums_ata.Base.{
  ℕ, ◌+◌, ◌*◌, ◌/◌, ◌≤◌, ◌<◌, ◌≡◌, refl, inl, inr, Bool, true, false, ◌&&◌, ◌||◌, none, List, [],
  ◌∷◌, arith, ◌==◌, ==_iff, Bool-cases, length, tally, any, mem,
}
use gorums_ata.Calls.Responses.{NodeResponse, ResponseSeq, Responses, majority}
use gorums_ata.Calls.Responses.Threshold.{counts, threshold_lem}

-- Two tests that together pass more often than there are entries pass together somewhere.
pub overlap :
    (p q : ℕ → Bool) (ids : List ℕ)
    → length ids < tally p ids + tally q ids
    → (i : ℕ) × (mem i ids ≡ true) × (p i ≡ true) × (q i ≡ true)
overlap p q [] h = absurd (omega arith)
overlap p q (x ∷ ids) h = elim (Bool-cases (p x && q x)) [
  | inl both ↦ (x, ground arith, ground arith, ground arith)
  | inr apart ↦ let (i, m, a, b) = overlap p q ids (ground arith) in (i, ground arith, a, b)
]

tally-or-le : (p q : ℕ → Bool) (ids : List ℕ) → tally q ids ≤ tally (λ i. p i || q i) ids
tally-or-le p q [] = omega arith
tally-or-le p q (x ∷ ids) = ground (arith, tally-or-le p q ids)

tally-or-new :
    (p q : ℕ → Bool) (k : ℕ) (ids : List ℕ)
    → mem k ids ≡ true
    → p k ≡ true
    → q k ≡ false
    → tally q ids < tally (λ i. p i || q i) ids
tally-or-new p q k [] m a b = cc
tally-or-new p q k (x ∷ ids) m a b = elim (Bool-cases (x == k)) [
  | inl same ↦
      let e : x ≡ k = (==_iff x k).0 same in
      let a' : p x ≡ true = rw e a in
      let b' : q x ≡ false = rw e b in ground (arith, tally-or-le p q ids)
  | inr other ↦ ground (arith, tally-or-new p q k ids (ground arith) a b)
]

module _ {R : Type 0} where
  -- Whether a response from node `i` passes a test.
  abbrev pub answered : (NodeResponse R → Bool) → ResponseSeq R → ℕ → Bool
  answered t [] i = false
  answered t (r ∷ rs) i = (r.node_id == i && t r) || answered t rs i

  -- Whether a response from node `i` counts.
  abbrev pub replied : ResponseSeq R → ℕ → Bool
  replied = answered counts

  abbrev pub responds : ℕ → ResponseSeq R → Bool
  responds i = any (λ r. r.node_id == i)

  -- Each node of the sequence is one of `ids`, and responds once.
  abbrev pub IsFrom : List ℕ → ResponseSeq R → Type 0
  IsFrom ids [] = Unit {0}
  IsFrom ids (r ∷ rs) = (mem r.node_id ids ≡ true) × (responds r.node_id rs ≡ false) × IsFrom ids rs

  answered-responds :
      (t : NodeResponse R → Bool) (i : ℕ) (rs : ResponseSeq R)
      → responds i rs ≡ false
      → answered t rs i ≡ false
  answered-responds t i [] h = refl
  answered-responds t i (r ∷ rs) h = ground (arith, answered-responds t i rs)

  -- As many nodes pass a test as there are responses that do.
  pub tally-answered :
      (t : NodeResponse R → Bool) (ids : List ℕ) (rs : ResponseSeq R)
      → IsFrom ids rs
      → tally t rs ≤ tally (answered t rs) ids
  tally-answered t ids [] h = omega arith
  tally-answered t ids (r ∷ rs) h = elim (Bool-cases (t r)) [
    | inl c ↦
        let new =
          tally-or-new (λ i. r.node_id == i && t r) (answered t rs) r.node_id ids h.0 (ground arith)
            (answered-responds t r.node_id rs h.1) in
        ground (arith, new, tally-answered t ids rs h.2)
    | inr c ↦ ground (
      arith,
      tally-or-le (λ i. r.node_id == i && t r) (answered t rs) ids,
      tally-answered t ids rs h.2,
    )
  ]

  majority-counts :
      (v : R) (r : Responses R) → (majority v r).1 ≡ none → r.size < 2 * tally counts r.seq
  unfolding majority
  majority-counts v r h = ground (arith, threshold_lem v r (r.size / 2 + 1))

  -- Two quorum calls on one configuration that both reach a majority have a common node: its
  -- response counts in both. Each call's responses come from nodes of the configuration, at most
  -- one from each.
  pub majority_intersect :
      (ids : List ℕ) (v w : R) (r s : Responses R)
      → r.size ≡ length ids
      → s.size ≡ length ids
      → IsFrom ids r.seq
      → IsFrom ids s.seq
      → (majority v r).1 ≡ none
      → (majority w s).1 ≡ none
      → (i : ℕ) × (mem i ids ≡ true) × (replied r.seq i ≡ true) × (replied s.seq i ≡ true)
  majority_intersect ids v w r s a b f g p q = overlap (replied r.seq) (replied s.seq) ids (
      omega (
        arith,
        majority-counts v r p,
        majority-counts w s q,
        tally-answered counts ids r.seq f,
        tally-answered counts ids s.seq g,
      ))
