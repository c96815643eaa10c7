-- ===== src/Storage/Cluster/Writes.antt =====
-- examples/storage: what a write leaves at a server, and what later writes keep of it.
use gorums_ata.Base.{
  ℕ, ◌≡◌, ap, ◌∙◌, inl, inr, true, false, ◌&&◌, some, List, [], ◌∷◌, arith, ◌==◌, ==_iff,
  Bool-cases, ℤ, pos, negsuc,
}
use Prim.Native.String.{String}
use text.Mathlib.Text.{◌==◌ as str_eq}
use text.Mathlib.TextEquality.{eq_iff}
use text.Mathlib.TextPositions.{eq_refl}
use gorums_ata.Calls.Responses.Quorum.{answered}
use gorums_ata.Storage.{WriteRequest, Storage, after, find, write, is_stale, is_updated}
use gorums_ata.Storage.Cluster.{
  Cluster, write_at, Fate, replies, unsent, lost, write_qc, write_all, IsSince,
}

after_refl : (t : ℤ) → after t t ≡ false
after_refl (pos a) = ground arith
after_refl (negsuc a) = ground arith

pub after_trans : (a b c : ℤ) → after a b ≡ false → after b c ≡ false → after a c ≡ false
after_trans (pos a) (pos b) (pos c) h g = ground arith
after_trans (pos a) (pos b) (negsuc c) h g = ground arith
after_trans (pos a) (negsuc b) c h g = ground arith
after_trans (negsuc a) (pos b) (pos c) h g = ground arith
after_trans (negsuc a) (pos b) (negsuc c) h g = ground arith
after_trans (negsuc a) (negsuc b) (pos c) h g = ground arith
after_trans (negsuc a) (negsuc b) (negsuc c) h g = ground arith

pub after-asym : (a b : ℤ) → after a b ≡ true → after b a ≡ false
after-asym (pos a) (pos b) h = ground arith
after-asym (pos a) (negsuc b) h = ground arith
after-asym (negsuc a) (pos b) h = ground arith
after-asym (negsuc a) (negsuc b) h = ground arith

-- No write at a server takes back what is there.
write-IsSince :
    (t : ℤ) (k : String) (m : Storage) (req : WriteRequest)
    → IsSince t k m
    → IsSince t k (write m req).0
unfolding write
write-IsSince t k m req (s, at, since) = elim (Bool-cases (is_stale (find req.key m) req.time)) [
  | inl stale ↦ (s, ground arith, since)
  | inr newer ↦ elim (Bool-cases (str_eq req.key k)) [
    | inl hit ↦
        let same : req.key ≡ k = (eq_iff req.key k).0 hit in
        let at' : find req.key m ≡ some s = ap (λ j. find j m) same ∙ at in
        let kept : after s.time req.time ≡ false = ground arith in
        (
          record { value = req.value; time = req.time },
          ground arith,
          after_trans t s.time req.time since kept,
        )
    | inr miss ↦ (s, ground arith, since)
  ]
]

-- A write that is `New` leaves its own time, or a later one.
write-New :
    (m : Storage) (req : WriteRequest)
    → (write m req).1 ≡ true
    → IsSince req.time req.key (write m req).0
unfolding write
write-New m req h = (
  record { value = req.value; time = req.time },
  ground (arith, eq_refl req.key),
  after_refl req.time,
)

-- The same, of a whole cluster.
abbrev pub Since : ℤ → String → Cluster → ℕ → Type 0
Since t k c i = IsSince t k (c i)

write_at-Since :
    (t : ℤ) (k : String) (c : Cluster) (i j : ℕ) (req : WriteRequest)
    → Since t k c j
    → Since t k (write_at c i req) j
write_at-Since t k c i j req h = elim (Bool-cases (i == j)) [
  | inl hit ↦
      let same : i ≡ j = (==_iff i j).0 hit in rw hit (write-IsSince t k (c i) req (rw same h))
  | inr miss ↦ rw miss h
]

pub write_all-Since :
    (t : ℤ) (k : String) (c : Cluster) (ws : List (ℕ × WriteRequest)) (j : ℕ)
    → Since t k c j
    → Since t k (write_all c ws) j
unfolding write_all
write_all-Since t k c [] j h = h
write_all-Since t k c ((i, req) ∷ ws) j h =
    write_all-Since t k (write_at c i req) ws j (write_at-Since t k c i j req h)

write_qc-Since :
    (t : ℤ) (k : String) (c : Cluster) (req : WriteRequest) (fs : List (ℕ × Fate)) (j : ℕ)
    → Since t k c j
    → Since t k (write_qc c req fs).0 j
unfolding write_qc
write_qc-Since t k c req [] j h = h
write_qc-Since t k c req ((i, replies) ∷ fs) j h =
    write_qc-Since t k (write_at c i req) req fs j (write_at-Since t k c i j req h)
write_qc-Since t k c req ((i, unsent e) ∷ fs) j h = write_qc-Since t k c req fs j h
write_qc-Since t k c req ((i, lost e) ∷ fs) j h =
    write_qc-Since t k (write_at c i req) req fs j (write_at-Since t k c i j req h)

-- A node whose response is counted has the value, or a newer one.
pub write_qc-answered :
    (c : Cluster) (req : WriteRequest) (fs : List (ℕ × Fate)) (j : ℕ)
    → answered is_updated (write_qc c req fs).1 j ≡ true
    → Since req.time req.key (write_qc c req fs).0 j
unfolding write_qc
write_qc-answered c req [] j h = ground arith
write_qc-answered c req ((i, replies) ∷ fs) j h =
    elim (Bool-cases (i == j && (write (c i) req).1)) [
      | inl now ↦
          let hit : i == j ≡ true = ground arith in
          let new : (write (c i) req).1 ≡ true = ground arith in
          write_qc-Since req.time req.key (write_at c i req) req fs j
            (rw hit (write-New (c i) req new))
      | inr later ↦ write_qc-answered (write_at c i req) req fs j (ground arith)
    ]
write_qc-answered c req ((i, unsent e) ∷ fs) j h = write_qc-answered c req fs j (ground arith)
write_qc-answered c req ((i, lost e) ∷ fs) j h =
    write_qc-answered (write_at c i req) req fs j (ground arith)
