-- ===== src/Storage/Cluster/Reads.antt =====
-- examples/storage: what a quorum read finds of an earlier quorum write.
use gorums_ata.Base.{
  ℕ, ◌*◌, ◌<◌, ◌≡◌, refl, ap, ◌∙◌, inl, inr, Bool, true, false, ◌&&◌, ◌||◌, not, Option, none, some,
  List, [], ◌∷◌, arith, ◌==◌, ==_iff, Bool-cases, Option-cases, is_none, length, tally, any, All, ℤ,
}
use Prim.Native.String.{String}
use gorums_ata.Calls.Responses.{NodeResponse, ResponseSeq, Responses}
use gorums_ata.Calls.Responses.Quorum.{overlap, answered, IsFrom, tally-answered}
use gorums_ata.Storage.{
  WriteRequest, ReadResponse, epoch, after, find, read, newest_from, newest_value, is_updated,
  num_updated,
}
use gorums_ata.Storage.Cluster.{Cluster, Fate, replies, unsent, lost, write_qc, read_qc, write_all}
use gorums_ata.Storage.Cluster.Writes.{
  after_trans, after-asym, Since, write_all-Since, write_qc-answered,
}

abbrev pub is_ok : NodeResponse ReadResponse → Bool
is_ok r = is_none r.err

-- A reply that is not older than `t`.
abbrev is_since : ℤ → NodeResponse ReadResponse → Bool
is_since t r = is_none r.err && not (after t r.value.time)

abbrev keeps_since : ℤ → Option ReadResponse → Bool
keeps_since t none = false
keeps_since t (some v) = not (after t v.time)

-- What is not found has no time.
abbrev is_honest : ReadResponse → Bool
is_honest v = v.found || not (after v.time epoch)

abbrev keeps_honest : Option ReadResponse → Bool
keeps_honest none = true
keeps_honest (some v) = is_honest v

read_qc-is_since :
    (t : ℤ) (k : String) (c : Cluster) (fs : List (ℕ × Fate)) (j : ℕ)
    → Since t k c j
    → answered is_ok (read_qc c k fs) j ≡ true
    → any (is_since t) (read_qc c k fs) ≡ true
unfolding read_qc read
read_qc-is_since t k c [] j s h = ground arith
read_qc-is_since t k c ((i, replies) ∷ fs) j (s, at, since) h = elim (Bool-cases (i == j)) [
  | inl hit ↦
      let same : i ≡ j = (==_iff i j).0 hit in
      let at' : find k (c i) ≡ some s = ap (λ q. find k (c q)) same ∙ at in ground arith
  | inr miss ↦ ground (arith, read_qc-is_since t k c fs j (s, at, since))
]
read_qc-is_since t k c ((i, unsent e) ∷ fs) j s h = ground (arith, read_qc-is_since t k c fs j s)
read_qc-is_since t k c ((i, lost e) ∷ fs) j s h = ground (arith, read_qc-is_since t k c fs j s)

read_qc-is_honest :
    (k : String) (c : Cluster) (fs : List (ℕ × Fate))
    → All (λ r. is_honest r.value ≡ true) (read_qc c k fs)
unfolding read_qc read
read_qc-is_honest k c [] = tt
read_qc-is_honest k c ((i, replies) ∷ fs) =
    (ground (arith, Option-cases (find k (c i))), read_qc-is_honest k c fs)
read_qc-is_honest k c ((i, unsent e) ∷ fs) = (refl, read_qc-is_honest k c fs)
read_qc-is_honest k c ((i, lost e) ∷ fs) = (refl, read_qc-is_honest k c fs)

newest_from-is_honest :
    (newest : Option ReadResponse) (rs : ResponseSeq ReadResponse)
    → keeps_honest newest ≡ true
    → All (λ r. is_honest r.value ≡ true) rs
    → keeps_honest (newest_from newest rs) ≡ true
unfolding newest_from
newest_from-is_honest newest [] h all = h
newest_from-is_honest newest (r ∷ rs) h all = ground (
  arith,
  Option-cases newest,
  newest_from-is_honest newest rs h all.1,
  newest_from-is_honest (some r.value) rs all.0 all.1,
)

newest_from-is_since :
    (t : ℤ) (newest : Option ReadResponse) (rs : ResponseSeq ReadResponse)
    → (keeps_since t newest || any (is_since t) rs) ≡ true
    → keeps_since t (newest_from newest rs) ≡ true
unfolding newest_from
newest_from-is_since t newest [] h = ground arith
newest_from-is_since t none (r ∷ rs) h =
    ground (arith, newest_from-is_since t none rs, newest_from-is_since t (some r.value) rs)
newest_from-is_since t (some v) (r ∷ rs) h = ground (
  arith,
  newest_from-is_since t (some v) rs,
  newest_from-is_since t (some r.value) rs,
  after-asym r.value.time v.time,
  after_trans t v.time r.value.time,
  after_trans t r.value.time v.time,
)

-- The value that a quorum read returns after a quorum write.
abbrev pub IsSeen : WriteRequest → Responses ReadResponse → Type 0
IsSeen req r =
    (v : ReadResponse) × (newest_value r ≡ inl v)
    × (v.found ≡ true)
    × (after req.time v.time ≡ false)

newest_value-IsSeen :
    (req : WriteRequest) (r : Responses ReadResponse)
    → after req.time epoch ≡ true
    → keeps_since req.time (newest_from none r.seq) ≡ true
    → keeps_honest (newest_from none r.seq) ≡ true
    → IsSeen req r
unfolding newest_value
newest_value-IsSeen req r recent since honest = elim (Option-cases (newest_from none r.seq)) [
  | inl missing ↦ absurd (ground arith)
  | inr (v, is) ↦
      let not_before : after req.time v.time ≡ false = ground arith in
      (v, ground arith, ground (arith, after_trans req.time v.time epoch not_before), not_before)
]

-- After a quorum write that `numUpdated` takes for successful, and any other writes, a quorum read
-- to which a majority of the nodes replies returns a value that is not older than the one written,
-- if that was written after the epoch. Each call has at most one response from each node.
pub read_after_write :
    (ids : List ℕ) (c : Cluster) (req : WriteRequest) (fs gs : List (ℕ × Fate))
    (ws : List (ℕ × WriteRequest))
    → IsFrom ids (write_qc c req fs).1
    → IsFrom ids (read_qc (write_all (write_qc c req fs).0 ws) req.key gs)
    → num_updated (record { seq = (write_qc c req fs).1; size = length ids }) ≡ true
    → length ids < 2 * tally is_ok (read_qc (write_all (write_qc c req fs).0 ws) req.key gs)
    → after req.time epoch ≡ true
    → IsSeen req (record {
      seq = read_qc (write_all (write_qc c req fs).0 ws) req.key gs;
      size = length ids;
    })
unfolding num_updated
read_after_write ids c req fs gs ws f g won asked recent =
    let written = write_qc c req fs in
    let later = write_all written.0 ws in
    let seq = read_qc later req.key gs in
    let counted = tally-answered is_updated ids written.1 f in
    let heard = tally-answered is_ok ids seq g in
    let (i, _, did, said) =
      overlap (answered is_updated written.1) (answered is_ok seq) ids (ground arith) in
    let there =
      write_all-Since req.time req.key written.0 ws i (write_qc-answered c req fs i did) in
    let found = read_qc-is_since req.time req.key later gs i there said in
    newest_value-IsSeen req (record { seq = seq; size = length ids }) recent
      (newest_from-is_since req.time none seq found)
      (newest_from-is_honest none seq refl (read_qc-is_honest req.key later gs))
