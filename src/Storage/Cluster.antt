-- ===== src/Storage/Cluster.antt =====
-- examples/storage: quorum writes and quorum reads on the servers of a configuration.
pub mod Writes
pub mod Reads
use gorums_ata.Base.{
  ℕ, ◌-◌, ◌/◌, ◌≡◌, Bool, false, not, none, some, List, [], ◌∷◌, ◌==◌, if◌then◌else◌, any, ℤ,
}
use Prim.Native.String.{String}
use text.Mathlib.Text.{◌==◌ as str_eq}
use text.Mathlib.TextEquality.{eq_iff}
use text.Mathlib.TextPositions.{eq_refl}
use gorums_ata.Errors.{Err}
use gorums_ata.Calls.Responses.{NodeResponse, ResponseSeq, Responses}
use gorums_ata.Calls.Responses.Quorum.{overlap, answered, IsFrom, tally-answered}
use gorums_ata.Storage.{
  State, WriteRequest, ReadResponse, Storage, epoch, after, find, put_state, read, write, is_stale,
  newest_from, newest_value, is_updated, num_updated,
}

-- The servers' stores, by node ID.
abbrev pub Cluster : Type 0
Cluster = ℕ → Storage

-- A server handles a write.
abbrev pub write_at : Cluster → ℕ → WriteRequest → Cluster
write_at c i req j = if i == j then (write (c i) req).0 else c j

-- What becomes of the request to a node: the reply arrives, the request fails before it gets to the
-- node, or the reply is lost.
pub data Fate : Type 0 where
  replies : Fate
  unsent lost : Err → Fate

-- A quorum call of the handler `WriteQC`, which is `Write`: each node that the request reaches runs
-- it, in the order in which they respond.
unfoldable pub write_qc : Cluster → WriteRequest → List (ℕ × Fate) → Cluster × ResponseSeq Bool
write_qc c req [] = (c, [])
write_qc c req ((i, replies) ∷ fs) =
    let rest = write_qc (write_at c i req) req fs in
    (rest.0, record { node_id = i; value = (write (c i) req).1; err = none } ∷ rest.1)
write_qc c req ((i, unsent e) ∷ fs) =
    let rest = write_qc c req fs in
    (rest.0, record { node_id = i; value = false; err = some e } ∷ rest.1)
write_qc c req ((i, lost e) ∷ fs) =
    let rest = write_qc (write_at c i req) req fs in
    (rest.0, record { node_id = i; value = false; err = some e } ∷ rest.1)

-- A quorum call of the handler `ReadQC`, which is `Read`.
unfoldable pub read_qc : Cluster → String → List (ℕ × Fate) → ResponseSeq ReadResponse
read_qc c k [] = []
read_qc c k ((i, replies) ∷ fs) =
    record { node_id = i; value = read (c i) k; err = none } ∷ read_qc c k fs
read_qc c k ((i, unsent e) ∷ fs) =
    record { node_id = i; value = read [] k; err = some e } ∷ read_qc c k fs
read_qc c k ((i, lost e) ∷ fs) =
    record { node_id = i; value = read [] k; err = some e } ∷ read_qc c k fs

-- Any other writes, at any of the servers.
unfoldable pub write_all : Cluster → List (ℕ × WriteRequest) → Cluster
write_all c [] = c
write_all c ((i, req) ∷ ws) = write_all (write_at c i req) ws

-- A server has, for a key, a state that is not older than `t`.
abbrev pub IsSince : ℤ → String → Storage → Type 0
IsSince t k m = (s : State) × (find k m ≡ some s) × (after t s.time ≡ false)
