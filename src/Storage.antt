-- ===== src/Storage.antt =====
-- examples/storage: a replicated store with a time for each value, and its client.
pub mod Cluster
pub mod Register
pub mod Start
pub mod Flags
pub mod Text
pub mod Indices
pub mod Quoting
pub mod Repl
pub mod Safe
pub mod Chosen
pub mod Returns
pub mod Replies
pub mod Peers
use gorums_ata.Base.{
  ◌-◌, ◌/◌, ◌⊎◌, inl, inr, Bool, true, false, ◌&&◌, Option, none, some, List, [], ◌∷◌, map, ltb,
  ◌==◌, if◌then◌else◌, is_some, is_none, tally, is_gt, ℤ, pos, compare_int,
}
use Prim.Native.String.{String}
use text.Mathlib.Text.{◌==◌ as str_eq}
use gorums_ata.Errors.{Err, atom, incomplete}
use gorums_ata.Calls.Responses.{NodeResponse, ResponseSeq, Responses}

-- `state`; a time is counted in nanoseconds from the epoch.
pub record State : Type 0 where
  pub value : String
  pub time : ℤ

-- `pb.WriteRequest`
pub record WriteRequest : Type 0 where
  pub key : String
  pub value : String
  pub time : ℤ

-- `pb.ReadResponse`, with what `GetTime().AsTime()` reads: an unset time is the epoch.
pub record ReadResponse : Type 0 where
  pub found : Bool  -- `OK`
  pub value : String
  pub time : ℤ

abbrev pub epoch : ℤ
epoch = pos 0

-- `Time.After`
abbrev pub after : ℤ → ℤ → Bool
after a b = is_gt (compare_int a b)

-- `storageServer.storage`, a map.
abbrev pub Storage : Type 0
Storage = List (String × State)

abbrev pub find : String → Storage → Option State
find k [] = none
find k ((j, s) ∷ m) = if str_eq j k then some s else find k m

abbrev pub put_state : String → State → Storage → Storage
put_state k s m = (k, s) ∷ m

-- `Read`
unfoldable pub read : Storage → String → ReadResponse
read m k = elim (find k m) [
  | none ↦ record { found = false; value = ""; time = epoch }
  | some s ↦ record { found = true; value = s.value; time = s.time }
]

-- Whether `Write` keeps the old state.
abbrev pub is_stale : Option State → ℤ → Bool
is_stale none t = false
is_stale (some s) t = after s.time t

-- `Write`, with `New` of its response.
unfoldable pub write : Storage → WriteRequest → Storage × Bool
write m req =
    if is_stale (find req.key m) req.time
    then (m, false)
    else (put_state req.key (record { value = req.value; time = req.time }) m, true)

-- The loop of `newestValue`, with its variable `newest`.
unfoldable pub newest_from : Option ReadResponse → ResponseSeq ReadResponse → Option ReadResponse
newest_from newest [] = newest
newest_from newest (r ∷ rs) =
    let kept = newest_from newest rs in
    let taken = newest_from (some r.value) rs in
    if is_some r.err
    then kept
    else elim newest [ none ↦ taken | some n ↦ if after r.value.time n.time then taken else kept ]

-- `newestValue`
unfoldable pub newest_value : Responses ReadResponse → ReadResponse ⊎ Err
unfolding newest_from
newest_value r = elim (newest_from none r.seq) [ none ↦ inr (atom incomplete) | some n ↦ inl n ]

-- A response that `numUpdated` counts.
abbrev pub is_updated : NodeResponse Bool → Bool
is_updated r = is_none r.err && r.value

-- `numUpdated`, with `New` of the response that it makes up.
unfoldable pub num_updated : Responses Bool → Bool
num_updated r = ltb (r.size / 2) (tally is_updated r.seq)
