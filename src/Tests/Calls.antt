-- ===== src/Tests/Calls.antt =====
-- responses.go, correctable.go: the theorems on calls at concrete inputs.
use gorums_ata.Base.{
  ℕ, ◌≤◌, ◌≡◌, refl, ◌⊎◌, true, false, ◌&&◌, none, some, List, [], ◌∷◌, leb, if◌then◌else◌, length,
  tally, mem, pos, ◌||◌, any,
}
use gorums_ata.Calls.Responses.Failures.{matches, errors_is-threshold}
use gorums_ata.Errors.{
  nil, atom, foreign, skip_node, incomplete, quorum_call, errors_is, quorum_is, cons, push_error,
  same,
}
use gorums_ata.Calls.Responses.{ResponseSeq, Responses, threshold, majority, collect_n, collect_all}
use gorums_ata.Calls.Responses.Threshold.{counts, first_value, failures_from, threshold_lem}
use gorums_ata.Calls.Responses.Quorum.{replied, majority_intersect}
use gorums_ata.Calls.Responses.Collect.{collect_n_lem}
use gorums_ata.Calls.Correctable.{Call, Event, response, watches, exhausted, start, watch, run}
use gorums_ata.Calls.Correctable.Progress.{IsSound, run-start-IsSound}
use gorums_ata.Calls.Correctable.Watchers.{watch-closed, watch_completed-never_closed}
use gorums_ata.Tests.Data.{reply_from, failure_from, value_of}

-- Node 2 fails, node 1 skips, and nodes 3 and 4 reply.
abbrev seq : ResponseSeq ℕ
seq =
    failure_from 2 (atom (foreign 4))
    ∷ failure_from 1 (atom skip_node)
    ∷ reply_from 3 30
    ∷ reply_from 4 40
    ∷ []

abbrev five : Responses ℕ
five = record { seq = seq; size = 5 }

threshold_lem_example : threshold 0 five 3 ≡ (
  first_value 0 five.seq,
  if leb 1 (tally counts five.seq) && leb 3 (tally counts five.seq)
      then none
      else some (quorum_call (atom incomplete) (failures_from nil five.seq)),
)
threshold_lem_example = threshold_lem 0 five 3

abbrev here : Responses ℕ
here = record { seq = reply_from 1 10 ∷ reply_from 2 20 ∷ []; size = 3 }

abbrev there : Responses ℕ
there = record { seq = reply_from 3 30 ∷ reply_from 2 21 ∷ []; size = 3 }

majority_intersect_example :
    (i : ℕ) × (mem i (1 ∷ 2 ∷ 3 ∷ []) ≡ true)
    × (replied here.seq i ≡ true)
    × (replied there.seq i ≡ true)
unfolding majority
majority_intersect_example =
    majority_intersect (1 ∷ 2 ∷ 3 ∷ []) 0 0 here there refl refl (refl, refl, (refl, refl, tt))
      (refl, refl, (refl, refl, tt)) refl refl

collect_n_lem_example :
    ((length (collect_n seq 2) ≤ 2) ⊎ (◌≡◌ {A = ℕ} 2 0) × (length (collect_n seq 2) ≤ 1))
    × ((2 ≤ length (collect_n seq 2)) ⊎ (collect_n seq 2 ≡ collect_all seq))
collect_n_lem_example = collect_n_lem seq 2

-- A call that needs two replies: the first events, the rest, and the state in between and at the end.
abbrev opening : List (Event ℕ)
opening = response (reply_from 3 30) ∷ []

abbrev rest : List (Event ℕ)
rest = response (failure_from 2 (atom (foreign 4))) ∷ response (reply_from 4 40) ∷ []

run-start-IsSound_example :
    (k : Call ℕ) × (run 2 (start 0) (watches (pos 1) ∷ rest) ≡ some k) × IsSound 2 k
run-start-IsSound_example = run-start-IsSound 2 0 (watches (pos 1) ∷ rest)

abbrev opened : Call ℕ
unfolding run
opened = value_of (start 0) (run 2 (start 0) opening)

abbrev completed : Call ℕ
unfolding run
completed =
    value_of (start 0) (run 2 (record opened { state = (watch opened.state (pos 5)).0 }) rest)

watch-closed_example : mem (watch opened.state (pos 5)).1 completed.state.closed ≡ true
unfolding opened start
watch-closed_example = watch-closed 2 opened completed (pos 5) rest refl refl refl refl

abbrev finished : Call ℕ
unfolding run
finished = value_of (start 0) (run 2 opened rest)

abbrev watched : Call ℕ
unfolding run
watched =
    value_of (start 0)
      (run 2 (record finished { state = (watch finished.state (pos 5)).0 }) (exhausted ∷ []))

watch_completed-never_closed_example :
    mem (watch finished.state (pos 5)).1 watched.state.closed ≡ false
unfolding finished start
watch_completed-never_closed_example =
    watch_completed-never_closed 2 finished watched (pos 5) (exhausted ∷ []) refl refl refl refl

errors_is-threshold_example :
    errors_is (quorum_call (atom incomplete) (cons (atom (foreign 4)) 2 nil)) (atom (foreign 4)) ≡ (
      quorum_is (atom incomplete) (atom (foreign 4))
      || any (λ q. matches q.err (atom (foreign 4))) five.seq)
unfolding threshold errors_is same gorums_ata.Errors.Atom-discrete push_error
errors_is-threshold_example =
    errors_is-threshold 0 five 4 (quorum_call (atom incomplete) (cons (atom (foreign 4)) 2 nil))
      (atom (foreign 4)) refl
