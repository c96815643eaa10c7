-- ===== src/Stream/Channel/Once.antt =====
-- internal/stream/channel.go: no order of steps answers a request twice or loses it.
use gorums_ata.Base.{
  ℕ, zero, suc, ◌+◌, ◌≤◌, ◌≡◌, refl, ap, inl, inr, Bool, true, false, Option, some, List, [], ◌∷◌,
  arith, Bool-cases, Option-cases, to_nat, tally, ℤ,
}
use gorums_ata.Stream.Channel.Receipts.{IsSingle, receive_message-Moves, receive_failed-Moves}
use gorums_ata.Errors.{Err}
use gorums_ata.Stream.Types.{Status, Request, ok, >>=-returns}
use gorums_ata.Stream.Deliver.{on, held}
use gorums_ata.Stream.Router.Pending.{IsMap}
use gorums_ata.Stream.Channel.{Net, enqueue, drain_send_q, is_local}
use gorums_ata.Stream.Channel.Sender.{Answers, expire}
use gorums_ata.Stream.Channel.Steps.{
  Event, enqueues, sends, receives, fails, retries, calls_back, exits, closes, parent_done, expires,
  pick, take_request, step, run,
}
use gorums_ata.Stream.Channel.Ledger.{
  ledger, outstanding, IsLive, Moves, Moves-weaken, Moves-same, enqueue-Moves, abandon-Moves,
  drain_send_q-Moves, close-Moves,
}
use gorums_ata.Stream.Channel.Rounds.{IsCalm, expire-Moves, sender_round-Moves}

pub tally-pick :
    (p : Request → Bool) (i : ℕ) (rs : List Request) (req : Request) (rest : List Request)
    → pick i rs ≡ some (req, rest)
    → to_nat (p req) + tally p rest ≡ tally p rs
unfolding pick
tally-pick p i [] req rest h = cc
tally-pick p zero (r ∷ rs) req rest h = ground arith
tally-pick p (suc i) (r ∷ rs) req rest h = elim (Option-cases (pick i rs)) [
  | inl missing ↦ ground arith
  | inr ((q, others), found) ↦ ground (arith, tally-pick p i rs q others found)
]

-- How many requests for `c` an event brings in.
abbrev pub brings : ℕ → Event → ℕ
brings c (enqueues req) = to_nat (on c req)
brings c _ = 0

-- The event is no response to a streaming request for `c`.
abbrev pub IsOnce : ℕ → Net → Event → Type 0
IsOnce c n (receives m) = IsSingle c n m.seq_no
IsOnce c n _ = Unit {0}

abbrev IsCalmRound : Net → List Request → Answers → Type 0
IsCalmRound n [] a = Unit {0}
IsCalmRound n (req ∷ rest) a = IsCalm n req a

-- No context ends, the router has one entry for each message ID, and the sender registers only a
-- message ID that is not pending.
abbrev pub IsQuiet : Net → Event → Type 0
IsQuiet n (sends a) = IsCalmRound n n.chan.send_q a
IsQuiet n (receives m) = IsMap n.router.pending
IsQuiet n (expires ctx e) = ⊥
IsQuiet n _ = Unit {0}

take_request-Moves :
    (c : ℕ) (n n' : Net) (q : List Request) (a : Answers)
    → n.chan.send_q ≡ q
    → take_request n q a ≡ ok n'
    → Moves c 0 (IsCalmRound n q a) n n'
unfolding take_request
take_request-Moves c n n' [] a e h =
    let same : n ≡ n' = ground arith in rw (← same) (Moves-same c n n refl refl refl)
take_request-Moves c n n' (req ∷ rest) a e h =
    let n₁ : Net = record n { chan = record n.chan { send_q = rest } } in
    let m = sender_round-Moves c n₁ n' req a h in
    let q : tally (on c) n.chan.send_q ≡ to_nat (on c req) + tally (on c) rest =
      ap (tally (on c)) e in
    record {
      kind = m.kind;
      at_most = omega (arith, m.at_most, q);
      exact = λ calm live. omega (arith, m.exact calm live, q);
      live = m.live;
    }

module _ (error_proto : Status → Option Err) (average : ℤ → ℤ → ℤ) where
  retry-Moves :
      (c : ℕ) (n n' : Net) (i : ℕ)
      → is_local n.chan ≡ false
      → step error_proto average n (retries i) ≡ ok n'
      → Moves c 0 (Unit {0}) n n'
  unfolding step
  retry-Moves c n n' i k h = elim (Option-cases (pick i n.chan.retries)) [
    | inl missing ↦
        let same : n ≡ n' = ground arith in rw (← same) (Moves-same c n n refl refl refl)
    | inr ((req, rest), found) ↦
        let n₁ : Net = record n { chan = record n.chan { retries = rest } } in
        let h' : enqueue n₁ req ≡ ok n' = ground arith in
        let m = enqueue-Moves c n₁ n' req k h' in
        let q = tally-pick (on c) i n.chan.retries req rest found in
        record {
          kind = m.kind;
          at_most = omega (arith, m.at_most, q);
          exact = λ p live. omega (arith, m.exact p live, q);
          live = m.live;
        }
  ]

  pub step-Moves :
      (c : ℕ) (n n' : Net) (ev : Event)
      → is_local n.chan ≡ false
      → IsOnce c n ev
      → step error_proto average n ev ≡ ok n'
      → Moves c (brings c ev) (IsQuiet n ev) n n'
  unfolding step
  step-Moves c n n' (enqueues req) k o h = enqueue-Moves c n n' req k h
  step-Moves c n n' (sends a) k o h = take_request-Moves c n n' n.chan.send_q a refl h
  step-Moves c n n' (receives m) k o h = receive_message-Moves error_proto average c n n' m o h
  step-Moves c n n' (fails s e) k o h = receive_failed-Moves error_proto average c n n' s e h
  step-Moves c n n' (retries i) k o h = retry-Moves c n n' i k h
  step-Moves c n n' (calls_back s) k o h = abandon-Moves c n n' s h
  step-Moves c n n' exits k o h = elim (Bool-cases n.chan.closed) [
    | inl shut ↦ let h' : drain_send_q n ≡ ok n' = ground arith in drain_send_q-Moves c n n' h'
    | inr up ↦ let same : n ≡ n' = ground arith in rw (← same) (Moves-same c n n refl refl refl)
  ]
  step-Moves c n n' closes k o h = close-Moves c n n' h
  step-Moves c n n' parent_done k o h =
      let same : record n { chan = record n.chan { closed = true } } ≡ n' = ground arith in
      rw (← same) (Moves-same c n _ refl refl refl)
  step-Moves c n n' (expires ctx e) k o h =
      let same : record n { world = expire n.world ctx (some e) } ≡ n' = ground arith in
      rw (← same) (Moves-weaken c 0 0 _ _ n _ refl (λ q. absurd q) (expire-Moves c n ctx (some e)))

  abbrev pub brought : ℕ → List Event → ℕ
  brought c [] = 0
  brought c (ev ∷ es) = brings c ev + brought c es

  -- Along a run, no response to a streaming request for `c` arrives.
  abbrev pub IsOnceAlong : ℕ → Net → List Event → Type 0
  IsOnceAlong c n [] = Unit {0}
  IsOnceAlong c n (ev ∷ es) =
      IsOnce c n ev × ((m : Net) → step error_proto average n ev ≡ ok m → IsOnceAlong c m es)

  ledger-run :
      (c : ℕ) (n n' : Net) (es : List Event)
      → is_local n.chan ≡ false
      → IsOnceAlong c n es
      → run error_proto average n es ≡ ok n'
      → ledger c n' ≤ ledger c n + brought c es
  unfolding run
  ledger-run c n n' [] k o h = let same : n ≡ n' = ground arith in rw (← same) (omega arith)
  ledger-run c n n' (ev ∷ es) k o h =
      let (m, first, rest) =
        >>=-returns (step error_proto average n ev) (λ m. run error_proto average m es) h in
      let one = step-Moves c n m ev k o.0 first in
      let k' : is_local m.chan ≡ false = rw one.kind k in
      omega (arith, one.at_most, ledger-run c m n' es k' (o.1 m first) rest)

  -- In any run of a channel to another node that begins with no request for `c` anywhere, `c` never
  -- gets more responses than requests for `c` were enqueued, whatever fails, reconnects, expires or
  -- is retried, unless a response to a streaming request for `c` arrives.
  pub answered_once :
      (c : ℕ) (n n' : Net) (es : List Event)
      → is_local n.chan ≡ false
      → outstanding c n ≡ 0
      → IsOnceAlong c n es
      → run error_proto average n es ≡ ok n'
      → held c n'.world ≤ held c n.world + brought c es
  answered_once c n n' es k z o h = omega (arith, ledger-run c n n' es k o h)

  -- A step of a channel to another node loses no request for `c`: the number of those without a
  -- response, together with the responses in `c`, grows by the requests that the step brings in,
  -- if no context is done or ends in the step, every message ID is registered once, and the step
  -- receives no response to a streaming request for `c`.
  pub step_loses_nothing :
      (c : ℕ) (n n' : Net) (ev : Event)
      → is_local n.chan ≡ false
      → IsOnce c n ev
      → IsQuiet n ev
      → IsLive n
      → step error_proto average n ev ≡ ok n'
      → outstanding c n' + held c n'.world ≡ outstanding c n + held c n.world + brings c ev
  step_loses_nothing c n n' ev k o q live h = (step-Moves c n n' ev k o h).exact q live
