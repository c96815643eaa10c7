-- ===== src/Stream/Router/Pending.antt =====
-- internal/stream/router.go: what becomes of the entries of `pending`.
use gorums_ata.Base.{
  ℕ, ◌+◌, ◌≤◌, ◌≡◌, refl, ◌⊎◌, inl, inr, Bool, true, false, ◌&&◌, not, Option, none, some, List, [],
  ◌∷◌, arith, ltb, ◌==◌, if◌then◌else◌, ==_iff, Bool-cases, Option-cases, to_nat, tally, lookup,
  erase, lookup-erase, ℤ,
}
use gorums_ata.Errors.{Err}
use gorums_ata.Stream.Types.{Request, Response, Status, Run, ok, >>=-returns, ◌>>=◌}
use gorums_ata.Stream.Deliver.{World, deliver}
use gorums_ata.Stream.Router.{
  Router, requests, register, split_pending, requeue_pending, deliver_pending, pending_count,
  settle,
}

split_pending_lem :
    (p : Request → Bool) (m : List (ℕ × Request))
    → (tally p (split_pending m).0 + tally p (split_pending m).1 ≡ tally p (requests m))
      × (tally (λ r. r.streaming) (split_pending m).0 ≡ 0)
      × (tally (λ r. not r.streaming) (split_pending m).1 ≡ 0)
unfolding split_pending
split_pending_lem p [] = (omega arith, omega arith, omega arith)
split_pending_lem p ((id, req) ∷ m) = ground (arith, split_pending_lem p m)

-- `RequeuePending` empties the router. Each pending request is in exactly one of its two results,
-- as often as it was pending; none of those to requeue is streaming, and all those to cancel are.
pub requeue_pending_lem :
    (r : Router) (p : Request → Bool)
    → (pending_count (requeue_pending r).0 ≡ 0)
      × (tally p (requeue_pending r).1 + tally p (requeue_pending r).2
          ≡ tally p (requests r.pending))
      × (tally (λ q. q.streaming) (requeue_pending r).1 ≡ 0)
      × (tally (λ q. not q.streaming) (requeue_pending r).2 ≡ 0)
unfolding requeue_pending pending_count
requeue_pending_lem r p = ground (arith, split_pending_lem p r.pending)

tally-erase-le :
    (p : Request → Bool) (id : ℕ) (m : List (ℕ × Request))
    → tally p (requests (erase id m)) ≤ tally p (requests m)
tally-erase-le p id [] = omega arith
tally-erase-le p id ((j, v) ∷ m) = ground (arith, tally-erase-le p id m)

-- Registering a request adds it; if its message ID is pending already, that entry is replaced.
pub tally-register :
    (p : Request → Bool) (now : ℕ) (r : Router) (id : ℕ) (req : Request)
    → tally p (requests (register now r id req).pending)
      ≤ to_nat (p (record req { send_time = now })) + tally p (requests r.pending)
unfolding register
tally-register p now r id req = omega (arith, tally-erase-le p id r.pending)

erase_absent : (id : ℕ) (m : List (ℕ × Request)) → lookup id m ≡ none → erase id m ≡ m
erase_absent id [] h = refl
erase_absent id ((j, v) ∷ m) h = ground (arith, erase_absent id m)

pub tally-register_fresh :
    (p : Request → Bool) (now : ℕ) (r : Router) (id : ℕ) (req : Request)
    → lookup id r.pending ≡ none
    → tally p (requests (register now r id req).pending)
      ≡ to_nat (p (record req { send_time = now })) + tally p (requests r.pending)
unfolding register
tally-register_fresh p now r id req h = rw (erase_absent id r.pending h)

-- The router holds at most one entry for each message ID.
abbrev pub IsMap : List (ℕ × Request) → Type 0
IsMap [] = Unit {0}
IsMap ((id, req) ∷ m) = (lookup id m ≡ none) × IsMap m

pub tally-erase :
    (p : Request → Bool) (id : ℕ) (req : Request) (m : List (ℕ × Request))
    → IsMap m
    → lookup id m ≡ some req
    → to_nat (p req) + tally p (requests (erase id m)) ≡ tally p (requests m)
tally-erase p id req [] h e = cc
tally-erase p id req ((j, v) ∷ m) h e = elim (Bool-cases (j == id)) [
  | inl hit ↦
      let same : j ≡ id = (==_iff j id).0 hit in
      let gone : lookup id m ≡ none = rw (← same) h.0 in ground (arith, erase_absent id m gone)
  | inr miss ↦ ground (arith, tally-erase p id req m h.1)
]

pub erase-IsMap : (id : ℕ) (m : List (ℕ × Request)) → IsMap m → IsMap (erase id m)
erase-IsMap id [] h = tt
erase-IsMap id ((j, v) ∷ m) h = ground (arith, erase-IsMap id m, lookup-erase id j m)

pub register-IsMap :
    (now : ℕ) (r : Router) (id : ℕ) (req : Request)
    → IsMap r.pending
    → IsMap (register now r id req).pending
unfolding register
register-IsMap now r id req h =
    ground (arith, lookup-erase id id r.pending, erase-IsMap id r.pending)

module _ (error_proto : Status → Option Err) (average : ℤ → ℤ → ℤ) where
  abbrev taken : Router → ℕ → Request → List (ℕ × Request)
  taken r id req = if req.streaming then r.pending else erase id r.pending

  pub deliver_pending_lem :
      (w w' : World) (r r' : Router) (id : ℕ) (resp : Response) (found : Bool)
      → deliver_pending error_proto average w r id resp ≡ ok (w', r', found)
      → ((lookup id r.pending ≡ none) × (found ≡ false) × (w' ≡ w) × (r' ≡ r))
        ⊎ ((req : Request) × (lookup id r.pending ≡ some req)
            × (found ≡ true)
            × (r'.pending ≡ (if req.streaming then r.pending else erase id r.pending))
            × (b : Bool) × (deliver w req resp ≡ ok (w', b)))
  unfolding deliver_pending
  deliver_pending_lem w w' r r' id resp found e = elim (Option-cases (lookup id r.pending)) [
    | inl absent ↦ ground arith
    | inr (req, present) ↦
        let (d, sent, out) =
          >>=-returns (deliver w req resp)
            (λ d. ok (d.0, settle error_proto average w.clock r id req resp, true))
            (rw (present, deliver_pending) at e) in
        inr (req, present, ground arith, ground arith, d.1, ground arith)
  ]

-- What is left of the entry of a call after `n` responses with its message ID, and how many of them it
-- gets.
abbrev pub left_after : ℕ → Option Request → Option Request
left_after n none = none
left_after n (some req) = if not req.streaming && ltb 0 n then none else some req

abbrev pub answers_of : ℕ → Option Request → ℕ
answers_of n none = 0
answers_of n (some req) = if req.streaming then n else if ltb 0 n then 1 else 0

-- The responses with one message ID.
abbrev pub responses_for : ℕ → List (ℕ × Response) → ℕ
responses_for k = tally (λ e. e.0 == k)

abbrev pub copies : ℕ → List ℕ → ℕ
copies k = tally (λ x. x == k)

module _ (error_proto : Status → Option Err) (average : ℤ → ℤ → ℤ) where
  -- Responses one after the other, with the message IDs of those that a call was found for.
  unfoldable pub deliver_all : World → Router → List (ℕ × Response) → Run (World × Router × List ℕ)
  deliver_all w r [] = ok (w, r, [])
  deliver_all w r ((id, resp) ∷ es) = deliver_pending error_proto average w r id resp >>= λ d.
      deliver_all d.0 d.1 es >>= λ q. ok (q.0, q.1, if d.2 then id ∷ q.2 else q.2)

pub tally-erase_found :
    (p : Request → Bool) (id : ℕ) (req : Request) (m : List (ℕ × Request))
    → lookup id m ≡ some req
    → to_nat (p req) + tally p (requests (erase id m)) ≤ tally p (requests m)
tally-erase_found p id req [] e = cc
tally-erase_found p id req ((j, v) ∷ m) e =
    ground (arith, tally-erase_found p id req m, tally-erase-le p id m)
