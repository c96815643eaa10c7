-- ===== src/Inbound/Untracked.antt =====
-- inbound_manager.go: `nilPeerNode`, the peer node of a client that takes no calls.
use gorums_ata.Base.{
  ◌≡◌, refl, sym, ap, ◌∙◌, Bool, true, false, Option, none, some, List, [], ◌∷◌, ◌++◌, arith,
  if◌then◌else◌, is_some,
}
use mathlib.Core.List.{append-nil, append_assoc}
use gorums_ata.Errors.{Err}
use gorums_ata.Stream.Types.{Message, Request}

-- `nilPeerNode`; `tried` are the messages that it gave to the stream's `Send`.
pub record NilPeer : Type 0 where
  pub has_handler : Bool
  pub failed : Bool
  pub tried : List Message

-- As `AcceptPeer` makes it.
unfoldable pub new_nil_peer : Bool → NilPeer
new_nil_peer has_handler = record { has_handler = has_handler; failed = false; tried = [] }

-- What `RouteInbound` starts: the handler, which gets the release function, or the release.
pub data Routed : Type 0 where
  handles : Message → Routed
  releases : Routed

-- `RouteInbound`
unfoldable pub route_inbound : NilPeer → Message → Routed
route_inbound p m = if p.has_handler then handles m else releases

-- `Enqueue`; `err` is the error of `Send`, if it is called.
unfoldable pub nil_enqueue : NilPeer → Request → Option Err → NilPeer
nil_enqueue p req err =
    if p.failed then p else record p { tried = p.tried ++ req.msg ∷ []; failed = is_some err }

-- Calls of `Enqueue` in order.
unfoldable pub nil_enqueue_all : NilPeer → List (Request × Option Err) → NilPeer
nil_enqueue_all p [] = p
nil_enqueue_all p ((req, err) ∷ rest) = nil_enqueue_all (nil_enqueue p req err) rest

-- The messages up to the first that fails, with it.
abbrev pub until_failure : List (Request × Option Err) → List Message
until_failure [] = []
until_failure ((req, none) ∷ rest) = req.msg ∷ until_failure rest
until_failure ((req, some e) ∷ rest) = req.msg ∷ []

nil_enqueue_failed :
    (p : NilPeer) (req : Request) (err : Option Err) → p.failed ≡ true → nil_enqueue p req err ≡ p
unfolding nil_enqueue
nil_enqueue_failed p req err h = ground arith

nil_enqueue_open :
    (p : NilPeer) (req : Request) (err : Option Err)
    → p.failed ≡ false
    → nil_enqueue p req err ≡ record p { tried = p.tried ++ req.msg ∷ []; failed = is_some err }
unfolding nil_enqueue
nil_enqueue_open p req err h = ground arith

nil_enqueue_all-failed :
    (p : NilPeer) (rest : List (Request × Option Err))
    → p.failed ≡ true
    → nil_enqueue_all p rest ≡ p
unfolding nil_enqueue_all
nil_enqueue_all-failed p [] h = refl
nil_enqueue_all-failed p ((req, err) ∷ rest) h =
    let same : nil_enqueue p req err ≡ p = nil_enqueue_failed p req err h in
    rw same (nil_enqueue_all-failed p rest h)

nil_enqueue_all-tried :
    (p : NilPeer) (rest : List (Request × Option Err))
    → p.failed ≡ false
    → (nil_enqueue_all p rest).tried ≡ p.tried ++ until_failure rest
unfolding nil_enqueue_all
nil_enqueue_all-tried p [] h = sym (append-nil p.tried)
nil_enqueue_all-tried p ((req, none) ∷ rest) h =
    let q : NilPeer = record p { tried = p.tried ++ req.msg ∷ []; failed = false } in
    let one : nil_enqueue p req none ≡ q = nil_enqueue_open p req none h in
    ap (λ x. (nil_enqueue_all x rest).tried) one
    ∙ (nil_enqueue_all-tried q rest refl ∙ append_assoc p.tried (req.msg ∷ []) (until_failure rest))
nil_enqueue_all-tried p ((req, some e) ∷ rest) h =
    let q : NilPeer = record p { tried = p.tried ++ req.msg ∷ []; failed = true } in
    let one : nil_enqueue p req (some e) ≡ q = nil_enqueue_open p req (some e) h in
    ap (λ x. (nil_enqueue_all x rest).tried) one
    ∙ (ap (λ x. x.tried) (nil_enqueue_all-failed q rest refl))

-- A new `nilPeerNode` gives to `Send` the messages up to the first failure, in order, and none
-- behind it.
pub nil_enqueue_all_lem :
    (has_handler : Bool) (rest : List (Request × Option Err))
    → (nil_enqueue_all (new_nil_peer has_handler) rest).tried ≡ until_failure rest
unfolding new_nil_peer
nil_enqueue_all_lem has_handler rest = nil_enqueue_all-tried (new_nil_peer has_handler) rest refl
