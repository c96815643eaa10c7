-- ===== src/Stream/Channel/Receipts.antt =====
-- internal/stream/channel.go: what a round of the receiver does to the requests for a channel.
use gorums_ata.Base.{
  ℕ, ◌≡◌, refl, inl, inr, Bool, false, ◌&&◌, Option, some, List, arith, lookup, ℤ,
}
use gorums_ata.Errors.{Err}
use gorums_ata.Stream.Types.{Message, Status, Request, Response, ok, >>=-returns}
use gorums_ata.Stream.Deliver.{World, on, deliver-Delivers}
use gorums_ata.Stream.Router.{Router, route_message, deliver_pending, response_of, Dispatch}
use gorums_ata.Stream.Router.Pending.{IsMap, deliver_pending_lem, tally-erase, tally-erase_found}
use gorums_ata.Stream.Router.Demux.{route_message_lem}
use gorums_ata.Stream.Channel.{Net, set_last_err, push_dispatch}
use gorums_ata.Stream.Channel.Sender.{receive_failed, receive_message}
use gorums_ata.Stream.Channel.Ledger.{Moves, Moves-weaken, Moves-same, abandon-Moves}

-- A response with this message ID does not meet a streaming request for `c`.
abbrev pub IsSingle : ℕ → Net → ℕ → Type 0
IsSingle c n id =
    (req : Request) → lookup id n.router.pending ≡ some req → (req.streaming && on c req) ≡ false

module _ (error_proto : Status → Option Err) (average : ℤ → ℤ → ℤ) where
  deliver_pending-Moves :
      (c : ℕ) (n : Net) (w : World) (r : Router) (id : ℕ) (resp : Response) (found : Bool)
      (ds : List Dispatch)
      → IsSingle c n id
      → deliver_pending error_proto average n.world n.router id resp ≡ ok (w, r, found)
      → Moves c 0 (IsMap n.router.pending) n (record n { world = w; router = r; started = ds })
  deliver_pending-Moves c n w r id resp found ds single e =
      elim (deliver_pending_lem error_proto average n.world w n.router r id resp found e) [
        | inl (absent, no_entry, same_w, same_r) ↦
            rw (same_w, same_r)
              (Moves-weaken c 0 0 (Unit {0}) _ n _ refl (λ _. tt) (Moves-same c n _ refl refl refl))
        | inr (req, present, hit, pending, b, sent) ↦
            let d = deliver-Delivers c n.world w req resp b sent in
            let quiet = single req present in
            record {
              kind = refl;
              at_most =
                  ground
                    (arith, d.at_most, tally-erase_found (on c) id req n.router.pending present);
              exact = λ m live.
                  ground
                    (arith, d.exact live, tally-erase (on c) id req n.router.pending m present);
              live = λ _ live. rw d.ctx_err live;
            }
      ]

  -- A message that the receiver routes moves the request that it answers, if that is not streaming,
  -- out of the router as its response is delivered.
  pub receive_message-Moves :
      (c : ℕ) (n n' : Net) (m : Message)
      → IsSingle c n m.seq_no
      → receive_message error_proto average n m ≡ ok n'
      → Moves c 0 (IsMap n.router.pending) n n'
  unfolding receive_message
  receive_message-Moves c n n' m single h =
      let (x, routed, out) =
        >>=-returns (route_message error_proto average n.world n.router n.chan.id m)
          (λ r. ok (record n { world = r.0; router = r.1; started = push_dispatch n.started r.2 }))
          h in
      let after : Net = record n {
        world = x.0;
        router = x.1;
        started = push_dispatch n.started x.2;
      } in
      let same : after ≡ n' = ground arith in
      let moved : Moves c 0 (IsMap n.router.pending) n after =
        elim (route_message_lem error_proto average n.world x.0 n.router x.1 n.chan.id m x.2
          routed) [
            | inl (server, same_w, same_r, handled) ↦
                Moves-weaken c 0 0 (Unit {0}) _ n after refl (λ _. tt)
                  (Moves-same c n after refl (rw (same_w, same_r) refl) same_w)
            | inr (client, quiet, found, delivered) ↦
                deliver_pending-Moves c n x.0 x.1 m.seq_no
                  (response_of error_proto average n.chan.id m) found _ single delivered
          ] in
      rw (← same) moved

  pub receive_failed-Moves :
      (c : ℕ) (n n' : Net) (s : ℕ) (e : Err)
      → receive_failed n s e ≡ ok n'
      → Moves c 0 (Unit {0}) n n'
  unfolding receive_failed
  receive_failed-Moves c n n' s e h =
      let n₁ : Net = record n { chan = set_last_err n.chan e } in
      let m = abandon-Moves c n₁ n' s h in
      record { kind = m.kind; at_most = m.at_most; exact = m.exact; live = m.live }
