-- ===== src/Stream/Server.antt =====
-- internal/stream/server.go: `NodeStream`, which serves one connection. Its loop, the handlers that
-- it starts and the goroutine that forwards their responses take steps in any order.
pub mod Order
use gorums_ata.Base.{
  ℕ, suc, ◌+◌, ◌-◌, ◌/◌, Bool, true, false, ◌&&◌, not, List, [], ◌∷◌, ◌++◌, leb, ◌==◌,
  if◌then◌else◌, length, any, mem,
}
use gorums_ata.Stream.Types.{Message, Run, ok, panics, ◌>>=◌}
use gorums_ata.Stream.MessageId.{is_server_sequence_number}

-- Where the loop stands: at `Recv`, at the `mut.Lock()` behind it, or returned.
pub data Phase : Type 0 where
  receiving locking returned : Phase

-- The variables of `NodeStream`. Handlers are numbered in the order of their messages; `unreleased`
-- lists those whose `once` has not fired. `finished` is the channel of responses, with room for
-- `buffer` and the handlers that wait to send, and `forwarded` is what `peerNode.Enqueue` was given.
-- `sent` lists the responses that handlers sent, dropped ones left out.
pub record NodeStream : Type 0 where
  pub phase : Phase
  pub locked : Bool
  pub next : ℕ
  pub unreleased : List ℕ
  pub has_handler : Bool
  pub ctx_done : Bool
  pub buffer : ℕ
  pub finished : List Message
  pub forwarded : List Message
  pub sent : List Message

-- The state in which the loop is entered, with the mutex locked.
unfoldable pub open_stream : Bool → ℕ → NodeStream
open_stream has_handler buffer = record {
  phase = receiving;
  locked = true;
  next = 0;
  unreleased = [];
  has_handler = has_handler;
  ctx_done = false;
  buffer = buffer;
  finished = [];
  forwarded = [];
  sent = [];
}

-- `mut.Unlock()`: Go ends the program where the mutex is not locked.
unfoldable pub unlock : NodeStream → Run NodeStream
unlock s = if s.locked then ok (record s { locked = false }) else panics

abbrev pub remove : ℕ → List ℕ → List ℕ
remove i [] = []
remove i (x ∷ xs) = let rest = remove i xs in if x == i then rest else x ∷ rest

-- `release`, the closure `once.Do(mut.Unlock)` of message `i`.
unfoldable pub release : NodeStream → ℕ → Run NodeStream
unfolding unlock
release s i =
    let opened = unlock (record s { unreleased = remove i s.unreleased }) in
    if mem i s.unreleased then opened else ok s

pub data Event : Type 0 where
  receives : Message → Event
  recv_fails locks forwards ends : Event
  releases : ℕ → Event
  sends : Message → Event

-- The body of the loop for a message: `RouteInbound` calls `release` itself, or starts the handler.
unfoldable pub route : NodeStream → Message → Run NodeStream
unfolding release
route s m =
    let i = s.next in
    let s' = record s { phase = locking; next = suc i; unreleased = i ∷ s.unreleased } in
    if not (is_server_sequence_number m.seq_no) && s.has_handler then ok s' else release s' i

on_receive : Phase → NodeStream → Message → Run NodeStream
unfolding route
on_receive receiving s m = route s m
on_receive locking s m = ok s
on_receive returned s m = ok s

-- `Recv` fails: the loop returns, and its deferred `mut.Unlock()` runs.
on_recv_error : Phase → NodeStream → Run NodeStream
unfolding unlock
on_recv_error receiving s = unlock (record s { phase = returned })
on_recv_error locking s = ok s
on_recv_error returned s = ok s

-- `mut.Lock()` at the end of the loop's body waits for the mutex.
on_lock : Phase → NodeStream → NodeStream
on_lock locking s = if s.locked then s else record s { phase = receiving; locked = true }
on_lock receiving s = s
on_lock returned s = s

-- The closure `send`: once the context is done, a response that finds no room may be dropped.
unfoldable pub send : NodeStream → Message → NodeStream
send s m =
    if s.ctx_done && leb s.buffer (length s.finished)
    then s
    else record s { finished = s.finished ++ m ∷ []; sent = s.sent ++ m ∷ [] }

-- The forwarding goroutine's round.
forward : List Message → NodeStream → NodeStream
forward [] s = s
forward (m ∷ rest) s = record s { finished = rest; forwarded = s.forwarded ++ m ∷ [] }

unfoldable pub step : NodeStream → Event → Run NodeStream
unfolding on_receive on_recv_error on_lock release send forward
step s (receives m) = on_receive s.phase s m
step s recv_fails = on_recv_error s.phase s
step s locks = ok (on_lock s.phase s)
step s (releases i) = release s i
step s (sends m) = ok (send s m)
step s forwards = ok (if s.ctx_done then s else forward s.finished s)
step s ends = ok (record s { ctx_done = true })

unfoldable pub run : NodeStream → List Event → Run NodeStream
unfolding step
run s [] = ok s
run s (e ∷ es) = step s e >>= λ s'. run s' es
