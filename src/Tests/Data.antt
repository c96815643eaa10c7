-- ===== src/Tests/Data.antt =====
-- Constants that the examples share.
use gorums_ata.Base.{ℕ, Bool, false, Option, none, some, List, [], ◌==◌, if◌then◌else◌, ℤ, pos}
use gorums_ata.Errors.{Err, atom, foreign}
use gorums_ata.Stream.Types.{Status, Message, Request, NodeResponse, Run, ok}
use gorums_ata.Stream.Deliver.{World}
use gorums_ata.Stream.Router.{Router}
use gorums_ata.Stream.Channel.{Net, new_outbound_channel}

-- Code 0 is `OK`, for which `status.ErrorProto` returns nil.
abbrev pub status_error : Status → Option Err
status_error s = if s.code == 0 then none else some (atom (foreign s.code))

abbrev pub later : ℤ → ℤ → ℤ
later old rtt = rtt

abbrev pub message : ℕ → Message
message id = record { seq_no = id; method = "read"; payload = []; status = none; entries = [] }

-- A request of a two-way call with message ID `id`, for channel `c`.
abbrev pub request : ℕ → ℕ → Request
request id c = record {
  ctx = 1;
  msg = message id;
  streaming = false;
  oneway = false;
  response_chan = some c;
  send_time = 3;
}

abbrev pub world : World
world = record { buffer = λ c. []; capacity = λ c. 4; ctx_err = λ i. none; clock = 10 }

abbrev pub router : List (ℕ × Request) → Bool → Router
router pending has_handler = record {
  pending = pending;
  latency = pos 5;
  has_handler = has_handler;
  local_locked = false;
}

-- A channel to node 2 with an idle router.
abbrev pub net : Net
net = record {
  world = world;
  router = router [] false;
  chan = new_outbound_channel 2;
  started = [];
}

-- The state that a run ends in, if it returns.
abbrev pub state_of {ℓ} : {A : Type ℓ} → A → Run A → A
state_of d (ok a) = a
state_of d Run.blocks = d
state_of d Run.panics = d

abbrev pub value_of {ℓ} : {A : Type ℓ} → A → Option A → A
value_of d none = d
value_of d (some a) = a

abbrev pub reply_from : ℕ → ℕ → NodeResponse ℕ
reply_from i v = record { node_id = i; value = v; err = none }

abbrev pub failure_from : ℕ → Err → NodeResponse ℕ
failure_from i e = record { node_id = i; value = 0; err = some e }
