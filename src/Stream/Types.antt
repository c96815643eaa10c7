-- ===== src/Stream/Types.antt =====
-- internal/stream: gorums_message.go, response.go, and `Request` of channel.go.
use gorums_ata.Base.{ℕ, ◌≡◌, refl, Bool, ◌&&◌, not, Option, none, some, List, is_some}
use Prim.Native.String.{String}
use gorums_ata.Errors.{Err}

-- `MetadataEntry`
pub record MetadataEntry : Type 0 where
  pub key : String
  pub value : String

-- `google.rpc.Status`, as far as the code looks at it.
pub record Status : Type 0 where
  pub code : ℕ
  pub text : String

-- `Message`; an unset `Status` is `none`.
pub record Message : Type 0 where
  pub seq_no : ℕ  -- uint64
  pub method : String
  pub payload : List ℕ
  pub status : Option Status
  pub entries : List MetadataEntry

-- `NodeResponse[T]`; where there is no error, `err` is `none`.
pub record NodeResponse (R : Type 0) : Type 0 where
  pub node_id : ℕ
  pub value : R
  pub err : Option Err

-- `response`; `Value` is `nil` in an error reply.
abbrev pub Response : Type 0
Response = NodeResponse (Option Message)

-- `Request`. A context and a response channel are numbers; `send_time` is a reading of the clock.
pub record Request : Type 0 where
  pub ctx : ℕ
  pub msg : Message
  pub streaming : Bool
  pub oneway : Bool
  pub response_chan : Option ℕ
  pub send_time : ℕ

-- `wantServerResponse`
unfoldable pub want_server_response : Request → Bool
want_server_response r = is_some r.response_chan && not r.oneway

-- `wantSendConfirmation`
unfoldable pub want_send_confirmation : Request → Bool
want_send_confirmation r = r.oneway && is_some r.response_chan

-- `Message.ErrorStatus`; `error_proto` is grpc's `status.ErrorProto`.
unfoldable pub error_status : (Status → Option Err) → Message → Option Err
error_status error_proto m = elim m.status [ none ↦ none | some s ↦ error_proto s ]

-- What a call may do: return, wait for ever in the state that it was called in, or panic.
pub data Run {ℓ} (A : Type ℓ) : Type ℓ where
  ok : A → Run A
  blocks : Run A
  panics : Run A

infixl 5 ◌>>=◌
abbrev pub ◌>>=◌ {ℓ κ} : {A : Type ℓ} {B : Type κ} → Run A → (A → Run B) → Run B
ok a >>= f = f a
blocks >>= f = blocks
panics >>= f = panics

-- What returned before the last call returned.
pub >>=-returns {ℓ κ} :
    {A : Type ℓ} {B : Type κ} {z : B} (first : Run A) (next : A → Run B)
    → (first >>= next) ≡ ok z
    → (y : A) × (first ≡ ok y) × (next y ≡ ok z)
>>=-returns panics next h = cc
>>=-returns blocks next h = cc
>>=-returns (ok y) next h = (y, refl, h)
