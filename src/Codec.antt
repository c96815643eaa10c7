-- ===== src/Codec.antt =====
-- marshaling.go: the payload of a message, by the types of its method in Protobuf's registries.
use gorums_ata.Base.{ℕ, ◌≡◌, ◌⊎◌, inl, inr, Option, none, some, List, [], ◌∷◌, arith}
use Prim.Native.String.{String}
use gorums_ata.Errors.{Err}
use gorums_ata.Stream.Types.{Message}

-- The errors of `unmarshalRequest` and `unmarshalResponse`.
pub data CodecError : Type 0 where
  no_descriptor no_message_type : String → CodecError
  not_valid : Err → CodecError

-- Protobuf: a method's types by its name, the new message of a type by the type's name, and
-- `proto.Unmarshal` into a message.
pub record Registry (P : Type 0) : Type 0 where
  pub input_of : String → Option String
  pub output_of : String → Option String
  pub make_message : String → Option P
  pub unmarshal : List ℕ → P → P ⊎ Err

module _ {P : Type 0} (r : Registry P) where
  -- What both functions do once they have the name of a type, or none.
  abbrev decoded : String → Option String → List ℕ → P ⊎ CodecError
  decoded method none payload = inr (no_descriptor method)
  decoded method (some type_name) payload = elim (r.make_message type_name) [
    | none ↦ inr (no_message_type type_name)
    | some m ↦ elim payload [
      | [] ↦ inl m
      | b ∷ bs ↦ elim (r.unmarshal (b ∷ bs) m) [ inl p ↦ inl p | inr e ↦ inr (not_valid e) ]
    ]
  ]

  -- `unmarshalRequest`
  unfoldable pub unmarshal_request : Message → P ⊎ CodecError
  unmarshal_request in_ = decoded in_.method (r.input_of in_.method) in_.payload

  -- `unmarshalResponse`
  unfoldable pub unmarshal_response : Message → P ⊎ CodecError
  unmarshal_response out = decoded out.method (r.output_of out.method) out.payload

  -- `marshal` is `proto.Marshal`; what it makes of a message of a type, `unmarshal` gives back into
  -- a new message of the type, and only the new message itself has no bytes.
  module _ (marshal : P → List ℕ) (type_name : String) (fresh : P)
      (new : r.make_message type_name ≡ some fresh)
      (back : (p : P) → r.unmarshal (marshal p) fresh ≡ inl p)
      (empty : (p : P) → marshal p ≡ [] → p ≡ fresh) where
    decoded-marshal :
        (method : String) (p : P) (payload : List ℕ)
        → payload ≡ marshal p
        → decoded method (some type_name) payload ≡ inl p
    decoded-marshal method p [] e = ground (arith, empty p)
    decoded-marshal method p (b ∷ bs) e =
        let same : r.unmarshal (b ∷ bs) fresh ≡ inl p = rw e (back p) in ground arith

    -- A server decodes a request that was marshaled into the payload, by the method's input type.
    pub unmarshal_request-marshal :
        (m : Message) (p : P)
        → r.input_of m.method ≡ some type_name
        → m.payload ≡ marshal p
        → unmarshal_request m ≡ inl p
    unfolding unmarshal_request
    unmarshal_request-marshal m p named e = rw named (decoded-marshal m.method p m.payload e)

    -- A client decodes a response that was marshaled into the payload, by the method's output type.
    pub unmarshal_response-marshal :
        (m : Message) (p : P)
        → r.output_of m.method ≡ some type_name
        → m.payload ≡ marshal p
        → unmarshal_response m ≡ inl p
    unfolding unmarshal_response
    unmarshal_response-marshal m p named e = rw named (decoded-marshal m.method p m.payload e)
