-- ===== src/Generator.antt =====
-- cmd/protoc-gen-gorums/gengorums/gorums.go: what the generator makes of the methods of a file.
pub mod Chosen
pub mod Files
pub mod Fits
pub mod Undecided
pub mod Guarded
pub mod References
pub mod Identifiers
pub mod Stable
pub mod Names
use gorums_ata.Base.{
  ℕ, ◌-◌, ◌/◌, Bool, true, false, ◌&&◌, ◌||◌, not, Option, none, some, List, [], ◌∷◌, map, ◌==◌,
  if◌then◌else◌, Text,
}
use Prim.Native.String.{String}

-- The extensions of method options that Gorums defines.
pub data Extension : Type 0 where
  e_rpc e_quorumcall e_multicast e_unicast : Extension

abbrev pub number : Extension → ℕ
number e_rpc = 50001
number e_quorumcall = 50004
number e_multicast = 50003
number e_unicast = 50002

-- `protogen.Method`, with the extensions that its options have.
pub record Method : Type 0 where
  pub service : Text
  pub name : Text
  pub output : ℕ  -- the Go identifier
  pub options : List Extension
  pub streaming_client : Bool
  pub streaming_server : Bool

-- `proto.HasExtension`
abbrev pub has_extension : Extension → List Extension → Bool
has_extension e [] = false
has_extension e (x ∷ xs) = number x == number e || has_extension e xs

-- `hasMethodOption`
unfoldable pub has_method_option : Method → List Extension → Bool
has_method_option m [] = false
has_method_option m (e ∷ es) =
    let rest = has_method_option m es in if has_extension e m.options then true else rest

-- `gorumsCallTypes`
abbrev pub gorums_call_types : List Extension
gorums_call_types = e_quorumcall ∷ e_multicast ∷ e_unicast ∷ []

pub data Template : Type 0 where
  data_types server_interface rpc_call quorum_call quorum_call_stream : Template
  multicast_call unicast_call : Template

-- The keys of `gorumsCallTypesInfo`, and of its one nested map.
pub data CallType : Type 0 where
  types server rpc quorumcall multicast unicast : CallType

pub data Nested : Type 0 where
  plain stream : Nested

-- `callTypeInfo`: without a nested map, or without a template.
pub data CallTypeInfo : Type 0 where
  leaf : Option Extension → (doc_name : String) → Template → Option (Method → Bool) → CallTypeInfo
  nesting : Extension → (Method → Bool) → (Nested → CallTypeInfo) → CallTypeInfo

-- `check`
unfoldable pub check : CallTypeInfo → Method → Bool
check (leaf ext doc t none) m = false
check (leaf ext doc t (some chk)) m = chk m
check (nesting ext chk sub) m = chk m

-- The two entries of `nestedCallType`.
unfoldable pub nested_call_type : Nested → CallTypeInfo
nested_call_type plain =
    leaf (some e_quorumcall) "quorum" quorum_call
      (some (λ m. has_method_option m (e_quorumcall ∷ []) && not m.streaming_server))
nested_call_type stream =
    leaf (some e_quorumcall) "streaming quorum" quorum_call_stream
      (some (λ m. has_method_option m (e_quorumcall ∷ []) && m.streaming_server))

-- `gorumsCallTypesInfo`
unfoldable pub gorums_call_types_info : CallType → CallTypeInfo
gorums_call_types_info types = leaf none "" data_types none
gorums_call_types_info server = leaf none "" server_interface none
gorums_call_types_info rpc =
    leaf (some e_rpc) "rpc" rpc_call (some (λ m. not (has_method_option m gorums_call_types)))
gorums_call_types_info quorumcall =
    nesting e_quorumcall (λ m. has_method_option m (e_quorumcall ∷ [])) nested_call_type
gorums_call_types_info multicast =
    leaf (some e_multicast) "multicast" multicast_call
      (some (λ m. has_method_option m (e_multicast ∷ [])))
gorums_call_types_info unicast =
    leaf (some e_unicast) "unicast" unicast_call (some (λ m. has_method_option m (e_unicast ∷ [])))

-- The order in which Go ranges over the two maps, which may be another one at each method.
pub record Order : Type 0 where
  pub outer : List CallType
  pub inner : List Nested

-- The loop of `deriveCallType`.
unfoldable pub derive_from : (Nested → CallTypeInfo) → List Nested → Method → Option CallTypeInfo
unfolding check
derive_from sub [] m = none
derive_from sub (k ∷ ks) m =
    let rest = derive_from sub ks m in if check (sub k) m then some (sub k) else rest

-- `deriveCallType`
unfoldable pub derive_call_type : List Nested → CallTypeInfo → Method → CallTypeInfo
unfolding derive_from
derive_call_type inner (leaf ext doc t chk) m = leaf ext doc t chk
derive_call_type inner (nesting ext chk sub) m = elim (derive_from sub inner m) [
  | some c ↦ c
  | none ↦ nesting ext chk sub
]

-- The loop of `callType`.
unfoldable pub call_type_from :
    List CallType → List Nested → Method → Option (CallType × CallTypeInfo)
unfolding derive_call_type check gorums_call_types_info
call_type_from [] inner m = none
call_type_from (k ∷ ks) inner m =
    let rest = call_type_from ks inner m in
    let c = derive_call_type inner (gorums_call_types_info k) m in
    if check c m then some (k, c) else rest

-- `callType`
unfoldable pub call_type : Order → Method → Option (CallType × CallTypeInfo)
unfolding call_type_from
call_type o m = call_type_from o.outer o.inner m

-- `validateOptions`: the option that is required.
unfoldable pub validate_options : Method → Option Extension
validate_options m =
    if not (has_method_option m (e_multicast ∷ [])) && m.streaming_client
    then some e_multicast
    else if not (has_method_option m (e_quorumcall ∷ [])) && m.streaming_server
    then some e_quorumcall
    else none
