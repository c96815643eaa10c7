-- ===== src/Generator/Undecided.antt =====
-- gorums.go: a method with two of the options for call types.
use gorums_ata.Base.{
  ◌≤◌, ◌≡◌, refl, ◌≢◌, inl, inr, Bool, true, false, none, some, [], ◌∷◌, arith, if◌then◌else◌,
  Bool-cases, any,
}
use gorums_ata.Generator.{
  e_quorumcall, e_multicast, e_unicast, Method, has_extension, has_method_option, Template,
  rpc_call, quorum_call, quorum_call_stream, multicast_call, unicast_call, data_types,
  server_interface, CallType, types, server, rpc, quorumcall, multicast, unicast, plain, stream,
  nested_call_type, gorums_call_types_info, Order, call_type, call_type_from, derive_call_type,
  derive_from, check, Nested,
}
use gorums_ata.Generator.Chosen.{Visits, option_count, same_type, same_nested}
use gorums_ata.Generator.Files.{method_code, gen_method}
use gorums_ata.Generator.Fits.{CanStream, validate_options-CanStream}

-- The maps are read with this key first.
abbrev pub first : CallType → Order
first k = record {
  outer = k ∷ types ∷ server ∷ rpc ∷ quorumcall ∷ multicast ∷ unicast ∷ [];
  inner = plain ∷ stream ∷ [];
}

abbrev template_at : CallType → Method → Template
template_at types m = data_types
template_at server m = server_interface
template_at rpc m = rpc_call
template_at quorumcall m = if m.streaming_server then quorum_call_stream else quorum_call
template_at multicast m = multicast_call
template_at unicast m = unicast_call

abbrev has_option : CallType → Method → Bool
has_option types m = false
has_option server m = false
has_option rpc m = false
has_option quorumcall m = has_extension e_quorumcall m.options
has_option multicast m = has_extension e_multicast m.options
has_option unicast m = has_extension e_unicast m.options

first-every_type : (k j : CallType) → any (same_type j) (first k).outer ≡ true
first-every_type k types = ground arith
first-every_type k server = ground arith
first-every_type k rpc = ground arith
first-every_type k quorumcall = ground arith
first-every_type k multicast = ground arith
first-every_type k unicast = ground arith

first-every_nested : (k : CallType) (j : Nested) → any (same_nested j) (first k).inner ≡ true
first-every_nested k plain = refl
first-every_nested k stream = refl

pub first-Visits : (k : CallType) → Visits (first k)
first-Visits k = record { every_type = first-every_type k; every_nested = first-every_nested k }

gen_method-first :
    (k : CallType) (m : Method)
    → has_option k m ≡ true
    → CanStream m
    → gen_method (λ _. first k) none m ≡ inl (method_code (some (template_at k m)) m ∷ [])
unfolding gen_method call_type call_type_from derive_call_type derive_from check nested_call_type
    gorums_call_types_info has_method_option
gen_method-first types m has can = cc
gen_method-first server m has can = cc
gen_method-first rpc m has can = cc
gen_method-first quorumcall m has can = ground (arith, validate_options-CanStream m)
gen_method-first multicast m has can = ground (arith, validate_options-CanStream m)
gen_method-first unicast m has can = ground (arith, validate_options-CanStream m)

-- Two orders in which the maps may be read, and the templates that they give a method.
abbrev pub Differ : Method → Type 0
Differ m =
    (o : Order) × (o' : Order) × Visits o
    × Visits o'
    × (t : Template) × (t' : Template) × (t ≢ t')
    × (gen_method (λ _. o) none m ≡ inl (method_code (some t) m ∷ []))
    × (gen_method (λ _. o') none m ≡ inl (method_code (some t') m ∷ []))

apart :
    (k k' : CallType) (m : Method)
    → CanStream m
    → has_option k m ≡ true
    → has_option k' m ≡ true
    → template_at k m ≢ template_at k' m
    → Differ m
apart k k' m can has has' differ = (
  first k,
  first k',
  first-Visits k,
  first-Visits k',
  template_at k m,
  template_at k' m,
  differ,
  gen_method-first k m has can,
  gen_method-first k' m has' can,
)

-- A method with two or more of the options for call types, which streams as it may, passes the
-- checks, and its code depends on the order in which a map is read: two orders give it different
-- templates.
pub gen_method-two_options : (m : Method) → 2 ≤ option_count m → CanStream m → Differ m
gen_method-two_options m two can = elim (Bool-cases (has_extension e_unicast m.options)) [
  | inl u ↦ elim (Bool-cases (has_extension e_multicast m.options)) [
    | inl mc ↦ apart unicast multicast m can u mc (ground arith)
    | inr lacks ↦ apart unicast quorumcall m can u (ground arith) (ground arith)
  ]
  | inr lacks ↦ apart multicast quorumcall m can (ground arith) (ground arith) (ground arith)
]
