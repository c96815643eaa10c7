-- ===== src/Generator/Chosen.antt =====
-- gorums.go: the call type of a method does not depend on the order in which maps are read.
use gorums_ata.Base.{
  ℕ, zero, suc, ◌+◌, ◌≤◌, ◌≡◌, refl, sym, ap, ◌∙◌, inl, inr, Bool, true, false, ◌&&◌, none, some,
  List, [], ◌∷◌, arith, ◌==◌, if◌then◌else◌, ==_iff, Bool-cases, is_some, to_nat, any,
}
use gorums_ata.Generator.{
  e_quorumcall, e_multicast, e_unicast, Method, has_extension, has_method_option, CallType, types,
  server, rpc, quorumcall, multicast, unicast, Nested, plain, stream, CallTypeInfo, check,
  nested_call_type, gorums_call_types_info, Order, derive_from, derive_call_type, call_type_from,
  call_type,
}

abbrev pub rank : CallType → ℕ
rank types = 0
rank server = 1
rank rpc = 2
rank quorumcall = 3
rank multicast = 4
rank unicast = 5

abbrev pub same_type : CallType → CallType → Bool
same_type a b = rank a == rank b

abbrev pub same_nested : Nested → Nested → Bool
same_nested plain plain = true
same_nested plain stream = false
same_nested stream plain = false
same_nested stream stream = true

-- The loops meet every key.
pub record Visits (o : Order) : Type 0 where
  pub every_type : (k : CallType) → any (same_type k) o.outer ≡ true
  pub every_nested : (k : Nested) → any (same_nested k) o.inner ≡ true

-- The call type that an option stands for, and its entry.
abbrev pub wanted : Method → CallType
wanted m =
    if has_extension e_quorumcall m.options
    then quorumcall
    else if has_extension e_multicast m.options
    then multicast
    else if has_extension e_unicast m.options
    then unicast
    else rpc

abbrev nested_of : Bool → Nested
nested_of true = stream
nested_of false = plain

abbrev pub entry_of : CallType → Bool → CallTypeInfo
entry_of quorumcall streaming = nested_call_type (nested_of streaming)
entry_of k streaming = gorums_call_types_info k

-- How many of the options for call types a method has.
abbrev pub option_count : Method → ℕ
option_count m =
    to_nat (has_extension e_quorumcall m.options)
    + to_nat (has_extension e_multicast m.options)
    + to_nat (has_extension e_unicast m.options)

check-nested_call_type :
    (m : Method) (k : Nested)
    → check (nested_call_type k) m
      ≡ (has_extension e_quorumcall m.options && same_nested k (nested_of m.streaming_server))
unfolding check nested_call_type has_method_option
check-nested_call_type m plain = ground arith
check-nested_call_type m stream = ground arith

derive_from_lem :
    (ks : List Nested) (m : Method)
    → derive_from nested_call_type ks m ≡ (
        if has_extension e_quorumcall m.options
          && any (same_nested (nested_of m.streaming_server)) ks
        then some (nested_call_type (nested_of m.streaming_server))
        else none)
unfolding derive_from
derive_from_lem [] m = ground arith
derive_from_lem (plain ∷ ks) m =
    ground (arith, derive_from_lem ks m, check-nested_call_type m plain)
derive_from_lem (stream ∷ ks) m =
    ground (arith, derive_from_lem ks m, check-nested_call_type m stream)

abbrev of_rank : ℕ → CallType
of_rank zero = types
of_rank (suc zero) = server
of_rank (suc (suc zero)) = rpc
of_rank (suc (suc (suc zero))) = quorumcall
of_rank (suc (suc (suc (suc zero)))) = multicast
of_rank (suc (suc (suc (suc (suc n))))) = unicast

of_rank-rank : (k : CallType) → of_rank (rank k) ≡ k
of_rank-rank types = refl
of_rank-rank server = refl
of_rank-rank rpc = refl
of_rank-rank quorumcall = refl
of_rank-rank multicast = refl
of_rank-rank unicast = refl

same_type-eq : (j k : CallType) → same_type j k ≡ true → j ≡ k
same_type-eq j k same =
    sym (of_rank-rank j) ∙ ap of_rank ((==_iff (rank j) (rank k)).0 same) ∙ of_rank-rank k

module _ (o : Order) (m : Method) (visits : Visits o) where
  derive-check :
      (k : CallType)
      → option_count m ≤ 1
      → check (derive_call_type o.inner (gorums_call_types_info k) m) m ≡ same_type (wanted m) k
  unfolding derive_call_type check gorums_call_types_info has_method_option
  derive-check types one = ground arith
  derive-check server one = ground arith
  derive-check rpc one = ground arith
  derive-check quorumcall one = ground (
    arith,
    derive_from_lem o.inner m,
    visits.every_nested (nested_of m.streaming_server),
    check-nested_call_type m (nested_of m.streaming_server),
    check-nested_call_type m plain,
    check-nested_call_type m stream,
  )
  derive-check multicast one = ground arith
  derive-check unicast one = ground arith

  -- The entry for one of a method's options passes, also if there are others.
  pub derive-check-wanted :
      (k : CallType)
      → same_type (wanted m) k ≡ true
      → check (derive_call_type o.inner (gorums_call_types_info k) m) m ≡ true
  unfolding derive_call_type check gorums_call_types_info has_method_option
  derive-check-wanted types same = ground arith
  derive-check-wanted server same = ground arith
  derive-check-wanted rpc same = ground arith
  derive-check-wanted quorumcall same = ground (
    arith,
    derive_from_lem o.inner m,
    visits.every_nested (nested_of m.streaming_server),
    check-nested_call_type m plain,
    check-nested_call_type m stream,
  )
  derive-check-wanted multicast same = ground arith
  derive-check-wanted unicast same = ground arith

  call_type_from-some :
      (ks : List CallType)
      → any (same_type (wanted m)) ks ≡ true
      → is_some (call_type_from ks o.inner m) ≡ true
  unfolding call_type_from
  call_type_from-some [] h = cc
  call_type_from-some (k ∷ ks) h = ground (arith, derive-check-wanted k, call_type_from-some ks)

  -- Every method has a call type.
  pub call_type-some : is_some (call_type o m) ≡ true
  unfolding call_type
  call_type-some = call_type_from-some o.outer (visits.every_type (wanted m))

  derive-entry_of :
      (k : CallType)
      → same_type (wanted m) k ≡ true
      → derive_call_type o.inner (gorums_call_types_info k) m
        ≡ entry_of (wanted m) m.streaming_server
  unfolding derive_call_type gorums_call_types_info
  derive-entry_of types same = ground arith
  derive-entry_of server same = ground arith
  derive-entry_of rpc same = ground arith
  derive-entry_of quorumcall same =
      ground (arith, derive_from_lem o.inner m, visits.every_nested (nested_of m.streaming_server))
  derive-entry_of multicast same = ground arith
  derive-entry_of unicast same = ground arith

  call_type_from_lem :
      (ks : List CallType)
      → option_count m ≤ 1
      → call_type_from ks o.inner m ≡ (
          if any (same_type (wanted m)) ks
          then some (wanted m, entry_of (wanted m) m.streaming_server)
          else none)
  unfolding call_type_from
  call_type_from_lem [] one = refl
  call_type_from_lem (k ∷ ks) one = elim (Bool-cases (same_type (wanted m) k)) [
    | inl same ↦
        let first : k ≡ wanted m = sym (same_type-eq (wanted m) k same) in
        rw (derive-check k one, same, derive-entry_of k same)
          (ap (λ j. some (j, entry_of (wanted m) m.streaming_server)) first)
    | inr other ↦ rw (derive-check k one, other) (call_type_from_lem ks one)
  ]

  -- The entry of a method with at most one of the options: the option's, and for a quorum call the
  -- nested one for its stream of responses; without an option, that of an RPC.
  pub call_type_lem :
      option_count m ≤ 1 → call_type o m ≡ some (wanted m, entry_of (wanted m) m.streaming_server)
  unfolding call_type
  call_type_lem one = rw (call_type_from_lem o.outer one, visits.every_type (wanted m)) refl
