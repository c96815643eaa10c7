-- ===== src/Generator/Fits.antt =====
-- gorums.go: every method gets the template that fits its option and its streams.
use gorums_ata.Base.{
  ◌≤◌, ◌≡◌, refl, sym, ap, ◌⊎◌, inl, inr, false, ◌&&◌, not, none, some, List, [], ◌∷◌, ◌++◌, arith,
  if◌then◌else◌, Bool-cases, All, All-append,
}
use mathlib.Core.List.{append_assoc}
use gorums_ata.Generator.{
  Extension, e_quorumcall, e_multicast, e_unicast, Method, has_extension, has_method_option,
  Template, rpc_call, quorum_call, quorum_call_stream, multicast_call, unicast_call,
  nested_call_type, gorums_call_types_info, Order, validate_options,
}
use gorums_ata.Generator.Chosen.{Visits, option_count, wanted, entry_of, call_type_lem}
use gorums_ata.Generator.Files.{
  Fatal, missing_option, Piece, method_code, gen_method, gen_methods, gen_gorums_methods,
  template_of, join,
}

-- A method may stream requests only in a multicast, and responses only in a quorum call.
abbrev pub CanStream : Method → Type 0
CanStream m =
    ((m.streaming_client && not (has_extension e_multicast m.options)) ≡ false)
    × ((m.streaming_server && not (has_extension e_quorumcall m.options)) ≡ false)

-- The template for a method's option and its streams.
abbrev pub template_for : Method → Template
template_for m =
    if has_extension e_unicast m.options
    then unicast_call
    else if has_extension e_multicast m.options
    then multicast_call
    else if not (has_extension e_quorumcall m.options)
    then rpc_call
    else if m.streaming_server
    then quorum_call_stream
    else quorum_call

abbrev pub codes_for : List Method → List Piece
codes_for [] = []
codes_for (m ∷ ms) = method_code (some (template_for m)) m ∷ codes_for ms

abbrev pub concat : List (List Method) → List Method
concat [] = []
concat (s ∷ ss) = s ++ concat ss

-- The first method that may not stream as it does, and the option that it lacks.
abbrev pub FirstBad : List Method → Method → Extension → Type 0
FirstBad ms m e =
    (before : List Method) × (after : List Method) × (ms ≡ before ++ m ∷ after)
    × All CanStream before
    × (¬ CanStream m)
    × (has_extension e m.options ≡ false)

-- What the generator makes of methods.
abbrev pub Generates : List Method → List Piece ⊎ Fatal → Type 0
Generates ms r =
    All CanStream ms × (r ≡ inl (codes_for ms))
    ⊎ (m : Method) × (e : Extension) × (r ≡ inr (missing_option m e)) × FirstBad ms m e

codes_for-append : (xs ys : List Method) → codes_for (xs ++ ys) ≡ codes_for xs ++ codes_for ys
codes_for-append [] ys = refl
codes_for-append (x ∷ xs) ys =
    ap (◌∷◌ (method_code (some (template_for x)) x)) (codes_for-append xs ys)

pub validate_options-CanStream :
    (m : Method)
    → CanStream m × (validate_options m ≡ none)
      ⊎ (e : Extension) × (validate_options m ≡ some e)
        × (¬ CanStream m)
        × (has_extension e m.options ≡ false)
unfolding validate_options has_method_option
validate_options-CanStream m =
    elim (Bool-cases (m.streaming_client && not (has_extension e_multicast m.options))) [
      | inl bad ↦ inr (e_multicast, ground arith, λ c. ground arith, ground arith)
      | inr fine ↦
          elim (Bool-cases (m.streaming_server && not (has_extension e_quorumcall m.options))) [
            | inl bad ↦ inr (e_quorumcall, ground arith, λ c. ground arith, ground arith)
            | inr also ↦ inl ((fine, also), ground arith)
          ]
    ]

template_of-entry_of :
    (m : Method)
    → option_count m ≤ 1
    → template_of (entry_of (wanted m) m.streaming_server) ≡ some (template_for m)
unfolding nested_call_type gorums_call_types_info
template_of-entry_of m one = ground arith

join-Generates :
    (xs ys : List Method) (r r' : List Piece ⊎ Fatal)
    → Generates xs r
    → Generates ys r'
    → Generates (xs ++ ys) (join r r')
join-Generates xs ys r r' (inl (can, is)) (inl (can', is')) =
    inl (All-append CanStream xs ys can can', rw (is, is', codes_for-append xs ys) refl)
join-Generates xs ys r r' (inl (can, is))
      (inr (m, e, is', (before, after, split, good, bad, lacks))) =
    inr (
      m,
      e,
      rw (is, is') refl,
      (
        xs ++ before,
        after,
        rw split (sym (append_assoc xs before (m ∷ after))),
        All-append CanStream xs before can good,
        bad,
        lacks,
      ),
    )
join-Generates xs ys r r' (inr (m, e, is, (before, after, split, good, bad, lacks))) g' = inr (
  m,
  e,
  rw is refl,
  (before, after ++ ys, rw split (append_assoc before (m ∷ after) ys), good, bad, lacks),
)

module _ (order : Method → Order) (visits : (m : Method) → Visits (order m)) where
  gen_method-Generates :
      (m : Method) → option_count m ≤ 1 → Generates (m ∷ []) (gen_method order none m)
  unfolding gen_method
  gen_method-Generates m one =
      let chosen = call_type_lem (order m) m (visits m) one in
      let template = template_of-entry_of m one in
      elim (validate_options-CanStream m) [
        | inl (can, fine) ↦ inl ((can, tt), ground (arith, chosen, fine, template))
        | inr (e, bad, cannot, lacks) ↦
            inr (m, e, ground (arith, chosen, bad), ([], [], refl, tt, cannot, lacks))
      ]

  gen_methods-Generates :
      (ms : List Method)
      → All (λ m. option_count m ≤ 1) ms
      → Generates ms (gen_methods order none ms)
  unfolding gen_methods
  gen_methods-Generates [] one = inl (tt, refl)
  gen_methods-Generates (m ∷ ms) one =
      join-Generates (m ∷ []) ms _ _ (gen_method-Generates m one.0) (gen_methods-Generates ms one.1)

  -- If no method has more than one of the options for call types, then the generator writes code for
  -- every method, in order and by the template for the method's option and its streams, whatever the
  -- order in which it reads its maps; or else it fails at the first method that streams requests and
  -- is no multicast, or streams responses and is no quorum call, and names an option that it lacks.
  pub gen_gorums_methods_lem :
      (ss : List (List Method))
      → All (All (λ m. option_count m ≤ 1)) ss
      → Generates (concat ss) (gen_gorums_methods order none ss)
  unfolding gen_gorums_methods
  gen_gorums_methods_lem [] one = inl (tt, refl)
  gen_gorums_methods_lem (s ∷ ss) one =
      join-Generates s (concat ss) _ _ (gen_methods-Generates s one.0)
        (gen_gorums_methods_lem ss one.1)
