-- ===== src/Stream/Metadata.antt =====
-- internal/stream/gorums_message.go: the metadata of a call, from the client's context to the
-- handler's. A `metadata.MD` is a map; `lower` is `strings.ToLower`, which its `Append` calls.
use gorums_ata.Base.{
  ◌≡◌, refl, sym, ap, ◌∙◌, inl, inr, Bool, true, false, ◌&&◌, List, [], ◌∷◌, ◌++◌, arith,
  if◌then◌else◌, Bool-cases, any,
}
use Prim.Native.String.{String}
use text.Mathlib.Text.{◌==◌ as str_eq}
use text.Mathlib.TextEquality.{eq_iff}
use mathlib.Core.List.{append-nil, append_assoc}
use gorums_ata.Stream.Types.{MetadataEntry}

abbrev pub Metadata : Type 0
Metadata = List (String × List String)

-- `md[k]`
abbrev pub values : String → Metadata → List String
values k [] = []
values k ((j, vs) ∷ md) = if str_eq j k then vs else values k md

-- The entries for one key.
abbrev pub entries_for : String → List String → List MetadataEntry
entries_for k [] = []
entries_for k (v ∷ vs) = record { key = k; value = v } ∷ entries_for k vs

-- The loops of `NewMessage` over the outgoing metadata.
unfoldable pub entries_of : Metadata → List MetadataEntry
entries_of [] = []
entries_of ((k, vs) ∷ md) = entries_for k vs ++ entries_of md

-- A value more for a key.
abbrev pub append_value : String → String → Metadata → Metadata
append_value k v [] = (k, v ∷ []) ∷ []
append_value k v ((j, vs) ∷ md) =
    let rest = append_value k v md in if str_eq j k then (j, vs ++ v ∷ []) ∷ md else (j, vs) ∷ rest

-- A map: no key twice, here in the form that the headers have, in lower case.
abbrev pub IsMap : (String → String) → Metadata → Type 0
IsMap lower [] = Unit {0}
IsMap lower ((k, vs) ∷ md) = (lower k ≡ k) × (any (λ e. str_eq e.0 k) md ≡ false) × IsMap lower md

module _ (lower : String → String) where
  -- The loop of `AppendToIncomingContext`, on a copy of the incoming metadata.
  unfoldable pub append_to_incoming : Metadata → List MetadataEntry → Metadata
  append_to_incoming md [] = md
  append_to_incoming md (e ∷ es) = append_to_incoming (append_value (lower e.key) e.value md) es

  values-append_value :
      (k j v : String) (md : Metadata)
      → values k (append_value j v md) ≡ values k md ++ (if str_eq j k then v ∷ [] else [])
  values-append_value k j v [] = ground arith
  values-append_value k j v ((i, vs) ∷ md) = elim (Bool-cases (str_eq i j)) [
    | inl same ↦
        let equal = ap (λ x. str_eq x k) ((eq_iff i j).0 same) in
        ground (arith, append-nil (values k md))
    | inr other ↦ elim (Bool-cases (str_eq i k && str_eq j k)) [
      | inl both ↦
          let equal : str_eq i j ≡ str_eq i k = ap (str_eq i) ((eq_iff j k).0 (ground arith)) in
          absurd (ground arith)
      | inr apart ↦ ground (arith, values-append_value k j v md, append-nil vs)
    ]
  ]

  append_to_incoming-append :
      (md : Metadata) (xs ys : List MetadataEntry)
      → append_to_incoming md (xs ++ ys) ≡ append_to_incoming (append_to_incoming md xs) ys
  unfolding append_to_incoming
  append_to_incoming-append md [] ys = refl
  append_to_incoming-append md (e ∷ xs) ys =
      append_to_incoming-append (append_value (lower e.key) e.value md) xs ys

  append-if :
      (b : Bool) (v : String) (vs : List String)
      → (if b then v ∷ [] else []) ++ (if b then vs else []) ≡ (if b then v ∷ vs else [])
  append-if true v vs = refl
  append-if false v vs = refl

  values-entries_for :
      (k j : String) (vs : List String) (md : Metadata)
      → lower j ≡ j
      → values k (append_to_incoming md (entries_for j vs))
        ≡ values k md ++ (if str_eq j k then vs else [])
  unfolding append_to_incoming
  values-entries_for k j [] md h = elim (Bool-cases (str_eq j k)) [
    | inl same ↦ ground (arith, append-nil (values k md))
    | inr other ↦ ground (arith, append-nil (values k md))
  ]
  values-entries_for k j (v ∷ vs) md h =
      let next = append_value j v md in
      let one : append_value (lower j) v md ≡ next = ap (λ x. append_value x v md) h in
      ap (λ m. values k (append_to_incoming m (entries_for j vs))) one
      ∙ values-entries_for k j vs next h
      ∙ ap (λ xs. xs ++ (if str_eq j k then vs else [])) (values-append_value k j v md)
      ∙ append_assoc (values k md) (if str_eq j k then v ∷ [] else [])
          (if str_eq j k then vs else [])
      ∙ ap (λ xs. values k md ++ xs) (append-if (str_eq j k) v vs)

  values_missing :
      (k : String) (md : Metadata) → any (λ e. str_eq e.0 k) md ≡ false → values k md ≡ []
  values_missing k [] h = refl
  values_missing k ((j, vs) ∷ md) h = ground (arith, values_missing k md)

  values_first :
      (k j : String) (vs : List String) (md : Metadata)
      → any (λ e. str_eq e.0 j) md ≡ false
      → (if str_eq j k then vs else []) ++ values k md ≡ values k ((j, vs) ∷ md)
  values_first k j vs md once = elim (Bool-cases (str_eq j k)) [
    | inl same ↦
        let absent : any (λ e. str_eq e.0 k) md ≡ false =
          ap (λ x. any (λ e. str_eq e.0 x) md) (sym ((eq_iff j k).0 same)) ∙ once in
        ground (arith, values_missing k md absent, append-nil vs)
    | inr other ↦ ground arith
  ]

  append_to_incoming-values :
      (k : String) (md : Metadata) (xs ys : List MetadataEntry)
      → values k (append_to_incoming md (xs ++ ys))
        ≡ values k (append_to_incoming (append_to_incoming md xs) ys)
  append_to_incoming-values k md xs ys = ap (values k) (append_to_incoming-append md xs ys)

  -- What a client puts into the metadata of a call arrives at the handler: under each key there
  -- are the values of the stream's metadata and then, in order, those of the call.
  pub append_to_incoming-entries_of :
      (k : String) (md existing : Metadata)
      → IsMap lower md
      → values k (append_to_incoming existing (entries_of md)) ≡ values k existing ++ values k md
  unfolding entries_of append_to_incoming
  append_to_incoming-entries_of k [] existing h = sym (append-nil (values k existing))
  append_to_incoming-entries_of k ((j, vs) ∷ md) existing (low, once, h) =
      let first = append_to_incoming existing (entries_for j vs) in
      append_to_incoming-values k existing (entries_for j vs) (entries_of md)
      ∙ append_to_incoming-entries_of k md first h
      ∙ ap (λ xs. xs ++ values k md) (values-entries_for k j vs existing low)
      ∙ append_assoc (values k existing) (if str_eq j k then vs else []) (values k md)
      ∙ ap (λ xs. values k existing ++ xs) (values_first k j vs md once)
