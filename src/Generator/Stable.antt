-- ===== src/Generator/Stable.antt =====
-- gorums_bundle.go: what `findIdentifiers` returns does not depend on the order of its maps.
use gorums_ata.Base.{
  ◌≡◌, sym, ap, ◌∙◌, inl, inr, Bool, false, ◌&&◌, ◌||◌, not, Option, none, some, List, [], ◌∷◌,
  ◌++◌, arith, if◌then◌else◌, Bool-cases, Option-cases, any, sort_by, Text, same_text,
  same_text_iff, put_text, find_text-put_text, compare_text, NoRepeats, NoRepeats-snoc, any-snoc,
  sort_by-members,
}
use gorums_ata.Generator.Identifiers.{
  Entry, ignore, names_at, add_unique_identifier, is_own, defines, imports, add_definition,
  add_definitions, add_use, add_uses, first_of, package_entries, find_identifiers,
}

names_at-put_text :
    (k j : Text) (v : List Text) (m : List (Text × List Text))
    → names_at j (put_text k v m) ≡ (if same_text k j then v else names_at j m)
names_at-put_text k j v m = ground (arith, find_text-put_text k j v m)

-- A name is at a path afterwards if it was there, or if it is added there.
member-add_unique_identifier :
    (m : List (Text × List Text)) (p name path n : Text)
    → any (same_text n) (names_at path (add_unique_identifier m p name))
      ≡ (any (same_text n) (names_at path m) || (same_text p path && same_text n name))
unfolding add_unique_identifier
member-add_unique_identifier m p name path n = elim (Bool-cases (same_text p path)) [
  | inr other ↦ ground (arith, names_at-put_text p path (names_at p m ++ name ∷ []) m)
  | inl here ↦
      let e : p ≡ path = (same_text_iff p path).0 here in
      rw e (
        ground (
          arith,
          names_at-put_text path path (names_at path m ++ name ∷ []) m,
          same_text_iff path path,
          any-snoc (same_text n) (names_at path m) name,
          same_text_iff n name,
        ))
]

abbrev HasOnce : List (Text × List Text) → Type 0
HasOnce m = (path : Text) → NoRepeats (names_at path m)

add_unique_identifier-HasOnce :
    (m : List (Text × List Text)) (p name : Text)
    → HasOnce m
    → HasOnce (add_unique_identifier m p name)
unfolding add_unique_identifier
add_unique_identifier-HasOnce m p name h path =
    elim (Bool-cases (any (same_text name) (names_at p m))) [
      | inl old ↦ rw old (h path)
      | inr new ↦
          rw (new, names_at-put_text p path (names_at p m ++ name ∷ []) m)
            (elim (Bool-cases (same_text p path)) [
              | inl here ↦ rw here (NoRepeats-snoc (names_at p m) name (h p) new)
              | inr other ↦ rw other (h path)
            ])
    ]

module _ (own : Text) where
  abbrev defines_here : Text → Text → Entry → Bool
  defines_here path n e =
      e.object
      && not (ignore e.file)
      && e.exported
      && is_own own e.package_path
      && e.at_package_scope
      && defines e.kind
      && same_text own path
      && same_text n e.name

  abbrev uses_here : Text → Text → Entry → Bool
  uses_here path n e = elim e.package_path [
    | none ↦ false
    | some p ↦
        not (ignore e.file)
        && e.exported
        && not (same_text p own)
        && imports e.kind
        && same_text p path
        && same_text n e.name
  ]

  member-add_definition :
      (m : List (Text × List Text)) (e : Entry) (path n : Text)
      → any (same_text n) (names_at path (add_definition own m e))
        ≡ (any (same_text n) (names_at path m) || defines_here path n e)
  unfolding add_definition
  member-add_definition m e path n =
      ground (arith, member-add_unique_identifier m own e.name path n)

  member-add_use :
      (m : List (Text × List Text)) (e : Entry) (path n : Text)
      → any (same_text n) (names_at path (add_use own m e))
        ≡ (any (same_text n) (names_at path m) || uses_here path n e)
  unfolding add_use
  member-add_use m e path n = elim (Option-cases e.package_path) [
    | inl nowhere ↦ ground arith
    | inr (p, at) ↦ ground (arith, member-add_unique_identifier m p e.name path n)
  ]

  member-add_definitions :
      (m : List (Text × List Text)) (es : List Entry) (path n : Text)
      → any (same_text n) (names_at path (add_definitions own m es))
        ≡ (any (same_text n) (names_at path m) || any (defines_here path n) es)
  unfolding add_definitions
  member-add_definitions m [] path n = ground arith
  member-add_definitions m (e ∷ es) path n = ground (
    arith,
    member-add_definition m e path n,
    member-add_definitions (add_definition own m e) es path n,
  )

  member-add_uses :
      (m : List (Text × List Text)) (es : List Entry) (path n : Text)
      → any (same_text n) (names_at path (add_uses own m es))
        ≡ (any (same_text n) (names_at path m) || any (uses_here path n) es)
  unfolding add_uses
  member-add_uses m [] path n = ground arith
  member-add_uses m (e ∷ es) path n =
      ground (arith, member-add_use m e path n, member-add_uses (add_use own m e) es path n)

  add_definition-HasOnce :
      (m : List (Text × List Text)) (e : Entry) → HasOnce m → HasOnce (add_definition own m e)
  unfolding add_definition
  add_definition-HasOnce m e h path =
      ground (arith, h path, add_unique_identifier-HasOnce m own e.name h path)

  add_use-HasOnce :
      (m : List (Text × List Text)) (e : Entry) → HasOnce m → HasOnce (add_use own m e)
  unfolding add_use
  add_use-HasOnce m e h path = elim (Option-cases e.package_path) [
    | inl nowhere ↦ rw nowhere (h path)
    | inr (p, at) ↦ ground (arith, h path, add_unique_identifier-HasOnce m p e.name h path)
  ]

  add_definitions-HasOnce :
      (m : List (Text × List Text)) (es : List Entry)
      → HasOnce m
      → HasOnce (add_definitions own m es)
  unfolding add_definitions
  add_definitions-HasOnce m [] h = h
  add_definitions-HasOnce m (e ∷ es) h =
      add_definitions-HasOnce (add_definition own m e) es (add_definition-HasOnce m e h)

  add_uses-HasOnce :
      (m : List (Text × List Text)) (es : List Entry) → HasOnce m → HasOnce (add_uses own m es)
  unfolding add_uses
  add_uses-HasOnce m [] h = h
  add_uses-HasOnce m (e ∷ es) h = add_uses-HasOnce (add_use own m e) es (add_use-HasOnce m e h)

  -- The identifier that is chosen for a path.
  abbrev pub chosen : Text → List (Text × Option Text) → Option Text
  chosen path [] = none
  chosen path ((p, o) ∷ m) = if same_text p path then o else chosen path m

  chosen-package_entries :
      (path : Text) (m : List (Text × List Text))
      → chosen path (package_entries own m) ≡ (
          if same_text path own
          then none
          else first_of own (sort_by compare_text (names_at path m)))
  unfolding package_entries sort_by
  chosen-package_entries path [] = ground arith
  chosen-package_entries path ((p, names) ∷ m) =
      ground (arith, chosen-package_entries path m, same_text_iff p path, same_text_iff p own)

  -- Two ways of reading a map: the same entries in other orders.
  abbrev pub SameEntries : List Entry → List Entry → Type 0
  SameEntries es es' = (p : Entry → Bool) → any p es ≡ any p es'

  identifiers : List Entry → List Entry → List (Text × List Text)
  identifiers defs uses = add_uses own (add_definitions own [] defs) uses

  identifiers-HasOnce : (defs uses : List Entry) → HasOnce (identifiers defs uses)
  unfolding identifiers
  identifiers-HasOnce defs uses =
      add_uses-HasOnce (add_definitions own [] defs) uses
        (add_definitions-HasOnce [] defs (λ path. tt))

  module _ (defs defs' uses uses' : List Entry) (same_defs : SameEntries defs defs')
      (same_uses : SameEntries uses uses') where
    member-identifiers :
        (path n : Text)
        → any (same_text n) (names_at path (identifiers defs uses))
          ≡ any (same_text n) (names_at path (identifiers defs' uses'))
    unfolding identifiers
    member-identifiers path n = ground (
      arith,
      member-add_uses (add_definitions own [] defs) uses path n,
      member-add_uses (add_definitions own [] defs') uses' path n,
      member-add_definitions [] defs path n,
      member-add_definitions [] defs' path n,
      same_defs (defines_here path n),
      same_uses (uses_here path n),
    )

    sorted-identifiers :
        (path : Text)
        → sort_by compare_text (names_at path (identifiers defs uses))
          ≡ sort_by compare_text (names_at path (identifiers defs' uses'))
    sorted-identifiers path =
        sort_by-members _ _ (identifiers-HasOnce defs uses path)
          (identifiers-HasOnce defs' uses' path) (member-identifiers path)

    -- The identifier of every imported package, and the reserved identifiers in their order, are the
    -- same in whatever order the entries of `Defs` and of `Uses` are read.
    pub find_identifiers_lem :
        let r = find_identifiers own defs uses in
        let r' = find_identifiers own defs' uses' in
        ((path : Text) → chosen path r.0 ≡ chosen path r'.0) × (r.1 ≡ r'.1)
    unfolding find_identifiers identifiers
    find_identifiers_lem = (
      λ path.
          chosen-package_entries path _
          ∙ ap (λ names. if same_text path own then none else first_of own names)
              (sorted-identifiers path)
          ∙ sym (chosen-package_entries path _),
      sorted-identifiers own,
    )
