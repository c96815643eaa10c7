-- ===== src/Generator/Identifiers.antt =====
-- cmd/protoc-gen-gorums/gengorums/gorums_bundle.go: `findIdentifiers`. The objects of a package,
-- as go/packages has loaded it, are given.
use gorums_ata.Base.{
  Bool, true, false, ◌&&◌, ◌||◌, not, Option, none, some, List, [], ◌∷◌, ◌++◌, ◌==◌, if◌then◌else◌,
  any, sort_by, Text, codes, same_text, last_index, after_last, find_text, put_text, compare_text,
}

-- What kind of `types.Object` it is: of a function, whether it has a receiver; of a variable,
-- whether it is a field.
pub data Kind : Type 0 where
  type_name constant other : Kind
  function variable : Bool → Kind

-- An entry of `Defs` or `Uses`. `object` is false if the identifier has none.
pub record Entry : Type 0 where
  pub file : Text
  pub object : Bool
  pub name : Text
  pub exported : Bool
  pub package_path : Option Text
  pub at_package_scope : Bool
  pub kind : Kind

abbrev starts_with : Text → Text → Bool
starts_with s [] = true
starts_with [] (d ∷ t) = false
starts_with (c ∷ s) (d ∷ t) = c == d && starts_with s t

abbrev ends_with : Text → Text → Bool
ends_with [] t = same_text [] t
ends_with (c ∷ s) t = let rest = ends_with s t in same_text (c ∷ s) t || rest

-- `ignore`, of a path that does not end in a slash.
unfoldable pub ignore : Text → Bool
unfolding last_index after_last
ignore file =
    if ends_with file (codes ".proto") || ends_with file (codes "_test.go")
    then true
    else starts_with (after_last b'/' file) (codes "zorums")

-- `m[path]`: a missing key has no names.
abbrev pub names_at : Text → List (Text × List Text) → List Text
names_at path m = elim (find_text path m) [ none ↦ [] | some names ↦ names ]

-- `addUniqueIdentifier`
unfoldable pub add_unique_identifier :
    List (Text × List Text) → Text → Text → List (Text × List Text)
add_unique_identifier m path name =
    let names = names_at path m in
    if any (same_text name) names then m else put_text path (names ++ name ∷ []) m

abbrev pub is_own : Text → Option Text → Bool
is_own own none = false
is_own own (some path) = same_text path own

-- Whether the kind counts, in the loop over `Defs` and in the loop over `Uses`.
abbrev pub defines : Kind → Bool
defines type_name = true
defines constant = true
defines other = false
defines (function method) = true
defines (variable is_field) = not is_field

abbrev pub imports : Kind → Bool
imports type_name = true
imports constant = true
imports other = false
imports (function method) = not method
imports (variable is_field) = not is_field

module _ (own : Text) where
  -- The loop of `findIdentifiers` over `Defs`.
  unfoldable pub add_definition : List (Text × List Text) → Entry → List (Text × List Text)
  unfolding add_unique_identifier
  add_definition m e =
      if not e.object
      then m
      else if ignore e.file || not e.exported
      then m
      else if not (is_own own e.package_path)
      then m
      else if not e.at_package_scope
      then m
      else if defines e.kind
      then add_unique_identifier m own e.name
      else m

  unfoldable pub add_definitions : List (Text × List Text) → List Entry → List (Text × List Text)
  unfolding add_definition
  add_definitions m [] = m
  add_definitions m (e ∷ es) = add_definitions (add_definition m e) es

  -- The loop over `Uses`.
  unfoldable pub add_use : List (Text × List Text) → Entry → List (Text × List Text)
  unfolding add_unique_identifier
  add_use m e = elim e.package_path [
    | none ↦ m
    | some path ↦
        if ignore e.file || not e.exported
        then m
        else if same_text path own
        then m
        else if imports e.kind
        then add_unique_identifier m path e.name
        else m
  ]

  unfoldable pub add_uses : List (Text × List Text) → List Entry → List (Text × List Text)
  unfolding add_use
  add_uses m [] = m
  add_uses m (e ∷ es) = add_uses (add_use m e) es

  abbrev pub first_of : List Text → Option Text
  first_of [] = none
  first_of (name ∷ names) = some name

  -- The last loop: `pkgIdent`, where `idents[0]` of no identifiers would be `none`.
  unfoldable pub package_entries : List (Text × List Text) → List (Text × Option Text)
  unfolding compare_text sort_by
  package_entries [] = []
  package_entries ((path, names) ∷ m) =
      let rest = package_entries m in
      if same_text path own then rest else (path, first_of (sort_by compare_text names)) ∷ rest

  -- `findIdentifiers`: the identifier of each imported package, and those that are reserved.
  unfoldable pub find_identifiers : List Entry → List Entry → List (Text × Option Text) × List Text
  unfolding add_definitions add_uses package_entries
  find_identifiers defs uses =
      let m = add_uses (add_definitions [] defs) uses in
      (package_entries m, sort_by compare_text (names_at own m))
