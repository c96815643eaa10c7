-- ===== src/Generator/Names.antt =====
-- cmd/protoc-gen-gorums/gengorums/gorums_func_map.go: the names of types and packages in generated
-- code. `qualified` is `QualifiedGoIdent` of a method's output.
pub mod Aliases
use gorums_ata.Base.{
  ℕ, ◌+◌, ◌-◌, ◌/◌, Bool, not, none, some, List, [], ◌∷◌, ◌++◌, map, ◌==◌, if◌then◌else◌, to_nat,
  Text, codes, cut, last_index, after_last, find_text, put_text,
}
use gorums_ata.Stream.Types.{Run, ok, panics}
use gorums_ata.Generator.{
  Extension, e_quorumcall, e_multicast, e_unicast, Method, has_extension, has_method_option, Order,
  call_type, CallTypeInfo, leaf, nesting,
}
use gorums_ata.Generator.Fits.{concat}
use Prim.Native.String.{String}

-- `field`
unfoldable pub field : Text → Text
unfolding last_index after_last
field type_name = after_last b'.' type_name

-- `unexport`; `lower` is `strings.ToLower`, and `s[:1]` of an empty text panics.
unfoldable pub unexport : (Text → Text) → Text → Run Text
unexport lower [] = panics
unexport lower (c ∷ s) = ok (lower (c ∷ []) ++ s)

-- `fullName`; the service's full name is given.
unfoldable pub full_name : Text → Method → Text
full_name service m = codes "/" ++ (service ++ (codes "/" ++ m.name))

-- `docName`
unfoldable pub doc_name : Order → Method → String
unfolding call_type
doc_name o m = elim (call_type o m) [
  | none ↦ "unknown"
  | some (name, info) ↦ elim info [ leaf ext doc t chk ↦ doc | nesting ext chk sub ↦ "" ]
]

-- `isOneway`
unfoldable pub is_oneway : Method → Bool
unfolding has_method_option
is_oneway m = has_method_option m (e_multicast ∷ e_unicast ∷ [])

module _ (map_fn : Method → List (Text × Text) → List (Text × Text)) where
  -- The loops of `mapType`.
  unfoldable pub map_methods : List (Text × Text) → List Method → List (Text × Text)
  map_methods s [] = s
  map_methods s (m ∷ ms) = map_methods (map_fn m s) ms

  unfoldable pub map_services : List (Text × Text) → List (List Method) → List (Text × Text)
  unfolding map_methods
  map_services s [] = s
  map_services s (x ∷ ss) = map_services (map_methods s x) ss

  -- `mapType`
  unfoldable pub map_type : List (List Method) → List (Text × Text)
  unfolding map_services
  map_type services = map_services [] services

module _ (qualified : ℕ → Text) where
  -- `out`
  abbrev pub out : Method → Text
  out m = qualified m.output

  -- The functions that `mapAsyncOutType` and `mapCorrectableOutType` give to `mapType`.
  unfoldable pub alias_of : Text → Method → List (Text × Text) → List (Text × Text)
  unfolding has_method_option field
  alias_of prefix m s =
      if has_method_option m (e_quorumcall ∷ [])
      then put_text (prefix ++ field (out m)) (out m) s
      else s

  -- `mapAsyncOutType`
  unfoldable pub map_async_out_type : List (List Method) → List (Text × Text)
  unfolding map_type alias_of
  map_async_out_type services = map_type (alias_of (codes "Async")) services

  -- `mapCorrectableOutType`
  unfoldable pub map_correctable_out_type : List (List Method) → List (Text × Text)
  unfolding map_type alias_of
  map_correctable_out_type services = map_type (alias_of (codes "Correctable")) services

-- `addImport`: the map `importMap`, and the import path that it has then.
unfoldable pub add_import : List (Text × Text) → Text → List (Text × Text) × Text
unfolding last_index after_last
add_import import_map path =
    let pkg = after_last b'/' path in
    elim (find_text pkg import_map) [
      | some imp_path ↦ (import_map, imp_path)
      | none ↦ (put_text pkg path import_map, path)
    ]

abbrev dots : Text → ℕ
dots [] = 0
dots (c ∷ s) = to_nat (c == b'.') + dots s

-- What the template function `use` makes: an import path with an identifier, or one of the two
-- texts that tell of a wrong input.
pub data Used : Type 0 where
  identifier : Text → Text → Used
  expected_package_name import_not_found : Text → Used

-- `use`
unfoldable pub use_ident : List (Text × Text) → Text → Used
unfolding cut
use_ident import_map pkg_ident =
    if not (dots pkg_ident == 1)
    then expected_package_name pkg_ident
    else elim (cut b'.' pkg_ident) [
      | none ↦ import_not_found pkg_ident
      | some (path, ident) ↦ elim (find_text path import_map) [
        | none ↦ import_not_found path
        | some pkg ↦ identifier pkg ident
      ]
    ]
