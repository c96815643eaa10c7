-- ===== src/Generator/Files.antt =====
-- gorums.go: the file that the generator writes, or its fatal error. A template with its data is
-- a piece of the file, and `qualified` is `QualifiedGoIdent`.
use gorums_ata.Base.{
  ℕ, ◌⊎◌, inl, inr, Bool, true, false, ◌||◌, not, Option, none, some, List, [], ◌∷◌, ◌++◌, map, ltb,
  ◌==◌, if◌then◌else◌, is_some, is_none, length, any, Text, same_text, last_index, before_last,
}
use gorums_ata.Generator.{
  Extension, e_multicast, e_unicast, Method, has_method_option, Template, CallType, types, server,
  CallTypeInfo, leaf, nesting, gorums_call_types_info, Order, call_type, validate_options,
}
use gorums_ata.Generator.Chosen.{same_type}

abbrev pub template_of : CallTypeInfo → Option Template
template_of (leaf ext doc t chk) = some t
template_of (nesting ext chk sub) = none

abbrev pub ext_info : CallTypeInfo → Option Extension
ext_info (leaf ext doc t chk) = ext
ext_info (nesting ext chk sub) = some ext

-- What ends the generator by `log.Fatal`.
pub data Fatal : Type 0 where
  several_services : Fatal
  reserved_type : Text → Fatal
  missing_option : Method → Extension → Fatal

pub data Piece : Type 0 where
  generated_header version_check static_code : Piece
  import_of : Text → Text → Piece
  type_code : Template → List (List Method) → Piece
  reference_note : Piece
  reference : Text → Piece
  method_code : Option Template → Method → Piece

-- `protogen.File`: the methods of its services, and the names of its messages.
pub record File : Type 0 where
  pub services : List (List Method)
  pub messages : List Text

-- `seen` and `idents` of `genReferenceImports`.
pub record Imports : Type 0 where
  pub seen : List Text
  pub idents : List Text

abbrev pub dot : ℕ
dot = b'.'

-- `pkg`
abbrev pub package_of : Text → Text
package_of ident = before_last dot ident

module _ (qualified : ℕ → Text) where
  -- The body of the loop of `genReferenceImports`.
  unfoldable pub refer : Imports → Method → Imports
  unfolding has_method_option last_index before_last
  refer i m =
      let ident = qualified m.output in
      let package_name = package_of ident in
      if not (has_method_option m (e_multicast ∷ e_unicast ∷ []))
      then i
      else if not (is_some (last_index dot ident))
      then i
      else if any (same_text package_name) i.seen
      then i
      else record { seen = package_name ∷ i.seen; idents = i.idents ++ ident ∷ [] }

  unfoldable pub refer_methods : Imports → List Method → Imports
  unfolding refer
  refer_methods i [] = i
  refer_methods i (m ∷ ms) = refer_methods (refer i m) ms

  unfoldable pub refer_services : Imports → List (List Method) → Imports
  unfolding refer_methods
  refer_services i [] = i
  refer_services i (s ∷ ss) = refer_services (refer_methods i s) ss

  -- `genReferenceImports`
  unfoldable pub gen_reference_imports : List (List Method) → List Piece
  unfolding refer_services
  gen_reference_imports services =
      let i = refer_services (record { seen = []; idents = [] }) services in
      elim i.idents [ [] ↦ [] | ident ∷ more ↦ reference_note ∷ map reference (ident ∷ more) ]

-- `genGorumsType`
unfoldable pub gen_gorums_type : CallType → List (List Method) → List Piece
unfolding gorums_call_types_info
gen_gorums_type k services = elim (gorums_call_types_info k) [
  | leaf ext doc t chk ↦ if is_none ext then type_code t services ∷ [] else []
  | nesting ext chk sub ↦ []
]

-- What is written first, and then the rest, unless there is a fatal error.
abbrev pub join : List Piece ⊎ Fatal → List Piece ⊎ Fatal → List Piece ⊎ Fatal
join (inr e) rest = inr e
join (inl code) (inr e) = inr e
join (inl code) (inl more) = inl (code ++ more)

module _ (reserved_idents : List Text) where
  -- The loop of `gorumsGuard` over the messages.
  unfoldable pub reserved_message : List Text → Option Text
  reserved_message [] = none
  reserved_message (name ∷ names) =
      let rest = reserved_message names in
      if any (same_text name) reserved_idents then some name else rest

-- `order` is that of the loops of `callType` at a method.
module _ (order : Method → Order) where
  -- `genMethod`; the target is `none` for the empty text.
  unfoldable pub gen_method : Option CallType → Method → List Piece ⊎ Fatal
  unfolding call_type validate_options
  gen_method target m = elim (call_type (order m) m) [
    | none ↦ inl []
    | some (name, info) ↦
        let code : List Piece ⊎ Fatal = elim (validate_options m) [
          | some e ↦ inr (missing_option m e)
          | none ↦ inl (method_code (template_of info) m ∷ [])
        ] in
        elim target [ none ↦ code | some t ↦ if same_type t name then code else inl [] ]
  ]

  -- The loops of `genGorumsMethods`, and what they have written before them.
  unfoldable pub gen_methods : Option CallType → List Method → List Piece ⊎ Fatal
  unfolding gen_method
  gen_methods target [] = inl []
  gen_methods target (m ∷ ms) = let rest = gen_methods target ms in join (gen_method target m) rest

  unfoldable pub gen_gorums_methods : Option CallType → List (List Method) → List Piece ⊎ Fatal
  unfolding gen_methods
  gen_gorums_methods target [] = inl []
  gen_gorums_methods target (s ∷ ss) =
      let rest = gen_gorums_methods target ss in join (gen_methods target s) rest

  -- The loops of `hasGorumsMethods`.
  unfoldable pub has_gorums_method : List Method → Bool
  unfolding call_type
  has_gorums_method [] = false
  has_gorums_method (m ∷ ms) =
      let rest = has_gorums_method ms in if is_some (call_type (order m) m) then true else rest

  unfoldable pub has_gorums_methods : List (List Method) → Bool
  unfolding has_gorums_method
  has_gorums_methods [] = false
  has_gorums_methods (s ∷ ss) =
      let rest = has_gorums_methods ss in if has_gorums_method s then true else rest

  module _ (reserved_idents : List Text) where
    -- `gorumsGuard`
    unfoldable pub gorums_guard : File → Bool ⊎ Fatal
    unfolding has_gorums_methods reserved_message
    gorums_guard file =
        if length file.services == 0 || not (has_gorums_methods file.services)
        then inl false
        else if ltb 1 (length file.services)
        then inr several_services
        else elim (reserved_message reserved_idents file.messages) [
          | some name ↦ inr (reserved_type name)
          | none ↦ inl true
        ]

    module _ (qualified : ℕ → Text) where
      -- `generateFileContent`
      unfoldable pub generate_file_content : List (List Method) → List Piece ⊎ Fatal
      unfolding gen_gorums_type gen_reference_imports gen_gorums_methods
      generate_file_content services = elim (gen_gorums_methods none services) [
        | inr e ↦ inr e
        | inl code ↦ inl (
            gen_gorums_type types services
            ++ (gen_reference_imports qualified services
                ++ (code ++ gen_gorums_type server services)))
      ]

      -- The imports that `GenerateFile` adds, of the map from paths to identifiers.
      abbrev pub imports : List (Text × Text) → List Piece
      imports [] = []
      imports ((path, ident) ∷ rest) = import_of path ident ∷ imports rest

      -- `GenerateFile`: no file, a file, or a fatal error.
      unfoldable pub generate_file : List (Text × Text) → File → Option (List Piece) ⊎ Fatal
      unfolding gorums_guard generate_file_content
      generate_file pkg_ident_map file = elim (gorums_guard file) [
        | inr e ↦ inr e
        | inl todo ↦
            let content : Option (List Piece) ⊎ Fatal = elim (generate_file_content file.services) [
              | inr e ↦ inr e
              | inl code ↦ inl (
                  some (
                    generated_header ∷ version_check ∷ static_code ∷ imports pkg_ident_map ++ code))
            ] in
            if todo then content else inl none
      ]
