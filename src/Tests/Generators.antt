-- ===== src/Tests/Generators.antt =====
-- cmd/protoc-gen-gorums/gengorums: the theorems at concrete inputs.
use gorums_ata.Base.{
  ℕ, ◌≡◌, refl, ◌≢◌, ◌↔◌, inl, Bool, true, false, ◌&&◌, not, none, some, List, [], ◌∷◌, map, arith,
  ◌==◌, if◌then◌else◌, length, any, All, Text, codes, same_text, NoRepeats,
}
use gorums_ata.Generator.{Extension, e_quorumcall, e_multicast, e_unicast, Method, multicast, Order}
use gorums_ata.Generator.Files.{File, gen_gorums_methods, refer_services, gorums_guard, package_of}
use gorums_ata.Generator.Fits.{Generates, concat, gen_gorums_methods_lem}
use gorums_ata.Generator.Undecided.{first, first-Visits, Differ, gen_method-two_options}
use gorums_ata.Generator.Guarded.{gorums_guard_lem}
use gorums_ata.Generator.References.{is_due, must_refer, package_name, refer_services_lem}
use gorums_ata.Generator.Identifiers.{type_name, Entry, find_identifiers}
use gorums_ata.Generator.Stable.{SameEntries, chosen, find_identifiers_lem}

abbrev method : List Extension → Bool → Method
method options streaming = record {
  service = codes "Store";
  name = codes "Read";
  output = length options;
  options = options;
  streaming_client = false;
  streaming_server = streaming;
}

-- A quorum call with a stream of responses, an RPC and a multicast.
abbrev services : List (List Method)
services =
    (method (e_quorumcall ∷ []) true ∷ method [] false ∷ method (e_multicast ∷ []) false ∷ []) ∷ []

abbrev order : Method → Order
order m = first multicast

gen_gorums_methods_lem_example :
    Generates (concat services) (gen_gorums_methods order none services)
gen_gorums_methods_lem_example =
    gen_gorums_methods_lem order (λ m. first-Visits multicast) services (omega arith)

abbrev both : Method
both = method (e_multicast ∷ e_unicast ∷ []) false

gen_method-two_options_example : Differ both
gen_method-two_options_example = gen_method-two_options both (omega arith) (refl, refl)

abbrev file : File
file = record { services = services; messages = codes "Value" ∷ [] }

gorums_guard_lem_example :
    ((gorums_guard order (codes "Async" ∷ []) file ≡ inl false) ↔ (concat file.services ≡ []))
    × ((gorums_guard order (codes "Async" ∷ []) file ≡ inl true) ↔ (
        (length file.services ≡ 1)
        × (concat file.services ≢ [])
        × (any (λ name. any (same_text name) (codes "Async" ∷ [])) file.messages ≡ false)))
gorums_guard_lem_example =
    gorums_guard_lem order (λ m. first-Visits multicast) (codes "Async" ∷ []) file

abbrev qualified : ℕ → Text
qualified n = if n == 1 then codes "emptypb.Empty" else codes "Value"

refer_services_lem_example :
    let i = refer_services qualified (record { seen = []; idents = [] }) services in
    All (λ ident. is_due qualified (concat services) ident ≡ true) i.idents
    × NoRepeats (map package_of i.idents)
    × All
        (λ m.
          (must_refer qualified m
            && not (any (same_text (package_name qualified m)) (map package_of i.idents)))
          ≡ false)
        (concat services)
refer_services_lem_example = refer_services_lem qualified services

abbrev entry : Text → Entry
entry name = record {
  file = codes "dev/config.go";
  object = true;
  name = name;
  exported = true;
  package_path = some (codes "dev");
  at_package_scope = true;
  kind = type_name;
}

abbrev defs : List Entry
defs = entry (codes "Node") ∷ entry (codes "Configuration") ∷ []

abbrev defs_turned : List Entry
defs_turned = entry (codes "Configuration") ∷ entry (codes "Node") ∷ []

turned : SameEntries (codes "dev") defs defs_turned
turned p = ground arith

find_identifiers_lem_example :
    let r = find_identifiers (codes "dev") defs [] in
    let r' = find_identifiers (codes "dev") defs_turned [] in
    ((path : Text) → chosen (codes "dev") path r.0 ≡ chosen (codes "dev") path r'.0) × (r.1 ≡ r'.1)
find_identifiers_lem_example =
    find_identifiers_lem (codes "dev") defs defs_turned [] [] turned (λ p. refl)
