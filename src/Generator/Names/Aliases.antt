-- ===== src/Generator/Names/Aliases.antt =====
-- gorums_func_map.go: the aliases of futures and correctables, and the imports of templates.
use gorums_ata.Base.{
  ℕ, ◌+◌, ◌≡◌, refl, ap, ◌∙◌, ◌&&◌, Option, none, some, List, [], ◌∷◌, ◌++◌, arith, if◌then◌else◌,
  Text, codes, same_text, same_text_iff, cut, after_last, find_text, find_text-put_text,
}
use gorums_ata.Generator.{e_quorumcall, Method, has_extension, has_method_option}
use gorums_ata.Generator.Fits.{concat}
use gorums_ata.Generator.Names.{
  field, map_methods, map_services, map_type, alias_of, map_async_out_type,
  map_correctable_out_type, add_import, dots, identifier, use_ident,
}

module _ (qualified : ℕ → Text) (prefix : Text) where
  -- The output of the last quorum call whose alias is `key`.
  abbrev pub last_out : Text → List Method → Option Text → Option Text
  last_out key [] old = old
  last_out key (m ∷ ms) old = last_out key ms (
      if has_extension e_quorumcall m.options
        && same_text (prefix ++ field (qualified m.output)) key
      then some (qualified m.output)
      else old)

  last_out-append :
      (key : Text) (xs ys : List Method) (old : Option Text)
      → last_out key ys (last_out key xs old) ≡ last_out key (xs ++ ys) old
  last_out-append key [] ys old = refl
  last_out-append key (x ∷ xs) ys old = last_out-append key xs ys _

  find-map_methods :
      (key : Text) (ms : List Method) (s : List (Text × Text))
      → find_text key (map_methods (alias_of qualified prefix) s ms)
        ≡ last_out key ms (find_text key s)
  unfolding map_methods alias_of has_method_option
  find-map_methods key [] s = refl
  find-map_methods key (m ∷ ms) s = rw (find-map_methods key ms (alias_of qualified prefix m s)) (
      ap (last_out key ms) (
        ground (
          arith,
          find_text-put_text (prefix ++ field (qualified m.output)) key (qualified m.output) s,
        )))

  find-map_services :
      (key : Text) (ss : List (List Method)) (s : List (Text × Text))
      → find_text key (map_services (alias_of qualified prefix) s ss)
        ≡ last_out key (concat ss) (find_text key s)
  unfolding map_services
  find-map_services key [] s = refl
  find-map_services key (x ∷ ss) s =
      find-map_services key ss (map_methods (alias_of qualified prefix) s x)
      ∙ ap (last_out key (concat ss)) (find-map_methods key x s)
      ∙ last_out-append key x (concat ss) (find_text key s)

-- The aliases for futures and for correctables are exactly those of the quorum calls' outputs, by the
-- prefix and the output's name without its package; of two outputs with one name the alias is for
-- the one that stands last.
pub map_out_type_lem :
    (qualified : ℕ → Text) (ss : List (List Method)) (key : Text)
    → (find_text key (map_async_out_type qualified ss)
        ≡ last_out qualified (codes "Async") key (concat ss) none)
      × (find_text key (map_correctable_out_type qualified ss)
          ≡ last_out qualified (codes "Correctable") key (concat ss) none)
unfolding map_async_out_type map_correctable_out_type map_type
map_out_type_lem qualified ss key = (
  find-map_services qualified (codes "Async") key ss [],
  find-map_services qualified (codes "Correctable") key ss [],
)

dots-append : (s t : Text) → dots (s ++ t) ≡ dots s + dots t
dots-append [] t = omega arith
dots-append (c ∷ s) t = omega (arith, dots-append s t)

cut-dot : (s t : Text) → dots s ≡ 0 → cut b'.' (s ++ b'.' ∷ t) ≡ some (s, t)
unfolding cut
cut-dot [] t h = refl
cut-dot (c ∷ s) t h = ground (arith, cut-dot s t)

-- Once a path is added, the template function `use` finds it by its last segment, unless a path with
-- this segment was there before: then it finds the older one, as `addImport` did.
pub use_ident-add_import :
    (import_map : List (Text × Text)) (path ident : Text)
    → dots (after_last b'/' path) ≡ 0
    → dots ident ≡ 0
    → let (import_map', imp_path) = add_import import_map path in
      use_ident import_map' (after_last b'/' path ++ b'.' ∷ ident) ≡ identifier imp_path ident
unfolding add_import use_ident
use_ident-add_import import_map path ident h k =
    let pkg = after_last b'/' path in
    ground (
      arith,
      dots-append pkg (b'.' ∷ ident),
      cut-dot pkg ident,
      find_text-put_text pkg pkg path import_map,
      same_text_iff pkg pkg,
    )
