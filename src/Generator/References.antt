-- ===== src/Generator/References.antt =====
-- gorums.go: the reference imports.
use gorums_ata.Base.{
  ℕ, ◌≡◌, refl, ap, inl, inr, Bool, true, false, ◌&&◌, ◌||◌, not, List, [], ◌∷◌, ◌++◌, map, arith,
  Bool-cases, is_some, any, All, Text, same_text, same_text_iff, last_index, All-append, NoRepeats,
  any-snoc, NoRepeats-snoc,
}
use mathlib.Core.Path.{subst}
use mathlib.Core.List.{append-nil, append_assoc}
use gorums_ata.Generator.{e_multicast, e_unicast, Method, has_extension, has_method_option}
use gorums_ata.Generator.Fits.{concat}
use gorums_ata.Generator.Files.{Imports, dot, package_of, refer, refer_methods, refer_services}

module _ (qualified : ℕ → Text) where
  -- An import that must be referred to: that of a oneway call, if it is qualified.
  abbrev pub must_refer : Method → Bool
  must_refer m =
      (has_extension e_multicast m.options || has_extension e_unicast m.options)
      && is_some (last_index dot (qualified m.output))

  abbrev pub package_name : Method → Text
  package_name m = package_of (qualified m.output)

  -- A reference that stands for one of the methods.
  abbrev pub is_due : List Method → Text → Bool
  is_due ms ident = any (λ m. must_refer m && same_text (qualified m.output) ident) ms

  abbrev packages : List Text → List Text
  packages idents = map package_of idents

  -- What the loops have reached after methods.
  record Reached (ms : List Method) (i : Imports) : Type 0 where
    seen_packages : (s : Text) → any (same_text s) i.seen ≡ any (same_text s) (packages i.idents)
    once : NoRepeats (packages i.idents)
    all_due : All (λ ident. is_due ms ident ≡ true) i.idents
    complete :
        All
          (λ m.
            (must_refer m && not (any (same_text (package_name m)) (packages i.idents))) ≡ false)
          ms

  packages-snoc :
      (idents : List Text) (ident : Text)
      → packages (idents ++ ident ∷ []) ≡ packages idents ++ package_of ident ∷ []
  packages-snoc [] ident = refl
  packages-snoc (x ∷ idents) ident = ap (◌∷◌ (package_of x)) (packages-snoc idents ident)

  same_text_self : (s : Text) → same_text s s ≡ true
  same_text_self s = (same_text_iff s s).1 refl

  is_due-append :
      (ms : List Method) (m : Method) (ident : Text)
      → is_due ms ident ≡ true
      → is_due (ms ++ m ∷ []) ident ≡ true
  is_due-append [] m ident h = cc
  is_due-append (x ∷ ms) m ident h = ground (arith, is_due-append ms m ident)

  All-is_due :
      (ms : List Method) (m : Method) (idents : List Text)
      → All (λ ident. is_due ms ident ≡ true) idents
      → All (λ ident. is_due (ms ++ m ∷ []) ident ≡ true) idents
  All-is_due ms m [] h = tt
  All-is_due ms m (x ∷ idents) h = (is_due-append ms m x h.0, All-is_due ms m idents h.1)

  is_due-last :
      (ms : List Method) (m : Method)
      → must_refer m ≡ true
      → is_due (ms ++ m ∷ []) (qualified m.output) ≡ true
  is_due-last [] m h = ground (arith, same_text_self (qualified m.output))
  is_due-last (x ∷ ms) m h = ground (arith, is_due-last ms m)

  All-complete :
      (ms : List Method) (idents : List Text) (ident : Text)
      → All
          (λ m. (must_refer m && not (any (same_text (package_name m)) (packages idents))) ≡ false)
          ms
      → All
          (λ m.
            (must_refer m
              && not (any (same_text (package_name m)) (packages (idents ++ ident ∷ []))))
            ≡ false)
          ms
  All-complete [] idents ident h = tt
  All-complete (m ∷ ms) idents ident h = (
    rw (packages-snoc idents ident) (
        ground
          (arith, h.0, any-snoc (same_text (package_name m)) (packages idents) (package_of ident))),
    All-complete ms idents ident h.1,
  )

  refer_idle :
      (i : Imports) (m : Method)
      → (must_refer m && not (any (same_text (package_name m)) i.seen)) ≡ false
      → refer qualified i m ≡ i
  unfolding refer has_method_option
  refer_idle i m h = ground arith

  refer_new :
      (i : Imports) (m : Method)
      → (must_refer m && not (any (same_text (package_name m)) i.seen)) ≡ true
      → refer qualified i m
        ≡ record { seen = package_name m ∷ i.seen; idents = i.idents ++ qualified m.output ∷ [] }
  unfolding refer has_method_option
  refer_new i m h = ground arith

  refer-Reached :
      (ms : List Method) (i : Imports) (m : Method)
      → Reached ms i
      → Reached (ms ++ m ∷ []) (refer qualified i m)
  refer-Reached ms i m r =
      let seen = r.seen_packages (package_name m) in
      elim (Bool-cases (must_refer m && not (any (same_text (package_name m)) i.seen))) [
        | inr idle ↦ rw (refer_idle i m idle) (record {
          seen_packages = r.seen_packages;
          once = r.once;
          all_due = All-is_due ms m i.idents r.all_due;
          complete = All-append _ ms (m ∷ []) r.complete (ground arith, tt);
        })
        | inl new ↦ rw (refer_new i m new) (record {
          seen_packages = λ s. rw (packages-snoc i.idents (qualified m.output)) (
              ground (
                arith,
                r.seen_packages s,
                any-snoc (same_text s) (packages i.idents) (package_name m),
              ));
          once =
              rw (packages-snoc i.idents (qualified m.output))
                (NoRepeats-snoc (packages i.idents) (package_name m) r.once (ground arith));
          all_due =
              All-append _ i.idents (qualified m.output ∷ []) (All-is_due ms m i.idents r.all_due)
                (is_due-last ms m (ground arith), tt);
          complete =
              All-append _ ms (m ∷ []) (All-complete ms i.idents (qualified m.output) r.complete) (
                rw (packages-snoc i.idents (qualified m.output)) (
                    ground (
                      arith,
                      any-snoc (same_text (package_name m)) (packages i.idents) (package_name m),
                      same_text_self (package_name m),
                    )),
                tt,
              );
        })
      ]

  refer_methods-Reached :
      (before ms : List Method) (i : Imports)
      → Reached before i
      → Reached (before ++ ms) (refer_methods qualified i ms)
  unfolding refer_methods
  refer_methods-Reached before [] i r = rw (append-nil before) r
  refer_methods-Reached before (m ∷ ms) i r =
      subst (λ l. Reached l (refer_methods qualified (refer qualified i m) ms))
        (append_assoc before (m ∷ []) ms)
        (refer_methods-Reached (before ++ m ∷ []) ms (refer qualified i m)
          (refer-Reached before i m r))

  refer_services-Reached :
      (before : List Method) (ss : List (List Method)) (i : Imports)
      → Reached before i
      → Reached (before ++ concat ss) (refer_services qualified i ss)
  unfolding refer_services
  refer_services-Reached before [] i r = rw (append-nil before) r
  refer_services-Reached before (s ∷ ss) i r =
      subst (λ l. Reached l (refer_services qualified (refer_methods qualified i s) ss))
        (append_assoc before s (concat ss))
        (refer_services-Reached (before ++ s) ss (refer_methods qualified i s)
          (refer_methods-Reached before s i r))

  -- The reference imports of a file are qualified outputs of its oneway methods, no two of them from
  -- one package, and the package of every qualified output of a oneway method is among theirs.
  pub refer_services_lem :
      (ss : List (List Method))
      → let i = refer_services qualified (record { seen = []; idents = [] }) ss in
        All (λ ident. is_due (concat ss) ident ≡ true) i.idents
        × NoRepeats (map package_of i.idents)
        × All
            (λ m.
              (must_refer m && not (any (same_text (package_name m)) (map package_of i.idents)))
              ≡ false)
            (concat ss)
  refer_services_lem ss =
      let r =
        refer_services-Reached [] ss (record { seen = []; idents = [] })
          (record { seen_packages = λ s. refl; once = tt; all_due = tt; complete = tt }) in
      (r.all_due, r.once, r.complete)
