-- ===== src/Generator/Guarded.antt =====
-- gorums.go: for which files the generator writes code.
use gorums_ata.Base.{
  ◌≡◌, refl, ap, ◌≢◌, ◌↔◌, inl, inr, Bool, true, false, not, List, [], ◌∷◌, arith, ◌==◌, Bool-cases,
  is_some, length, any, Text, same_text,
}
use gorums_ata.Generator.{Method, Order}
use gorums_ata.Generator.Chosen.{Visits, call_type-some}
use gorums_ata.Generator.Fits.{concat}
use gorums_ata.Generator.Files.{
  File, has_gorums_method, has_gorums_methods, gorums_guard, reserved_message,
}

abbrev is_nil {ℓ} : {A : Type ℓ} → List A → Bool
is_nil [] = true
is_nil (x ∷ xs) = false

module _ (order : Method → Order) (visits : (m : Method) → Visits (order m)) where
  has_gorums_method-is_nil : (ms : List Method) → has_gorums_method order ms ≡ not (is_nil ms)
  unfolding has_gorums_method
  has_gorums_method-is_nil [] = refl
  has_gorums_method-is_nil (m ∷ ms) = rw (call_type-some (order m) m (visits m)) refl

  has_gorums_methods-is_nil :
      (ss : List (List Method)) → has_gorums_methods order ss ≡ not (is_nil (concat ss))
  unfolding has_gorums_methods
  has_gorums_methods-is_nil [] = refl
  has_gorums_methods-is_nil ([] ∷ ss) =
      ground (arith, has_gorums_method-is_nil [], has_gorums_methods-is_nil ss)
  has_gorums_methods-is_nil ((m ∷ ms) ∷ ss) = ground (arith, has_gorums_method-is_nil (m ∷ ms))

  none-is_nil : (ss : List (List Method)) → (length ss == 0) ≡ true → is_nil (concat ss) ≡ true
  none-is_nil [] h = refl
  none-is_nil (s ∷ ss) h = ground arith

  module _ (reserved_idents : List Text) where
    reserved_message-any :
        (names : List Text)
        → is_some (reserved_message reserved_idents names)
          ≡ any (λ name. any (same_text name) reserved_idents) names
    unfolding reserved_message
    reserved_message-any [] = refl
    reserved_message-any (name ∷ names) = ground (arith, reserved_message-any names)

    nil_of : (ms : List Method) → is_nil ms ≡ true → ms ≡ []
    nil_of [] h = refl
    nil_of (m ∷ ms) h = cc

    -- The generator writes nothing and reports nothing exactly if no service of the file has a method,
    -- whatever options the methods have. It goes on to write exactly if the file has one service,
    -- this has a method, and no message has a reserved name.
    pub gorums_guard_lem :
        (f : File)
        → let r = gorums_guard order reserved_idents f in
          ((r ≡ inl false) ↔ (concat f.services ≡ []))
          × ((r ≡ inl true) ↔ (
              (length f.services ≡ 1)
              × (concat f.services ≢ [])
              × (any (λ name. any (same_text name) reserved_idents) f.messages ≡ false)))
    unfolding gorums_guard
    gorums_guard_lem f =
        let has = has_gorums_methods-is_nil f.services in
        let none_at_all = none-is_nil f.services in
        let taken = reserved_message-any f.messages in
        (
          (λ e. nil_of (concat f.services) (ground arith), λ e. ground (arith, ap is_nil e)),
          (
            λ e. (ground arith, λ nothing. ground (arith, ap is_nil nothing), ground arith),
            λ h. elim (Bool-cases (is_nil (concat f.services))) [
              | inl nothing ↦ absurd (h.1 (nil_of (concat f.services) nothing))
              | inr some_method ↦ ground arith
            ],
          ),
        )
