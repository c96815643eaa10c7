-- ===== src/Config/Excluded.antt =====
-- config.go: equal configurations, and the nodes that `WithoutErrors` leaves out.
use gorums_ata.Base.{
  ℕ, ◌≡◌, refl, ap, ◌∙◌, ◌↔◌, Bool, true, false, ◌&&◌, ◌||◌, not, List, [], ◌∷◌, arith, ◌==◌,
  if◌then◌else◌, any, mem,
}
use gorums_ata.Errors.{Err, NodeErrors, nil, cons, errors_is}
use gorums_ata.Config.{
  Configuration, is_empty, node_ids, contains, equal, excluded_ids, without_errors,
}
use gorums_ata.Config.Members.{any-keep, any-without}

-- Whether node `k` has a failure that counts: one that matches a type, if there are types.
abbrev pub fails_with : ℕ → List Err → NodeErrors → Bool
fails_with k types nil = false
fails_with k types (cons e i es) =
    (i == k && (if is_empty types then true else any (λ t. errors_is e t) types))
    || fails_with k types es

-- Two configurations are `Equal` exactly if they have the same IDs in the same order.
pub equal_iff : (c b : Configuration) → (equal c b ≡ true) ↔ (node_ids c ≡ node_ids b)
unfolding equal node_ids
equal_iff [] [] = (λ _. refl, λ _. refl)
equal_iff [] (y ∷ b) = (λ h. ground arith, λ h. ground arith)
equal_iff (x ∷ c) [] = (λ h. ground arith, λ h. ground arith)
equal_iff (x ∷ c) (y ∷ b) =
    (λ h. ground (arith, (equal_iff c b).0), λ h. ground (arith, (equal_iff c b).1))

any-excluded :
    (k : ℕ) (types : List Err) (errors : NodeErrors)
    → mem k (excluded_ids types errors) ≡ fails_with k types errors
unfolding excluded_ids
any-excluded k types nil = refl
any-excluded k types (cons e i es) = ground (arith, any-excluded k types es)

-- `WithoutErrors` keeps exactly the nodes without a failure: any, if no error types are given, and
-- otherwise one that matches one of them by `errors.Is`.
pub contains-without_errors :
    (k : ℕ) (c : Configuration) (errors : NodeErrors) (types : List Err)
    → contains k (without_errors c errors types) ≡ (contains k c && not (fails_with k types errors))
unfolding contains without_errors
contains-without_errors k c errors types =
    any-keep (λ n. n.id == k) (λ n. not (mem n.id (excluded_ids types errors))) c
    ∙ any-without k (excluded_ids types errors) c
    ∙ ap (λ b. any (λ n. n.id == k) c && not b) (any-excluded k types errors)
