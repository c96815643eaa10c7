-- ===== src/System/Started.antt =====
-- system.go: what is still open when `NewLocalSystems` has returned, and when its systems have stopped.
use gorums_ata.Base.{
  ℕ, zero, suc, ◌+◌, ◌-◌, ◌≤◌, ◌<◌, ◌≡◌, refl, ap, ◌∙◌, ◌⊎◌, inl, inr, Bool, true, false, ◌||◌,
  Option, List, [], ◌∷◌, ◌++◌, arith, ltb, if◌then◌else◌, Option-cases, to_nat, tally, any,
  count_up, Sum-cases,
}
use mathlib.Core.Path.{subst}
use mathlib.Core.List.{append-nil, append_assoc}
use gorums_ata.Errors.{Err}
use gorums_ata.System.Released.{
  same_resource, is_open, is_open-append, holds, is_open-stop_all, is_open-close_listeners,
}
use gorums_ata.System.{
  Resource, listener, manager, service, acquires, releases, System, with_config, stop_all,
  close_listeners, allocate, allocate_listeners, StartError, no_listener, no_outbound, create,
  new_local_systems,
}

any-append_one :
    {A : Type 0} (p : A → Bool) (xs : List A) (x : A) → any p (xs ++ x ∷ []) ≡ (any p xs || p x)
any-append_one p [] x = ground arith
any-append_one p (y ∷ ys) x = ground (arith, any-append_one p ys x)

-- `allocateListeners` leaves exactly the listeners that it returns open, and none on an error.
abbrev IsLeft : Resource → List ℕ ⊎ Err → Bool → Type 0
IsLeft r (inl ls) b = b ≡ any (λ i. same_resource (listener i) r) ls
IsLeft r (inr e) b = b ≡ false

allocate-IsLeft :
    (listen : ℕ → Option Err) (r : Resource) (i left : ℕ) (got : List ℕ) (b : Bool)
    → b ≡ any (λ j. same_resource (listener j) r) got
    → IsLeft r (allocate listen i left got).1 (is_open r b (allocate listen i left got).0)
unfolding is_open allocate
allocate-IsLeft listen r i zero got b h = h
allocate-IsLeft listen r i (suc left) got b h = elim (Option-cases (listen i)) [
  | inr (e, bad) ↦
      let ran : allocate listen i (suc left) got ≡ (close_listeners got, inr e) = ground arith in
      rw ran (is_open-close_listeners r b got ∙ ground arith)
  | inl fine ↦
      let rest = allocate listen (i + 1) left (got ++ i ∷ []) in
      let ran : allocate listen i (suc left) got ≡ (acquires (listener i) ∷ rest.0, rest.1) =
        ground arith in
      rw ran (
        allocate-IsLeft listen r (i + 1) left (got ++ i ∷ [])
          (if same_resource (listener i) r then true else b)
          (ground (arith, any-append_one (λ j. same_resource (listener j) r) got i)))
]

allocate_lem :
    (listen : ℕ → Option Err) (i left : ℕ) (got ls : List ℕ)
    → (allocate listen i left got).1 ≡ inl ls
    → ls ≡ got ++ count_up i left
unfolding allocate
allocate_lem listen i zero got ls h = ground (arith, append-nil got)
allocate_lem listen i (suc left) got ls h = elim (Option-cases (listen i)) [
  | inr (e, bad) ↦ absurd (ground arith)
  | inl fine ↦
      allocate_lem listen (i + 1) left (got ++ i ∷ []) ls (ground arith)
      ∙ append_assoc got (i ∷ []) (count_up (i + 1) left)
]

abbrev is_listener : Resource → ℕ → Bool
is_listener r l = same_resource (listener l) r

any-tally : (p : ℕ → Bool) (xs : List ℕ) → any p xs ≡ ltb 0 (tally p xs)
any-tally p [] = ground arith
any-tally p (x ∷ xs) = ground (arith, any-tally p xs)

tally_below : (k a m : ℕ) → k < a → tally (is_listener (listener k)) (count_up a m) ≡ 0
tally_below k a zero h = refl
tally_below k a (suc m) h = ground (arith, tally_below k (a + 1) m)

tally_nowhere :
    (r : Resource) (ls : List ℕ)
    → ((l : ℕ) → is_listener r l ≡ false)
    → tally (is_listener r) ls ≡ 0
tally_nowhere r [] h = refl
tally_nowhere r (l ∷ ls) h = ground (arith, h l, tally_nowhere r ls h)

tally_listener : (k a m : ℕ) → tally (is_listener (listener k)) (count_up a m) ≤ 1
tally_listener k a zero = omega arith
tally_listener k a (suc m) = ground (arith, tally_listener k (a + 1) m, tally_below k (a + 1) m)

tally_once : (r : Resource) (a m : ℕ) → tally (is_listener r) (count_up a m) ≤ 1
tally_once (listener k) a m = tally_listener k a m
tally_once (manager k) a m = omega (arith, tally_nowhere (manager k) (count_up a m) (λ l. refl))
tally_once (service k) a m = omega (arith, tally_nowhere (service k) (count_up a m) (λ l. refl))

tally_manager :
    (i : ℕ) (r : Resource) (ls : List ℕ)
    → same_resource (manager i) r ≡ true
    → tally (is_listener r) ls ≡ 0
tally_manager i (listener k) ls h = cc
tally_manager i (manager k) ls h = tally_nowhere (manager k) ls (λ l. refl)
tally_manager i (service k) ls h = cc

is_listener-manager :
    (i l : ℕ) (r : Resource) → same_resource (manager i) r ≡ true → is_listener r l ≡ false
is_listener-manager i l (listener k) h = cc
is_listener-manager i l (manager k) h = refl
is_listener-manager i l (service k) h = refl

module _ (close_err : Resource → Option Err) (outbound : ℕ → Option Err) (n : ℕ)
    (r : Resource) where
  abbrev among : List ℕ → Bool
  among ls = any (λ l. same_resource (listener l) r) ls

  abbrev held : List System → Bool
  held ss = any (λ s. holds s r) ss

  -- What is open when `NewLocalSystems` has opened all its listeners and returns: what its systems
  -- hold, or, if it fails at one system, the listeners from that system on.
  abbrev pub IsAfter : List System ⊎ StartError → Bool → Type 0
  IsAfter (inl ss) b = b ≡ held ss
  IsAfter (inr (no_listener e)) b = b ≡ false
  IsAfter (inr (no_outbound i e)) b = (i < n) × (b ≡ among (count_up i (n - i)))

  create-IsAfter :
      (i left : ℕ) (made : List System) (b : Bool)
      → i + left ≡ n
      → b ≡ (held made || among (count_up i left))
      → to_nat (held made) + tally (is_listener r) (count_up i left) ≤ 1
      → IsAfter
          (create close_err outbound i (count_up i left) made).1
          (is_open r b (create close_err outbound i (count_up i left) made).0)
  unfolding create is_open
  create-IsAfter i zero made b h now once = ground arith
  create-IsAfter i (suc left) made b h now once = elim (Option-cases (outbound i)) [
    | inr (e, bad) ↦
        let stopped = stop_all close_err made in
        let ran : create close_err outbound i (count_up i (suc left)) made
            ≡ (acquires (manager i) ∷ releases (manager i) ∷ stopped, inr (no_outbound i e)) =
          ground arith in
        let left_over : n - i ≡ suc left = omega arith in
        rw ran (
          rw left_over (
            omega arith,
            is_open-stop_all close_err r _ made
                ∙ ground (
                  arith,
                  any-tally (is_listener r) (count_up i (suc left)),
                  tally_manager i r (count_up i (suc left)),
                ),
          ))
    | inl fine ↦
        let next = made ++ with_config i (listener i) i ∷ [] in
        let rest = create close_err outbound (i + 1) (count_up (i + 1) left) next in
        let ran : create close_err outbound i (count_up i (suc left)) made
            ≡ (acquires (manager i) ∷ rest.0, rest.1) =
          ground arith in
        let grown = any-append_one (λ s. holds s r) made (with_config i (listener i) i) in
        rw ran (
          create-IsAfter (i + 1) left next (if same_resource (manager i) r then true else b)
            (omega arith) (rw grown (ground arith))
            (rw grown (
              ground
                (arith, tally_manager i r (count_up (i + 1) left), is_listener-manager i i r))))
  ]

-- What is open when `NewLocalSystems` returns, without an error or with one. Without, it is what
-- its systems hold. If a listener cannot be opened, it is nothing. If the outbound configuration
-- of a system cannot be made, the listeners from that system on are open still.
pub new_local_systems-IsAfter :
    (close_err : Resource → Option Err) (outbound listen : ℕ → Option Err) (n : ℕ) (r : Resource)
    → IsAfter close_err outbound n r
        (new_local_systems close_err outbound listen n).1
        (is_open r false (new_local_systems close_err outbound listen n).0)
unfolding new_local_systems allocate_listeners
new_local_systems-IsAfter close_err outbound listen n r =
    let opened = allocate listen 0 n [] in
    let left = allocate-IsLeft listen r 0 n [] false refl in
    elim (Sum-cases opened.1) [
      | inr (e, bad) ↦
          let ran : new_local_systems close_err outbound listen n
              ≡ (opened.0, inr (no_listener e)) =
            ground arith in
          rw ran (subst (λ x. IsLeft r x (is_open r false opened.0)) bad left)
      | inl (ls, fine) ↦
          let made = create close_err outbound 0 ls [] in
          let ran : new_local_systems close_err outbound listen n ≡ (opened.0 ++ made.0, made.1) =
            ground arith in
          rw ran (
            rw (is_open-append r false opened.0 made.0) (
              let same : ls ≡ count_up 0 n = allocate_lem listen 0 n [] ls fine in
              let now : is_open r false opened.0 ≡ any (is_listener r) ls =
                subst (λ x. IsLeft r x (is_open r false opened.0)) fine left in
              rw same (
                create-IsAfter close_err outbound n r 0 n [] (is_open r false opened.0)
                  (omega arith) (now ∙ ap (any (is_listener r)) same)
                  (omega (arith, tally_once r 0 n)))))
    ]

-- After the stop function of `NewLocalSystems` nothing that it opened is open.
pub stop_all_releases :
    (close_err : Resource → Option Err) (outbound listen : ℕ → Option Err) (n : ℕ)
    (ss : List System) (r : Resource)
    → (new_local_systems close_err outbound listen n).1 ≡ inl ss
    → is_open r false ((new_local_systems close_err outbound listen n).0 ++ stop_all close_err ss)
      ≡ false
stop_all_releases close_err outbound listen n ss r h =
    let es = (new_local_systems close_err outbound listen n).0 in
    let after : is_open r false es ≡ any (λ s. holds s r) ss =
      subst (λ x. IsAfter close_err outbound n r x (is_open r false es)) h
        (new_local_systems-IsAfter close_err outbound listen n r) in
    is_open-append r false es (stop_all close_err ss)
    ∙ is_open-stop_all close_err r (is_open r false es) ss
    ∙ ground arith
