-- ===== src/System/Released.antt =====
-- system.go: what is still open when a system has stopped, or could not be made.
use gorums_ata.Base.{
  ℕ, ◌≡◌, refl, Bool, true, false, ◌&&◌, ◌||◌, not, Option, List, [], ◌∷◌, ◌++◌, arith, ◌==◌,
  if◌then◌else◌, any,
}
use gorums_ata.Errors.{Err}
use gorums_ata.System.{
  Resource, listener, manager, service, Effect, acquires, releases, stops_waiters, stops_server,
  System, close_all, stop, stop_all, close_listeners,
}

abbrev pub same_resource : Resource → Resource → Bool
same_resource (listener i) (listener j) = i == j
same_resource (manager i) (manager j) = i == j
same_resource (service i) (service j) = i == j
same_resource _ _ = false

-- Whether a resource is open after some effects, if it was before.
unfoldable pub is_open : Resource → Bool → List Effect → Bool
is_open r b [] = b
is_open r b (acquires q ∷ es) = is_open r (if same_resource q r then true else b) es
is_open r b (releases q ∷ es) = is_open r (if same_resource q r then false else b) es
is_open r b (stops_waiters i ∷ es) = is_open r b es
is_open r b (stops_server i ∷ es) = is_open r b es

pub is_open-append :
    (r : Resource) (b : Bool) (xs ys : List Effect)
    → is_open r b (xs ++ ys) ≡ is_open r (is_open r b xs) ys
unfolding is_open
is_open-append r b [] ys = refl
is_open-append r b (acquires q ∷ es) ys =
    is_open-append r (if same_resource q r then true else b) es ys
is_open-append r b (releases q ∷ es) ys =
    is_open-append r (if same_resource q r then false else b) es ys
is_open-append r b (stops_waiters i ∷ es) ys = is_open-append r b es ys
is_open-append r b (stops_server i ∷ es) ys = is_open-append r b es ys

-- What a system holds: its listener and its closers.
abbrev pub holds : System → Resource → Bool
holds s r = same_resource s.lis r || any (λ c. same_resource c r) s.closers

is_open-close_all :
    (close_err : Resource → Option Err) (r : Resource) (b : Bool) (cs : List Resource)
    → is_open r b (close_all close_err cs).0 ≡ (b && not (any (λ c. same_resource c r) cs))
unfolding is_open close_all
is_open-close_all close_err r b [] = ground arith
is_open-close_all close_err r b (c ∷ cs) =
    ground (arith, is_open-close_all close_err r b cs, is_open-close_all close_err r false cs)

-- `Stop` releases what the system holds and nothing else, whatever errors the closers return.
pub is_open-stop :
    (close_err : Resource → Option Err) (r : Resource) (b : Bool) (s : System)
    → is_open r b (stop close_err s).0 ≡ (b && not (holds s r))
unfolding is_open stop
is_open-stop close_err r b s = ground (
  arith,
  is_open-close_all close_err r b s.closers,
  is_open-close_all close_err r false s.closers,
)

pub is_open-stop_all :
    (close_err : Resource → Option Err) (r : Resource) (b : Bool) (ss : List System)
    → is_open r b (stop_all close_err ss) ≡ (b && not (any (λ s. holds s r) ss))
unfolding is_open stop_all
is_open-stop_all close_err r b [] = ground arith
is_open-stop_all close_err r b (s ∷ ss) =
    rw (is_open-append r b (stop close_err s).0 (stop_all close_err ss)) (
      rw (is_open-stop close_err r b s)
        (rw (is_open-stop_all close_err r (b && not (holds s r)) ss) (ground arith)))

pub is_open-close_listeners :
    (r : Resource) (b : Bool) (is : List ℕ)
    → is_open r b (close_listeners is) ≡ (b && not (any (λ i. same_resource (listener i) r) is))
unfolding is_open
is_open-close_listeners r b [] = ground arith
is_open-close_listeners r b (i ∷ is) =
    ground (arith, is_open-close_listeners r b is, is_open-close_listeners r false is)
