-- ===== src/System.antt =====
-- system.go, mgr.go, config.go: what a system holds, and in which order it gets and releases it.
-- What the calls of net.Listen, of `newConfig` and of the closers return are arguments.
pub mod Released
pub mod Started
use gorums_ata.Base.{
  ℕ, zero, suc, ◌+◌, ◌-◌, ◌⊎◌, inl, inr, Option, none, some, List, [], ◌∷◌, ◌++◌, any,
}
use gorums_ata.Errors.{Err}

-- What must be closed: a listener, the connections of a manager, or what a service registered.
pub data Resource : Type 0 where
  listener manager service : ℕ → Resource

pub data Effect : Type 0 where
  acquires releases : Resource → Effect
  stops_waiters stops_server : ℕ → Effect  -- `s.srv.close()`, `s.srv.Stop()`

-- `System`; `number` tells its server apart.
pub record System : Type 0 where
  pub number : ℕ
  pub lis : Resource
  pub closers : List Resource
  pub config : Option ℕ  -- the manager of the outbound configuration

-- A call that acquires and releases, with its result.
abbrev pub Did : Type 0 → Type 0
Did A = List Effect × (A ⊎ Err)

-- `NewConfig`, of a list of nodes, as its callers here have one: the manager is closed again if the
-- nodes cannot be made. `err` is the error of
-- `newConfig`.
unfoldable pub new_config : ℕ → Option Err → Did ℕ
new_config m none = (acquires (manager m) ∷ [], inl m)
new_config m (some e) = (acquires (manager m) ∷ releases (manager m) ∷ [], inr e)

-- A system with its outbound configuration.
abbrev pub with_config : ℕ → Resource → ℕ → System
with_config i lis m = record { number = i; lis = lis; closers = manager m ∷ []; config = some m }

-- `NewSystem`; `outbound` is set with `WithOutboundNodes`, to the error of `newConfig`, if any.
unfoldable pub new_system : ℕ → Option Err → Option (Option Err) → Did System
unfolding new_config
new_system i (some e) outbound = ([], inr e)
new_system i none none = (
  acquires (listener i) ∷ [],
  inl (record { number = i; lis = listener i; closers = []; config = none }),
)
new_system i none (some err) =
    let (es, made) = new_config i err in
    elim made [
      | inl m ↦ (acquires (listener i) ∷ es, inl (with_config i (listener i) m))
      | inr e ↦ (acquires (listener i) ∷ es ++ releases (listener i) ∷ [], inr e)
    ]

-- `RegisterService`, of a closer that may be nil.
unfoldable pub register_service : Option Resource → System → System
register_service none s = s
register_service (some c) s = record s { closers = s.closers ++ c ∷ [] }

-- The loop of `Stop` over the closers, with the errors that `errors.Join` collects.
unfoldable pub close_all : (Resource → Option Err) → List Resource → List Effect × List Err
close_all close_err [] = ([], [])
close_all close_err (c ∷ cs) =
    let rest = close_all close_err cs in
    (releases c ∷ rest.0, elim (close_err c) [ none ↦ rest.1 | some e ↦ e ∷ rest.1 ])

-- `Stop`
unfoldable pub stop : (Resource → Option Err) → System → List Effect × List Err
unfolding close_all
stop close_err s =
    let closed = close_all close_err s.closers in
    (stops_waiters s.number ∷ stops_server s.number ∷ releases s.lis ∷ closed.0, closed.1)

-- The loop of the stop function of `NewLocalSystems`, which drops the errors.
unfoldable pub stop_all : (Resource → Option Err) → List System → List Effect
unfolding stop
stop_all close_err [] = []
stop_all close_err (s ∷ ss) = (stop close_err s).0 ++ stop_all close_err ss

abbrev pub close_listeners : List ℕ → List Effect
close_listeners [] = []
close_listeners (i ∷ is) = releases (listener i) ∷ close_listeners is

-- The loop of `allocateListeners`, with the listeners that are open; `listen i` is the error of the
-- call with number `i`, if any.
unfoldable pub allocate : (ℕ → Option Err) → ℕ → ℕ → List ℕ → Did (List ℕ)
allocate listen i zero got = ([], inl got)
allocate listen i (suc left) got =
    let rest = allocate listen (i + 1) left (got ++ i ∷ []) in
    elim (listen i) [
      | some e ↦ (close_listeners got, inr e)
      | none ↦ (acquires (listener i) ∷ rest.0, rest.1)
    ]

-- `allocateListeners`
unfoldable pub allocate_listeners : (ℕ → Option Err) → ℕ → Did (List ℕ)
unfolding allocate
allocate_listeners listen n = allocate listen 0 n []

-- Why `NewLocalSystems` fails: a call of net.Listen, or the outbound configuration of a system.
pub data StartError : Type 0 where
  no_listener : Err → StartError
  no_outbound : ℕ → Err → StartError

module _ (close_err : Resource → Option Err) (outbound : ℕ → Option Err) where
  -- The loop of `NewLocalSystems` over the listeners that are left, with the systems so far.
  unfoldable pub create : ℕ → List ℕ → List System → List Effect × (List System ⊎ StartError)
  unfolding new_config stop_all
  create i [] made = ([], inl made)
  create i (l ∷ ls) made =
      let (es, config) = new_config i (outbound i) in
      elim config [
        | inr e ↦ (es ++ stop_all close_err made, inr (no_outbound i e))
        | inl m ↦
            let rest = create (i + 1) ls (made ++ with_config i (listener l) m ∷ []) in
            (es ++ rest.0, rest.1)
      ]

  -- `NewLocalSystems`
  unfoldable pub new_local_systems : (ℕ → Option Err) → ℕ → List Effect × (List System ⊎ StartError)
  unfolding allocate_listeners create
  new_local_systems listen n =
      let (es, opened) = allocate_listeners listen n in
      elim opened [
        | inr e ↦ (es, inr (no_listener e))
        | inl ls ↦ let made = create 0 ls [] in (es ++ made.0, made.1)
      ]
