-- ===== src/Storage/Start.antt =====
-- examples/storage/main.go, server.go: the flags, and how a server and a local cluster start.
use gorums_ata.Base.{
  ℕ, ◌⊎◌, inl, inr, Bool, Option, none, some, List, [], ◌∷◌, ◌++◌, if◌then◌else◌, Text, codes,
  same_text,
}
use gorums_ata.Errors.{Err}
use gorums_ata.System.{Resource, Effect, System, StartError, new_local_systems, stop, stop_all}
use gorums_ata.Handlers.Examples.{Example, logging_simple, delayed, adds_metadata, no_foo}
use gorums_ata.Storage.Text.{is_space, split_on}

-- `strings.TrimSpace`
unfoldable pub trim_left : Text → Text
unfolding is_space
trim_left [] = []
trim_left (c ∷ s) = let rest = trim_left s in if is_space c then rest else c ∷ s

unfoldable pub trim_right : Text → Text
unfolding is_space
trim_right [] = []
trim_right (c ∷ s) = elim (trim_right s) [
  | [] ↦ if is_space c then [] else c ∷ []
  | d ∷ t ↦ c ∷ d ∷ t
]

unfoldable pub trim_space : Text → Text
unfolding trim_left trim_right
trim_space s = trim_right (trim_left s)

abbrev pub comma : ℕ
comma = b','

-- The loop of `splitAddrs`.
unfoldable pub keep_addrs : List Text → List Text
unfolding trim_space
keep_addrs [] = []
keep_addrs (addr ∷ addrs) =
    let rest = keep_addrs addrs in elim (trim_space addr) [ [] ↦ rest | c ∷ s ↦ (c ∷ s) ∷ rest ]

-- `splitAddrs`
unfoldable pub split_addrs : Text → List Text
unfolding keep_addrs split_on
split_addrs [] = []
split_addrs (c ∷ s) = keep_addrs (split_on comma (c ∷ s))

-- The names of the interceptors.
unfoldable pub example_named : Text → Option Example
example_named name =
    if same_text name (codes "logging")
    then some logging_simple
    else if same_text name (codes "nofoo")
    then some no_foo
    else if same_text name (codes "metadata")
    then some adds_metadata
    else if same_text name (codes "delayed")
    then some delayed
    else none

-- The loop of `parseInterceptors`; an unknown name ends the program.
unfoldable pub parse_names : List Text → List Example ⊎ Text
parse_names [] = inl []
parse_names (name ∷ names) =
    let rest = parse_names names in
    elim (example_named (trim_space name)) [
      | none ↦ inr name
      | some e ↦ elim rest [ inr unknown ↦ inr unknown | inl es ↦ inl (e ∷ es) ]
    ]

-- `parseInterceptors`: no option, an option with interceptors, or the unknown name.
unfoldable pub parse_interceptors : Text → Option (List Example) ⊎ Text
unfolding parse_names split_on
parse_interceptors [] = inl none
parse_interceptors (c ∷ s) = elim (parse_names (split_on comma (c ∷ s))) [
  | inl es ↦ inl (some es)
  | inr unknown ↦ inr unknown
]

-- What `main` does: `runCluster`, `runServer` of the first address, a client of the local cluster or
-- of the addresses, or the text on its usage.
pub data Mode : Type 0 where
  runs_cluster : Text → Text → Mode
  runs_server : Text → List Text → Mode
  runs_local : Mode
  runs_client : List Text → Mode
  usage : Mode

-- The choice of `main`.
unfoldable pub main_mode : Bool → Bool → Text → Text → Mode
unfolding split_addrs
main_mode cluster serve addrs ic =
    let all = split_addrs addrs in
    let server : Mode = elim all [ [] ↦ usage | first ∷ rest ↦ runs_server first (first ∷ rest) ] in
    let client : Mode = elim all [ [] ↦ runs_local | first ∷ rest ↦ runs_client (first ∷ rest) ] in
    if cluster
    then elim addrs [ [] ↦ usage | c ∷ s ↦ runs_cluster (c ∷ s) ic ]
    else if serve
    then server
    else client

-- Why `runLocalCluster` fails.
pub data ClusterError : Type 0 where
  not_started : StartError → ClusterError
  no_connection : Err → ClusterError

-- `wait` is the error of `WaitForConfig` of the system with a number.
module _ (close_err : Resource → Option Err) (outbound listen wait : ℕ → Option Err) where
  -- The loop of `runLocalCluster` that waits.
  unfoldable pub wait_all : List System → Option Err
  wait_all [] = none
  wait_all (s ∷ ss) =
      let rest = wait_all ss in elim (wait s.number) [ some e ↦ some e | none ↦ rest ]

  -- `runLocalCluster`, which starts four systems.
  unfoldable pub run_local_cluster : List Effect × (List System ⊎ ClusterError)
  unfolding new_local_systems wait_all stop_all
  run_local_cluster =
      let (es, made) = new_local_systems close_err outbound listen 4 in
      elim made [
        | inr e ↦ (es, inr (not_started e))
        | inl ss ↦ elim (wait_all ss) [
          | some e ↦ (es ++ stop_all close_err ss, inr (no_connection e))
          | none ↦ (es, inl ss)
        ]
      ]

-- Why `runServer` returns an error.
pub data RunError : Type 0 where
  no_peers not_in_list : RunError
  no_system no_peer_connection : Err → RunError

-- `runServer`, of the ID of the address in the list, if it is there, what `NewSystem` returned, and
-- the error of `WaitForConfig`; the effects are those of `Stop` after a signal.
unfoldable pub run_server :
    (Resource → Option Err)
    → List Text
    → Option ℕ
    → System ⊎ Err
    → Option Err
    → List Effect × Option RunError × List Err
unfolding stop
run_server close_err [] my_id made wait = ([], some no_peers, [])
run_server close_err (p ∷ ps) none made wait = ([], some not_in_list, [])
run_server close_err (p ∷ ps) (some id) (inr e) wait = ([], some (no_system e), [])
run_server close_err (p ∷ ps) (some id) (inl s) (some e) = ([], some (no_peer_connection e), [])
run_server close_err (p ∷ ps) (some id) (inl s) none =
    let (es, errs) = stop close_err s in (es, none, errs)
