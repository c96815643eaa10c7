-- ===== src/Errors.antt =====
-- errors.go: the package's errors, and how `errors.Is` sees a quorum call's error.
use gorums_ata.Base.{ℕ, suc, Bool, true, false, ◌&&◌, ◌||◌, Option, none, some, List, [], ◌∷◌, ◌==◌}
use native.Mathlib.Decide.{ℕ_discrete}

-- Errors that Go compares by identity: the package's variables, and those of other packages, which
-- are told apart by a number.
pub data Atom : Type 0 where
  node_closed stream_down no_handler incomplete send_failure type_mismatch skip_node stopped : Atom
  unknown_peer : Atom
  context_done foreign : ℕ → Atom

unfoldable pub Atom-discrete : Discrete Atom
Atom-discrete = hlevel ℕ_discrete

abbrev pub same_atom : Atom → Atom → Bool
same_atom a b = elim (Atom-discrete a b) [ yes _ ↦ true | no _ ↦ false ]

-- `wrapped i e` is what `fmt.Errorf` makes of `e` with `%w`; `i` is its identity.
-- `node_error` is `nodeError`, and `quorum_call` is `QuorumCallError` with its `[]nodeError`.
mutual
  pub data Err : Type 0 where
    atom : Atom → Err
    wrapped : ℕ → Err → Err
    node_error : Err → ℕ → Err
    quorum_call : Err → NodeErrors → Err

  pub data NodeErrors : Type 0 where
    nil : NodeErrors
    cons : Err → ℕ → NodeErrors → NodeErrors

-- `==` on errors. Go panics where both sides hold a `QuorumCallError`, which has a slice.
unfoldable pub same : Err → Err → Bool
same (atom a) (atom b) = same_atom a b
same (wrapped i e) (wrapped j f) = i == j
same (node_error e i) (node_error f j) = i == j && same e f
same _ _ = false

-- `QuorumCallError.Is`
unfoldable pub quorum_is : Err → Err → Bool
unfolding same
quorum_is cause (quorum_call c es) = same cause c
quorum_is cause target = same cause target

-- `QuorumCallError.Cause`
unfoldable pub cause : Err → Option Err
cause (quorum_call c es) = some c
cause _ = none

-- `len(e.errors)`, as in `QuorumCallError.NodeErrors`
unfoldable pub node_errors : NodeErrors → ℕ
node_errors nil = 0
node_errors (cons e i es) = suc (node_errors es)

-- `QuorumCallError.Unwrap`
unfoldable pub unwrap : NodeErrors → List Err
unwrap nil = []
unwrap (cons e i es) = e ∷ unwrap es

-- `append(errs, nodeError{...})`
unfoldable pub push_error : NodeErrors → Err → ℕ → NodeErrors
push_error nil e i = cons e i nil
push_error (cons f j es) e i = cons f j (push_error es e i)

-- `errors.Is`: a match by identity, then the error's own `Is`, then what it unwraps to.
unfoldable mutual
  pub errors_is : Err → Err → Bool
  errors_is (atom a) t = same (atom a) t
  errors_is (wrapped i e) t = same (wrapped i e) t || errors_is e t
  errors_is (node_error e i) t = same (node_error e i) t
  errors_is (quorum_call c es) t = quorum_is c t || any_is es t

  pub any_is : NodeErrors → Err → Bool
  any_is nil t = false
  any_is (cons e i es) t = errors_is e t || any_is es t
