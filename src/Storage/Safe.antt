-- ===== src/Storage/Safe.antt =====
-- examples/storage/repl.go: what it is that a command does not panic, and the steps that show it.
use gorums_ata.Base.{
  ℕ, zero, suc, ◌≤◌, ◌<◌, ◌≡◌, refl, Bool, true, false, List, [], ◌∷◌, arith, ltb, if◌then◌else◌,
  length, any,
}
use gorums_ata.Stream.Types.{Run, ok, ◌>>=◌}
use gorums_ata.Node.{Node}
use gorums_ata.Config.{Configuration}
use gorums_ata.Storage.Text.{Text}
use gorums_ata.Storage.Repl.{
  Call, Action, quits, ignores, prints, calls, arg, args_from, node_at, read_rpc, write_rpc,
  write_unicast, read_qc, read_correctable, read_nested_qc, write_qc, write_nested_multicast,
  write_multicast,
}

abbrev pub IsWithin : Configuration → Configuration → Type 0
IsWithin c d = (p : Node → Bool) → any p d ≡ true → any p c ≡ true

-- The node of a call, or the nodes of its configuration.
abbrev pub nodes_of : Call → Configuration
nodes_of (read_rpc n k) = n ∷ []
nodes_of (write_rpc n k v) = n ∷ []
nodes_of (write_unicast n k v) = n ∷ []
nodes_of (read_qc c k) = c
nodes_of (read_correctable c k) = c
nodes_of (read_nested_qc c k) = c
nodes_of (write_qc c k v) = c
nodes_of (write_nested_multicast c k v) = c
nodes_of (write_multicast c k v) = c

-- The loop goes on, and a call goes to some node, and to nodes of the configuration only.
abbrev pub IsOn : Configuration → Action → Type 0
IsOn c quits = ⊥
IsOn c ignores = Unit {0}
IsOn c (prints n) = Unit {0}
IsOn c (calls call) = (0 < length (nodes_of call)) × IsWithin c (nodes_of call)

abbrev pub IsSafe : Configuration → Run Action → Type 0
IsSafe c r = (a : Action) × (r ≡ ok a) × IsOn c a

module _ (c : Configuration) where
  pub bind-IsSafe :
      {A : Type 0} (r : Run A) (next : A → Run Action)
      → (a : A) × (r ≡ ok a)
      → ((a : A) → r ≡ ok a → IsSafe c (next a))
      → IsSafe c (r >>= next)
  bind-IsSafe r next (a, h) k = rw h (k a h)

  pub if-IsSafe :
      (b : Bool) (x y : Run Action)
      → (b ≡ true → IsSafe c x)
      → (b ≡ false → IsSafe c y)
      → IsSafe c (if b then x else y)
  if-IsSafe true x y h k = h refl
  if-IsSafe false x y h k = k refl

  pub done-IsSafe : (a : Action) → IsOn c a → IsSafe c (ok a)
  done-IsSafe a h = (a, refl, h)

  arg_returns : (i : ℕ) (args : List Text) → i < length args → (a : Text) × (arg i args ≡ ok a)
  arg_returns i [] h = absurd (omega arith)
  arg_returns zero (a ∷ args) h = (a, refl)
  arg_returns (suc i) (a ∷ args) h = arg_returns i args (omega arith)

  args_from_returns :
      (i : ℕ) (args : List Text)
      → i ≤ length args
      → (rest : List Text) × (args_from i args ≡ ok rest)
  args_from_returns zero args h = (args, refl)
  args_from_returns (suc i) [] h = absurd (omega arith)
  args_from_returns (suc i) (a ∷ args) h = args_from_returns i args (omega arith)

  -- A command with at least `n` arguments, and what it prints with fewer.
  pub usage-IsSafe :
      (n : ℕ) (args : List Text) (x y : Run Action)
      → IsSafe c x
      → (n ≤ length args → IsSafe c y)
      → IsSafe c (if ltb (length args) n then x else y)
  usage-IsSafe n args x y h k =
      if-IsSafe (ltb (length args) n) x y (λ few. h) (λ enough. k (ground arith))

  pub arg-IsSafe :
      (i : ℕ) (args : List Text) (next : Text → Run Action)
      → i < length args
      → ((a : Text) → IsSafe c (next a))
      → IsSafe c (arg i args >>= next)
  arg-IsSafe i args next h k = bind-IsSafe (arg i args) next (arg_returns i args h) (λ a got. k a)

  pub args_from-IsSafe :
      (i : ℕ) (args : List Text) (next : List Text → Run Action)
      → i ≤ length args
      → ((rest : List Text) → IsSafe c (next rest))
      → IsSafe c (args_from i args >>= next)
  args_from-IsSafe i args next h k =
      bind-IsSafe (args_from i args) next (args_from_returns i args h) (λ a got. k a)

pub node_at_returns :
    (i : ℕ) (c : Configuration)
    → i < length c
    → (n : Node) × (node_at i c ≡ ok n) × IsWithin c (n ∷ [])
node_at_returns i [] h = absurd (omega arith)
node_at_returns zero (n ∷ c) h = (n, refl, λ p x. ground arith)
node_at_returns (suc i) (m ∷ c) h =
    let (n, at, here) = node_at_returns i c (omega arith) in
    (n, at, λ p x. ground (arith, here p x))
