-- ===== src/Storage/Repl.antt =====
-- examples/storage/repl.go: the interactive loop, from a line to the call that it makes. The
-- generated functions of the service are not called here: a `Call` says which one is, with its
-- arguments.
use gorums_ata.Base.{
  ℕ, zero, suc, ◌⊎◌, inl, inr, Bool, ◌||◌, none, some, List, [], ◌∷◌, ltb, leb, if◌then◌else◌,
  length, pos, negsuc,
}
use Prim.Native.String.{String}
use gorums_ata.Stream.Types.{Run, ok, panics, ◌>>=◌}
use gorums_ata.Node.{Node}
use gorums_ata.Config.{Configuration}
use gorums_ata.Storage.Text.{Text, codes, same_text, atoi}
use gorums_ata.Storage.Quoting.{QuoteError, split_quoted}
use gorums_ata.Storage.Indices.{ParseError, parse_configuration}

-- The generated functions, with the node or the configuration, the key and the value.
pub data Call : Type 0 where
  read_rpc : Node → Text → Call
  write_rpc write_unicast : Node → Text → Text → Call
  read_qc read_correctable read_nested_qc : Configuration → Text → Call
  write_qc write_nested_multicast write_multicast : Configuration → Text → Text → Call

-- What the loop prints when it makes no call.
pub data Notice : Type 0 where
  help usage invalid_index nodes : Notice
  invalid_id unknown_command : Text → Notice
  bad_arguments : QuoteError → Notice
  bad_configuration : ParseError → Notice

-- What a line leads to.
pub data Action : Type 0 where
  quits ignores : Action
  prints : Notice → Action
  calls : Call → Action

-- `args[i]`
abbrev pub arg : ℕ → List Text → Run Text
arg i [] = panics
arg zero (a ∷ args) = ok a
arg (suc i) (a ∷ args) = arg i args

-- `args[i:]`
abbrev pub args_from : ℕ → List Text → Run (List Text)
args_from zero args = ok args
args_from (suc i) [] = panics
args_from (suc i) (a ∷ args) = args_from i args

-- `r.cfg[i]`
abbrev pub node_at : ℕ → Configuration → Run Node
node_at i [] = panics
node_at zero (n ∷ c) = ok n
node_at (suc i) (n ∷ c) = node_at i c

-- `Configuration.Context`, which panics on an empty configuration.
abbrev pub context : Configuration → Run Configuration
context [] = panics
context (n ∷ c) = ok (n ∷ c)

abbrev pub is_word : Text → String → Bool
is_word t s = same_text t (codes s)

-- `readRPC`, up to its call.
unfoldable pub read_on_node : List Text → Node → Run Action
read_on_node args n =
    if ltb (length args) 1
    then ok (prints usage)
    else (arg 0 args >>= λ key. ok (calls (read_rpc n key)))

-- `writeRPC`, up to its call.
unfoldable pub write_on_node : List Text → Node → Run Action
write_on_node args n =
    if ltb (length args) 2
    then ok (prints usage)
    else (arg 0 args >>= λ key. arg 1 args >>= λ value. ok (calls (write_rpc n key value)))

-- `readQC`, `creadQC` and `readNestedQC`, up to the call.
unfoldable pub read_on : (Configuration → Text → Call) → List Text → Configuration → Run Action
read_on call args c =
    if ltb (length args) 1
    then ok (prints usage)
    else (context c >>= λ ctx. arg 0 args >>= λ key. ok (calls (call ctx key)))

-- `writeQC`, `writeNestedMulticast` and `multicast`, up to the call.
unfoldable pub write_on :
    (Configuration → Text → Text → Call) → List Text → Configuration → Run Action
write_on call args c =
    if ltb (length args) 2
    then ok (prints usage)
    else (context c >>= λ ctx.
        arg 0 args >>= λ key. arg 1 args >>= λ value. ok (calls (call ctx key value)))

-- The check of a node index, and what is done with the node.
unfoldable pub at_index : Configuration → Text → (Node → Run Action) → Run Action
at_index c t next = elim (atoi t) [
  | none ↦ ok (prints (invalid_id t))
  | some (negsuc i) ↦ ok (prints invalid_index)
  | some (pos i) ↦ if leb (length c) i then ok (prints invalid_index) else (node_at i c >>= next)
]

-- The operations of `rpc`.
unfoldable pub rpc_operation : Text → List Text → Node → Run Action
rpc_operation op args n =
    if is_word op "read"
    then read_on_node args n
    else if is_word op "write"
    then write_on_node args n
    else ok ignores

-- `rpc`
unfoldable pub rpc : Configuration → List Text → Run Action
rpc c args =
    if ltb (length args) 2
    then ok (prints usage)
    else (arg 0 args >>= λ index.
        at_index c index
          (λ n. arg 1 args >>= λ op. args_from 2 args >>= λ rest. rpc_operation op rest n))

-- `unicast`, up to its call.
unfoldable pub unicast : Configuration → List Text → Run Action
unicast c args =
    if ltb (length args) 3
    then ok (prints usage)
    else (arg 0 args >>= λ index.
        at_index c index (λ n.
          arg 1 args >>= λ key. arg 2 args >>= λ value. ok (calls (write_unicast n key value))))

-- The operations of `qc` and `qcCfg`.
unfoldable pub qc_operation : Text → List Text → Configuration → Run Action
qc_operation op args c =
    if is_word op "read"
    then read_on read_qc args c
    else if is_word op "cread"
    then read_on read_correctable args c
    else if is_word op "write"
    then write_on write_qc args c
    else if is_word op "nread"
    then read_on read_nested_qc args c
    else if is_word op "nwrite"
    then write_on write_nested_multicast args c
    else ok ignores

-- `qc`
unfoldable pub qc : Configuration → List Text → Run Action
qc c args =
    if ltb (length args) 1
    then ok (prints usage)
    else (arg 0 args >>= λ op. args_from 1 args >>= λ rest. qc_operation op rest c)

-- `qcCfg` behind its call of `parseConfiguration`.
abbrev pub qc_parsed : List Text → Configuration ⊎ ParseError → Run Action
qc_parsed args (inr e) = ok (prints (bad_configuration e))
qc_parsed args (inl chosen) =
    arg 1 args >>= λ op. args_from 2 args >>= λ rest. qc_operation op rest chosen

-- `qcCfg`
unfoldable pub qc_cfg : Configuration → List Text → Run Action
qc_cfg c args =
    if ltb (length args) 2
    then ok (prints usage)
    else (arg 0 args >>= λ text. parse_configuration c text >>= qc_parsed args)

-- The commands of `Repl`, by the first argument.
unfoldable pub command : Configuration → Text → List Text → Run Action
command c name args =
    if is_word name "exit" || is_word name "quit"
    then ok quits
    else if is_word name "help"
    then ok (prints help)
    else if is_word name "rpc"
    then rpc c args
    else if is_word name "qc" || is_word name "quorumcall"
    then qc c args
    else if is_word name "cfg"
    then qc_cfg c args
    else if is_word name "ucast" || is_word name "unicast"
    then unicast c args
    else if is_word name "mcast" || is_word name "multicast"
    then write_on write_multicast args c
    else if is_word name "nodes"
    then ok (prints nodes)
    else ok (prints (unknown_command name))

-- One turn of the loop of `Repl`, for a line that was read.
unfoldable pub repl_line : Configuration → Text → Run Action
repl_line c line = elim (split_quoted line) [
  | inr e ↦ ok (prints (bad_arguments e))
  | inl args ↦
      if ltb (length args) 1
      then ok ignores
      else (arg 0 args >>= λ name. args_from 1 args >>= λ rest. command c name rest)
]
