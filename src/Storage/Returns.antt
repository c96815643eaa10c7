-- ===== src/Storage/Returns.antt =====
-- examples/storage/repl.go: no line makes the loop panic.
use gorums_ata.Base.{
  Bool, true, false, Bool-cases, ◌≤◌, ◌<◌, ◌≡◌, refl, ◌⊎◌, inl, inr, ◌||◌, List, [], ◌∷◌, arith,
  leb, Option-cases, length, pos, negsuc, Sum-cases,
}
use gorums_ata.Storage.Chosen.{parse_configuration_good}
use gorums_ata.Stream.Types.{Run, ok}
use gorums_ata.Node.{Node}
use gorums_ata.Config.{Configuration}
use gorums_ata.Storage.Text.{Text, atoi}
use gorums_ata.Storage.Quoting.{split_quoted}
use gorums_ata.Storage.Indices.{ParseError}
use gorums_ata.Storage.Safe.{
  IsWithin, nodes_of, IsSafe, if-IsSafe, done-IsSafe, usage-IsSafe, arg-IsSafe, args_from-IsSafe,
  node_at_returns,
}
use gorums_ata.Storage.Repl.{
  Call, Action, quits, ignores, prints, calls, context, read_rpc, write_rpc, write_unicast, read_qc,
  read_correctable, read_nested_qc, write_qc, write_nested_multicast, write_multicast, read_on_node,
  write_on_node, read_on, write_on, at_index, rpc_operation, rpc, unicast, qc_operation, qc, qc_cfg,
  command, repl_line, usage, invalid_id, invalid_index, is_word, help, nodes, unknown_command,
  bad_arguments, bad_configuration, qc_parsed,
}

module _ (c : Configuration) where
  read_on_node-IsSafe :
      (args : List Text) (n : Node) → IsWithin c (n ∷ []) → IsSafe c (read_on_node args n)
  unfolding read_on_node
  read_on_node-IsSafe args n here =
      usage-IsSafe c 1 args _ _ (done-IsSafe c (prints usage) tt) (λ enough.
        arg-IsSafe c 0 args _ (omega arith)
          (λ key. done-IsSafe c (calls (read_rpc n key)) (omega arith, here)))

  write_on_node-IsSafe :
      (args : List Text) (n : Node) → IsWithin c (n ∷ []) → IsSafe c (write_on_node args n)
  unfolding write_on_node
  write_on_node-IsSafe args n here =
      usage-IsSafe c 2 args _ _ (done-IsSafe c (prints usage) tt) (λ enough.
        arg-IsSafe c 0 args _ (omega arith) (λ key.
          arg-IsSafe c 1 args _ (omega arith)
            (λ value. done-IsSafe c (calls (write_rpc n key value)) (omega arith, here))))

  rpc_operation-IsSafe :
      (op : Text) (args : List Text) (n : Node)
      → IsWithin c (n ∷ [])
      → IsSafe c (rpc_operation op args n)
  unfolding rpc_operation
  rpc_operation-IsSafe op args n here =
      if-IsSafe c (is_word op "read") _ _ (λ is_read. read_on_node-IsSafe args n here)
        (λ not_read.
          if-IsSafe c (is_word op "write") _ _ (λ is_write. write_on_node-IsSafe args n here)
            (λ not_write. done-IsSafe c ignores tt))

  at_index-IsSafe :
      (t : Text) (next : Node → Run Action)
      → ((n : Node) → IsWithin c (n ∷ []) → IsSafe c (next n))
      → IsSafe c (at_index c t next)
  unfolding at_index
  at_index-IsSafe t next h = elim (Option-cases (atoi t)) [
    | inl bad ↦ rw (at_index, bad) (done-IsSafe c (prints (invalid_id t)) tt)
    | inr (negsuc i, at) ↦ rw (at_index, at) (done-IsSafe c (prints invalid_index) tt)
    | inr (pos i, at) ↦
        rw (at_index, at)
          (if-IsSafe c (leb (length c) i) _ _ (λ out. done-IsSafe c (prints invalid_index) tt)
            (λ fits.
              let (n, found, here) = node_at_returns i c (ground arith) in rw (found) (h n here)))
  ]

  rpc-IsSafe : (args : List Text) → IsSafe c (rpc c args)
  unfolding rpc
  rpc-IsSafe args = usage-IsSafe c 2 args _ _ (done-IsSafe c (prints usage) tt) (λ enough.
      arg-IsSafe c 0 args _ (omega arith) (λ index. at_index-IsSafe index _ (λ n here.
        arg-IsSafe c 1 args _ (omega arith) (λ op.
          args_from-IsSafe c 2 args _ enough (λ rest. rpc_operation-IsSafe op rest n here)))))

  unicast-IsSafe : (args : List Text) → IsSafe c (unicast c args)
  unfolding unicast
  unicast-IsSafe args = usage-IsSafe c 3 args _ _ (done-IsSafe c (prints usage) tt) (λ enough.
      arg-IsSafe c 0 args _ (omega arith) (λ index. at_index-IsSafe index _ (λ n here.
        arg-IsSafe c 1 args _ (omega arith) (λ key.
          arg-IsSafe c 2 args _ (omega arith)
            (λ value. done-IsSafe c (calls (write_unicast n key value)) (omega arith, here))))))

  -- A configuration that a call may go to.
  abbrev IsGood : Configuration → Type 0
  IsGood d = (0 < length d) × IsWithin c d

  context_returns : (d : Configuration) → 0 < length d → context d ≡ ok d
  context_returns [] h = absurd (omega arith)
  context_returns (n ∷ d) h = refl

  read_on-IsSafe :
      (call : Configuration → Text → Call) (args : List Text) (d : Configuration)
      → IsGood d
      → ((key : Text) → nodes_of (call d key) ≡ d)
      → IsSafe c (read_on call args d)
  unfolding read_on
  read_on-IsSafe call args d good same =
      usage-IsSafe c 1 args _ _ (done-IsSafe c (prints usage) tt) (λ enough.
        rw (context_returns d good.0) (
          arg-IsSafe c 0 args _ (omega arith)
            (λ key. done-IsSafe c (calls (call d key)) (rw (same key) good))))

  pub write_on-IsSafe :
      (call : Configuration → Text → Text → Call) (args : List Text) (d : Configuration)
      → IsGood d
      → ((key value : Text) → nodes_of (call d key value) ≡ d)
      → IsSafe c (write_on call args d)
  unfolding write_on
  write_on-IsSafe call args d good same =
      usage-IsSafe c 2 args _ _ (done-IsSafe c (prints usage) tt) (λ enough.
        rw (context_returns d good.0) (
          arg-IsSafe c 0 args _ (omega arith) (λ key.
            arg-IsSafe c 1 args _ (omega arith)
              (λ value. done-IsSafe c (calls (call d key value)) (rw (same key value) good)))))

  qc_operation-IsSafe :
      (op : Text) (args : List Text) (d : Configuration)
      → IsGood d
      → IsSafe c (qc_operation op args d)
  unfolding qc_operation
  qc_operation-IsSafe op args d good =
      if-IsSafe c (is_word op "read") _ _ (λ y. read_on-IsSafe read_qc args d good (λ k. refl))
        (λ z.
          if-IsSafe c (is_word op "cread") _ _
            (λ y. read_on-IsSafe read_correctable args d good (λ k. refl))
            (λ z.
              if-IsSafe c (is_word op "write") _ _
                (λ y. write_on-IsSafe write_qc args d good (λ k v. refl))
                (λ z.
                  if-IsSafe c (is_word op "nread") _ _
                    (λ y. read_on-IsSafe read_nested_qc args d good (λ k. refl))
                    (λ z.
                      if-IsSafe c (is_word op "nwrite") _ _
                        (λ y. write_on-IsSafe write_nested_multicast args d good (λ k v. refl))
                        (λ z. done-IsSafe c ignores tt)))))

  qc-IsSafe : (args : List Text) → IsGood c → IsSafe c (qc c args)
  unfolding qc
  qc-IsSafe args good = usage-IsSafe c 1 args _ _ (done-IsSafe c (prints usage) tt) (λ enough.
      arg-IsSafe c 0 args _ (omega arith)
        (λ op. args_from-IsSafe c 1 args _ enough (λ rest. qc_operation-IsSafe op rest c good)))

  qc_parsed-IsSafe :
      (args : List Text) (r : Configuration ⊎ ParseError)
      → 2 ≤ length args
      → ((d : Configuration) → r ≡ inl d → IsGood d)
      → IsSafe c (qc_parsed args r)
  qc_parsed-IsSafe args (inr e) enough good = done-IsSafe c (prints (bad_configuration e)) tt
  qc_parsed-IsSafe args (inl d) enough good = arg-IsSafe c 1 args _ (omega arith) (λ op.
      args_from-IsSafe c 2 args _ enough (λ rest. qc_operation-IsSafe op rest d (good d refl)))

  qc_cfg-IsSafe : (args : List Text) → IsSafe c (qc_cfg c args)
  unfolding qc_cfg
  qc_cfg-IsSafe args = usage-IsSafe c 2 args _ _ (done-IsSafe c (prints usage) tt) (λ enough.
      arg-IsSafe c 0 args _ (omega arith) (λ text.
        let (r, ran, good) = parse_configuration_good c text in
        rw ran (qc_parsed-IsSafe args r enough good)))

  command_ends :
      (name : Text) (args : List Text)
      → (is_word name "exit" || is_word name "quit") ≡ true
      → command c name args ≡ ok quits
  unfolding command
  command_ends name args h = rw h refl

  command-IsSafe :
      (name : Text) (args : List Text)
      → 0 < length c
      → (is_word name "exit" || is_word name "quit") ≡ false
      → IsSafe c (command c name args)
  unfolding command
  command-IsSafe name args some_node goes_on =
      let good : IsGood c = (some_node, λ p h. h) in
      if-IsSafe c (is_word name "exit" || is_word name "quit") _ _ (λ y. cc)
        (λ z.
          if-IsSafe c (is_word name "help") _ _ (λ y. done-IsSafe c (prints help) tt)
            (λ z.
              if-IsSafe c (is_word name "rpc") _ _ (λ y. rpc-IsSafe args)
                (λ z.
                  if-IsSafe c (is_word name "qc" || is_word name "quorumcall") _ _
                    (λ y. qc-IsSafe args good)
                    (λ z.
                      if-IsSafe c (is_word name "cfg") _ _ (λ y. qc_cfg-IsSafe args)
                        (λ z.
                          if-IsSafe c (is_word name "ucast" || is_word name "unicast") _ _
                            (λ y. unicast-IsSafe args)
                            (λ z.
                              if-IsSafe c (is_word name "mcast" || is_word name "multicast") _ _
                                (λ y. write_on-IsSafe write_multicast args c good (λ k v. refl))
                                (λ z.
                                  if-IsSafe c (is_word name "nodes") _ _
                                    (λ y. done-IsSafe c (prints nodes) tt)
                                    (λ z. done-IsSafe c (prints (unknown_command name)) tt))))))))

-- Whether the first word of the arguments ends the loop.
abbrev pub is_exit : {E : Type 0} → List Text ⊎ E → Bool
is_exit (inr e) = false
is_exit (inl []) = false
is_exit (inl (name ∷ rest)) = is_word name "exit" || is_word name "quit"

-- With a configuration that has a node, a line whose first word is `exit` or `quit` ends the loop. No
-- other line makes the loop end, panic or wait before the call that the line leads to, if it leads to
-- one: each index of an argument or of a node is in range, and `Context` is not called on an empty
-- configuration. Such a call goes to at least one node, and only to nodes of the configuration; what
-- comes of it is not said.
pub repl_line_returns :
    (c : Configuration) (line : Text)
    → 0 < length c
    → ((is_exit (split_quoted line) ≡ true) × (repl_line c line ≡ ok quits))
      ⊎ ((is_exit (split_quoted line) ≡ false) × IsSafe c (repl_line c line))
unfolding repl_line
repl_line_returns c line h = elim (Sum-cases (split_quoted line)) [
  | inr (e, bad) ↦
      inr (rw bad refl, rw (repl_line, bad) (done-IsSafe c (prints (bad_arguments e)) tt))
  | inl ([], split) ↦ inr (rw split refl, rw (repl_line, split) (done-IsSafe c ignores tt))
  | inl (name ∷ rest, split) ↦ elim (Bool-cases (is_word name "exit" || is_word name "quit")) [
    | inl ends ↦
        inl (rw split ends, rw (repl_line, split) (ground (arith, command_ends c name rest ends)))
    | inr goes_on ↦ inr (
      rw split goes_on,
      rw (repl_line, split)
          (usage-IsSafe c 1 (name ∷ rest) _ _ (done-IsSafe c ignores tt)
            (λ enough. command-IsSafe c name rest h goes_on)),
    )
  ]
]
