-- ===== src/Tests/Storages.antt =====
-- examples/storage: the theorems at concrete inputs.
use gorums_ata.Base.{ℕ, ◌≡◌, refl, inl, ◌⊎◌, true, false, List, [], ◌∷◌, arith, pos}
use Prim.Native.String.{String}
use gorums_ata.Errors.{atom, foreign}
use gorums_ata.Node.{new_inbound_node}
use gorums_ata.Config.{Configuration}
use gorums_ata.Storage.{WriteRequest, write, num_updated}
use gorums_ata.Storage.Cluster.{Cluster, Fate, replies, unsent, lost, write_qc, read_qc, write_all}
use gorums_ata.Storage.Cluster.Reads.{IsSeen, read_after_write}
use gorums_ata.Storage.Register.{Operation, reads, writes, serve, IsServed, serve-IsServed}
use gorums_ata.Storage.Text.{Text, codes}
use gorums_ata.Storage.Quoting.{split_quoted, quoted_line, split_quoted-quoted_line}
use gorums_ata.Stream.Types.{ok}
use gorums_ata.Storage.Repl.{quits, repl_line}
use gorums_ata.Storage.Safe.{IsSafe}
use gorums_ata.Storage.Returns.{is_exit, repl_line_returns}

abbrev put : String → String → ℕ → WriteRequest
put k v t = record { key = k; value = v; time = pos t }

-- Three servers: a write that reaches two of them and loses the reply of the third, an older write
-- at server 2, and a read that does not reach server 1.
abbrev empty_cluster : Cluster
empty_cluster i = []

abbrev write_fates : List (ℕ × Fate)
write_fates = (1, replies) ∷ (2, replies) ∷ (3, lost (atom (foreign 4))) ∷ []

abbrev read_fates : List (ℕ × Fate)
read_fates = (2, replies) ∷ (1, unsent (atom (foreign 5))) ∷ (3, replies) ∷ []

abbrev older : List (ℕ × WriteRequest)
older = (2, put "foo" "old" 6) ∷ []

abbrev after_write : Cluster
unfolding write_qc write_all
after_write = write_all (write_qc empty_cluster (put "foo" "bar" 7) write_fates).0 older

read_after_write_example :
    IsSeen (put "foo" "bar" 7) (record { seq = read_qc after_write "foo" read_fates; size = 3 })
unfolding write_qc read_qc after_write num_updated write
read_after_write_example =
    read_after_write (1 ∷ 2 ∷ 3 ∷ []) empty_cluster (put "foo" "bar" 7) write_fates read_fates older
      (refl, refl, (refl, refl, (refl, refl, tt))) (refl, refl, (refl, refl, (refl, refl, tt))) refl
      (omega arith) refl

abbrev operations : List Operation
operations =
    writes (put "foo" "new" 7) ∷ writes (put "foo" "old" 6) ∷ reads "foo" ∷ reads "other" ∷ []

serve-IsServed_example : IsServed [] operations (serve [] operations)
serve-IsServed_example = serve-IsServed operations

abbrev arguments : List Text
arguments = codes "write" ∷ codes "" ∷ codes "a \"b\" \\ 'c'" ∷ []

split_quoted-quoted_line_example : split_quoted (quoted_line arguments) ≡ inl arguments
split_quoted-quoted_line_example = split_quoted-quoted_line arguments

abbrev nodes : Configuration
unfolding new_inbound_node
nodes =
    new_inbound_node 3 "c" false ∷ new_inbound_node 1 "a" false ∷ new_inbound_node 2 "b" false ∷ []

repl_line_returns_example :
    ((is_exit (split_quoted (codes "cfg 1:3 write foo 'bar baz'")) ≡ true)
      × (repl_line nodes (codes "cfg 1:3 write foo 'bar baz'") ≡ ok quits))
    ⊎ ((is_exit (split_quoted (codes "cfg 1:3 write foo 'bar baz'")) ≡ false)
        × IsSafe nodes (repl_line nodes (codes "cfg 1:3 write foo 'bar baz'")))
unfolding nodes
repl_line_returns_example =
    repl_line_returns nodes (codes "cfg 1:3 write foo 'bar baz'") (omega arith)
