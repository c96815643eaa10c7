-- ===== src/Stream/Server/Order.antt =====
-- internal/stream/server.go: the handlers of a connection run one at a time until they release.
use gorums_ata.Base.{
  ℕ, suc, ◌≡◌, refl, ◌≢◌, ◌⊎◌, inl, inr, Bool, true, false, List, [], ◌∷◌, ◌++◌, arith,
}
use mathlib.Core.List.{append_assoc}
use gorums_ata.Stream.Types.{Message, Run, ok, panics, blocks}
use gorums_ata.Stream.Server.{
  NodeStream, receiving, locking, returned, Event, receives, forwards, releases, sends, open_stream,
  forward, step, run,
}

Run-cases {ℓ} : {A : Type ℓ} (m : Run A) → ((a : A) × (m ≡ ok a)) ⊎ ((m ≡ blocks) ⊎ (m ≡ panics))
Run-cases (ok a) = inl (a, refl)
Run-cases blocks = inr (inl refl)
Run-cases panics = inr (inr refl)

-- What holds between two steps. The loop receives only with the mutex locked and every handler's
-- lock released; while it waits for the mutex, the mutex is locked exactly if the handler of the
-- latest message has not released it; and no other handler holds the lock at any time.
pub record IsOrdered (s : NodeStream) : Type 0 where
  pub idle : s.phase ≡ receiving → (s.locked ≡ true) × (s.unreleased ≡ [])
  pub busy :
      s.phase ≡ locking
      → ((s.locked ≡ false) × (s.unreleased ≡ []))
        ⊎ ((i : ℕ) × (s.next ≡ suc i) × (s.locked ≡ true) × (s.unreleased ≡ i ∷ []))
  pub over : s.phase ≡ returned → s.unreleased ≡ []
  pub fifo : s.forwarded ++ s.finished ≡ s.sent

open_stream-IsOrdered : (h : Bool) (b : ℕ) → IsOrdered (open_stream h b)
unfolding open_stream
open_stream-IsOrdered h b = ground arith

step-ne-stuck :
    (s : NodeStream) (e : Event) → IsOrdered s → (step s e ≢ panics) × (step s e ≢ blocks)
unfolding step
step-ne-stuck s (receives m) v = ground arith
step-ne-stuck s (releases i) v = ground arith
step-ne-stuck s e v = ground arith

forward-IsOrdered :
    (q : List Message) (s : NodeStream) → s.finished ≡ q → IsOrdered s → IsOrdered (forward q s)
unfolding forward
forward-IsOrdered [] s e v = v
forward-IsOrdered (m ∷ rest) s e v = ground (arith, append_assoc s.forwarded (m ∷ []) rest)

step-IsOrdered : (s s' : NodeStream) (e : Event) → step s e ≡ ok s' → IsOrdered s → IsOrdered s'
unfolding step
step-IsOrdered s s' (receives m) h v = ground arith
step-IsOrdered s s' (releases i) h v = ground arith
step-IsOrdered s s' (sends m) h v = ground (arith, append_assoc s.forwarded s.finished (m ∷ []))
step-IsOrdered s s' forwards h v = ground (arith, forward-IsOrdered s.finished s refl v)
step-IsOrdered s s' e h v = ground arith

run-IsOrdered :
    (s : NodeStream) (es : List Event)
    → IsOrdered s
    → (s' : NodeStream) × (run s es ≡ ok s') × IsOrdered s'
unfolding run
run-IsOrdered s [] v = (s, refl, v)
run-IsOrdered s (e ∷ es) v = elim (Run-cases (step s e)) [
  | inl (m, first) ↦ rw (first, run) (run-IsOrdered m es (step-IsOrdered s m e first v))
  | inr (inl stuck) ↦ absurd ((step-ne-stuck s e v).1 stuck)
  | inr (inr panic) ↦ absurd ((step-ne-stuck s e v).0 panic)
]

-- In any order of steps of a connection's goroutines no unlocked mutex is unlocked, at most one
-- handler holds the ordering lock, which is that of the latest message, the next message is
-- received only after it was released, and responses are forwarded in the order they were sent.
pub run-open_stream-IsOrdered :
    (h : Bool) (b : ℕ) (es : List Event)
    → (s : NodeStream) × (run (open_stream h b) es ≡ ok s) × IsOrdered s
run-open_stream-IsOrdered h b es = run-IsOrdered (open_stream h b) es (open_stream-IsOrdered h b)
