-- ===== src/Node/Attach.antt =====
-- node.go: which channel a node has as streams come and go.
use gorums_ata.Base.{ℕ, suc, ◌≡◌, Bool, true, false, none, arith, ◌==◌, is_some}
use gorums_ata.Stream.Types.{ok}
use gorums_ata.Stream.Deliver.{World}
use gorums_ata.Node.{Node, attach_stream, holds, detach}

attach_stream_lem :
    (w w' : World) (n n' : Node) (stream i : ℕ)
    → attach_stream w n stream ≡ ok (w', n', i)
    → ((k : ℕ) → holds n'.channel k ≡ (n.attached == k))
      × (i ≡ n.attached)
      × (n'.attached ≡ suc n.attached)
      × (n'.id ≡ n.id)
      × (is_some n'.channel ≡ true)
unfolding attach_stream
attach_stream_lem w w' n n' stream i e = ground arith

-- The `detach` of a stream that was replaced by another stream returns false and changes nothing;
-- that of the stream that replaced it removes the channel and returns true, if it
-- returns.
pub detach_stale :
    (w w₁ w₂ w₃ : World) (n n₁ n₂ n₃ : Node) (s t i j : ℕ) (b : Bool)
    → attach_stream w n s ≡ ok (w₁, n₁, i)
    → attach_stream w₁ n₁ t ≡ ok (w₂, n₂, j)
    → detach w₂ n₂ j ≡ ok (w₃, n₃, b)
    → (detach w₂ n₂ i ≡ ok (w₂, n₂, false)) × (b ≡ true) × (n₃.channel ≡ none) × (n₃.id ≡ n.id)
unfolding detach
detach_stale w w₁ w₂ w₃ n n₁ n₂ n₃ s t i j d e f h =
    let a = attach_stream_lem w w₁ n n₁ s i e in
    let b = attach_stream_lem w₁ w₂ n₁ n₂ t j f in
    (
      ground (arith, a, b, b.0 i),
      ground (arith, a, b, b.0 j),
      ground (arith, a, b, b.0 j),
      ground (arith, a, b, b.0 j),
    )
