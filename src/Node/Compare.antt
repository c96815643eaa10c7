-- ===== src/Node/Compare.antt =====
-- node.go: what the comparisons sort by.
use gorums_ata.Base.{Ordering, ◌≡◌, ◌≢◌, arith}
use gorums_ata.Node.{Node, compare_id, compare_last_error, compare_latency}

pub compare_id-flip : (a b : Node) → compare_id a b ≡ Ordering.gt → compare_id b a ≢ Ordering.gt
unfolding compare_id
compare_id-flip a b h = ground arith

pub compare_latency-flip :
    (a b : Node) → compare_latency a b ≡ Ordering.gt → compare_latency b a ≢ Ordering.gt
unfolding compare_latency
compare_latency-flip a b h = ground arith

pub compare_last_error-flip :
    (a b : Node) → compare_last_error a b ≡ Ordering.gt → compare_last_error b a ≢ Ordering.gt
unfolding compare_last_error
compare_last_error-flip a b h = ground arith
