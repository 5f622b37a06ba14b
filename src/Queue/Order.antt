-- ===== src/Queue/Order.antt =====
-- The order and the number of the candidates of a tick: canaries first, then the oldest.
use magnemite.Prelude.{
  length-take, ℕ, ◌≡◌, ◌≤◌, true, false, arith, length, IsSorted, sort-IsSorted, take-IsSorted,
}
use magnemite.Fleet.{Fleet}
use magnemite.Store.{Db}
use magnemite.Queue.{Candidate, queue_order, candidates, candidate_slots}

queue_order_total : (a b : Candidate) → queue_order a b ≡ false → queue_order b a ≡ true
queue_order_total a b e = ground arith

-- The candidates of a tick are at most 500, and each may stand before the next: canaries first,
-- then the oldest.
pub candidates-IsSorted :
    (now : ℕ) (fleet : Fleet) (db : Db)
    → IsSorted queue_order (candidates now fleet db)
      × (length (candidates now fleet db) ≤ candidate_slots)
unfolding candidates
candidates-IsSorted now fleet db = (
  take-IsSorted queue_order candidate_slots _ (sort-IsSorted queue_order queue_order_total _),
  length-take candidate_slots _,
)
