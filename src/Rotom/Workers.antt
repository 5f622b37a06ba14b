-- ===== src/Rotom/Workers.antt =====
-- rotom.ts: the workers of one box, folded into the numbers of its row (summariseWorkers, round2).
use magnemite.Prelude.{
  ℕ, suc, ◌+◌, ◌*◌, ◌/◌, ◌==◌, ltb, if◌then◌else◌, Option, none, some, List, [], ◌∷◌, length,
}
use magnemite.Rotom.{RotomWorker}

-- `{ rate, ms, reporting }`.
pub record WorkerStats : Type 0 where
  pub rate : Option ℕ
  pub ms : Option ℕ
  pub reporting : Option ℕ

-- What the loop adds up. The products are in millionths.
pub record WorkerSums : Type 0 where
  pub rate : ℕ
  pub weighted_ms : ℕ
  pub weight : ℕ
  pub reporting : ℕ

abbrev pub nothing_reported : WorkerStats
nothing_reported = record { rate = none; ms = none; reporting = none }

abbrev pub no_sums : WorkerSums
no_sums = record { rate = 0; weighted_ms = 0; weight = 0; reporting = 0 }

-- `round2` of a quotient in thousandths: to the nearest ten, half up.
unfoldable pub round2 : (dividend divisor : ℕ) → ℕ
round2 n m = (2 * n + 10 * m) / (20 * m) * 10

abbrev weigh : (rate : ℕ) → Option ℕ → WorkerSums → WorkerSums
weigh rate none w = w
weigh rate (some ms) w =
    if ltb 0 rate
    then record {
      rate = w.rate;
      weighted_ms = w.weighted_ms + ms * rate;
      weight = w.weight + rate;
      reporting = w.reporting;
    }
    else w

-- The body of the loop.
unfoldable pub add_worker : RotomWorker → WorkerSums → WorkerSums
add_worker worker w = elim worker.rate [
  | none ↦ w
  | some rate ↦ weigh rate worker.ms (record {
    rate = w.rate + rate;
    weighted_ms = w.weighted_ms;
    weight = w.weight;
    reporting = suc w.reporting;
  })
]

unfoldable pub add_workers : List RotomWorker → WorkerSums → WorkerSums
add_workers [] w = w
add_workers (x ∷ xs) w = add_workers xs (add_worker x w)

unfoldable pub stats_of : WorkerSums → WorkerStats
stats_of w = if w.reporting == 0 then nothing_reported else record {
  rate = some (round2 w.rate 1);
  ms = (if ltb 0 w.weight then some (round2 w.weighted_ms w.weight) else none);
  reporting = some w.reporting;
}

unfoldable pub summarise_workers : Option (List RotomWorker) → WorkerStats
summarise_workers none = nothing_reported
summarise_workers (some workers) =
    if length workers == 0 then nothing_reported else stats_of (add_workers workers no_sums)
