-- ===== src/Scheduler/Caps.antt =====
-- The caps of the dispatch loop: the fleet's and a rollout's.
use magnemite.Prelude.{
  ℕ, ◌+◌, ◌≤◌, ◌<◌, ◌≡◌, ◌==◌, max, refl, sym, subst, ap, ◌∙◌, key-find, ==_iff, eq_of_some, inl,
  inr, Bool-cases, Bool, false, some, arith, IsKeyed, ◌&&◌, count_if,
}
use magnemite.Fleet.{Fleet}
use magnemite.Store.{Job, Rollout, Db, job_key, rollout_key, find_job, find_rollout, is_active}
use magnemite.Queue.{Candidate}
use magnemite.Queue.Laws.{IsReady}
use magnemite.Install.{World}
use magnemite.Scheduler.{Loop, dispatch_queued, Counts, start_loop, is_full, count_active, add_one}
use magnemite.Scheduler.Steps.{Turn}
use magnemite.Scheduler.Counted.{Turn-Counted, unskipped, dispatch_queued_inv}

module _ (w : World) (fleet : Fleet) (db : Db) (keyed : IsKeyed job_key db.jobs) where
  -- The fleet-wide cap: in a table with distinct keys a tick never brings the active jobs above
  -- the cap, or above what they were if that was more already.
  pub dispatch_queued_cap :
      (max_jobs : ℕ)
      → count_active (dispatch_queued w fleet max_jobs db).jobs
        ≤ max max_jobs (count_active db.jobs)
  unfolding dispatch_queued
  dispatch_queued_cap max_jobs = omega (
    arith,
    dispatch_queued_inv w fleet db keyed
        (λ s. count_active s.db.jobs + s.capacity ≤ max max_jobs (count_active db.jobs))
        (λ c s s' r k e h t q.
          ground (arith, Turn-Counted w (λ j. is_active j.state) (λ j i. i) t k e))
        (start_loop fleet max_jobs db) refl (omega arith),
  )

  module _ (k : ℕ) (r : Rollout) (limit : ℕ) (found : find_rollout k db ≡ some r)
      (cap : r.max_concurrency ≡ some limit) where
    abbrev of_rollout : Job → Bool
    of_rollout j = is_active j.state && j.rollout_id == k

    abbrev WithinRollout : Loop → Type 0
    WithinRollout s =
        (count_if of_rollout s.db.jobs ≤ count_if of_rollout db.jobs + s.rollout_active k)
        × (s.rollout_active k ≤ limit)

    Turn-WithinRollout :
        (c : Candidate) (s s' : Loop)
        → IsReady w.now fleet db c
        → IsKeyed job_key s.db.jobs
        → find_job c.job.id s.db ≡ some c.job
        → 0 < s.capacity
        → Turn w c s s'
        → WithinRollout s
        → WithinRollout s'
    Turn-WithinRollout c s s' ready u e _ t q =
        elim (Turn-Counted w of_rollout (λ j i. ground arith) t u e) [
          | inl (n, _, _, rr) ↦ (omega (arith, count_at rr), omega (arith, count_at rr))
          | inr (free, n, _, _, rr) ↦
              let counted : s'.rollout_active k ≡ add_one c.rollout.id s.rollout_active k =
                ap (λ (m : Counts). m k) rr in
              let own : c.rollout.id ≡ c.job.rollout_id =
                key-find rollout_key c.job.rollout_id db.rollouts ready.joined.rollout in
              elim (Bool-cases (c.job.rollout_id == k)) [
                | inl hit ↦
                    let here : c.job.rollout_id ≡ k = (==_iff _ _).0 hit in
                    let same : c.rollout ≡ r =
                      eq_of_some
                        (sym ready.joined.rollout ∙ ap (λ i. find_rollout i db) here ∙ found) in
                    let room : is_full r.max_concurrency (s.rollout_active c.rollout.id) ≡ false =
                      subst
                        (λ (x : Rollout).
                          is_full x.max_concurrency (s.rollout_active c.rollout.id) ≡ false)
                        same (unskipped w s c free).4 in
                    let below : s.rollout_active k < limit = below_limit (s.rollout_active k) (
                      subst (λ i. is_full r.max_concurrency (s.rollout_active i) ≡ false)
                        (own ∙ here) room) in
                    ground arith
                | inr miss ↦ ground arith
              ]
        ]
      where
        count_at : s'.rollout_active ≡ s.rollout_active → s'.rollout_active k ≡ s.rollout_active k
        count_at rr = ap (λ (m : Counts). m k) rr

        below_limit : (n : ℕ) → is_full r.max_concurrency n ≡ false → n < limit
        below_limit n h = ground arith

  -- In a table with distinct keys a tick adds at most a rollout's cap to the active jobs of the
  -- rollout, however many there were.
  pub dispatch_queued_rollout_cap :
      (k : ℕ) (r : Rollout) (limit max_jobs : ℕ)
      → find_rollout k db ≡ some r
      → r.max_concurrency ≡ some limit
      → count_if
          (λ j. is_active j.state && j.rollout_id == k)
          (dispatch_queued w fleet max_jobs db).jobs
        ≤ count_if (λ j. is_active j.state && j.rollout_id == k) db.jobs + limit
  unfolding dispatch_queued
  dispatch_queued_rollout_cap k r limit max_jobs f m =
      let (n, c) =
        dispatch_queued_inv w fleet db keyed (WithinRollout k r limit f m)
          (Turn-WithinRollout k r limit f m) (start_loop fleet max_jobs db) refl
          (omega arith, omega arith) in
      omega (arith, n, c)
