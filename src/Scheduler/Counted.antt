-- ===== src/Scheduler/Counted.antt =====
-- A turn of the dispatch loop, and a whole tick, seen by what they count.
use magnemite.Prelude.{
  ◌+◌, ◌-◌, ◌≤◌, ◌<◌, ◌≡◌, ◌⊎◌, refl, inl, inr, Bool, true, false, not, some, arith, find, IsKeyed,
  ◌&&◌, ◌||◌, count_if, count_if-update, update-update, one_if, All-map,
}
use magnemite.Fleet.{Fleet}
use magnemite.Store.{Job, Db, job_key, find_job, is_active, same_status, canary}
use magnemite.Queue.{Candidate, candidates}
use magnemite.Queue.Laws.{IsReady, candidates-IsKeyed, candidates-IsReady}
use magnemite.Window.{inside_window}
use magnemite.Install.{World}
use magnemite.Scheduler.{
  Loop, is_skipped, dispatch_each, group_full, is_full, is_auto, set_dispatched, set_undispatched,
  add_group, add_one,
}
use magnemite.Scheduler.Steps.{Turn, passed, went, came_back}
use magnemite.Scheduler.LoopRule.{dispatch_each_inv}

-- A turn seen by a test that only active jobs pass.
module _ (w : World) (p : Job → Bool)
    (idle : (j : Job) → is_active j.state ≡ false → p j ≡ false) where
  abbrev pub Counted : Candidate → Loop → Loop → Type 0
  Counted c s s' =
      ((count_if p s'.db.jobs ≤ count_if p s.db.jobs)
        × (s'.capacity ≡ s.capacity)
        × (s'.group_active ≡ s.group_active)
        × (s'.rollout_active ≡ s.rollout_active))
      ⊎ ((is_skipped w s c ≡ false)
          × (count_if p s'.db.jobs
              ≤ count_if p s.db.jobs + one_if (p (set_dispatched w.now c.job c.job)))
          × (s'.capacity ≡ s.capacity - 1)
          × (s'.group_active ≡ add_group c.device.group_id s.group_active)
          × (s'.rollout_active ≡ add_one c.rollout.id s.rollout_active))

  pub Turn-Counted :
      {c : Candidate} {s s' : Loop}
      → Turn w c s s'
      → IsKeyed job_key s.db.jobs
      → find_job c.job.id s.db ≡ some c.job
      → Counted c s s'
  Turn-Counted {c} {s} (passed j a g r) u e = inl (rw j (omega arith), a, g, r)
  Turn-Counted {c} {s} (went k _ j a g r) u e = inr (
    k,
    rw j (count_if-update job_key c.job.id p (set_dispatched w.now c.job) s.db.jobs u e),
    a,
    g,
    r,
  )
  Turn-Counted {c} {s} (came_back k _ j a g r) u e =
      let mark = set_dispatched w.now c.job in
      let back = set_undispatched c.job in
      let fused = update-update job_key c.job.id mark back s.db.jobs (λ i. refl) in
      let off : p (back (mark c.job)) ≡ false = idle (back (mark c.job)) refl in
      inl (
        rw (j, fused)
            (omega (
              arith,
              count_if-update job_key c.job.id p (λ i. back (mark i)) s.db.jobs u e,
              one_if-false _ off,
            )),
        a,
        g,
        r,
      )
    where
      one_if-false : (b : Bool) → b ≡ false → one_if b ≡ 0
      one_if-false b h = ground arith

-- What it takes not to be passed over.
pub unskipped :
    (w : World) (s : Loop) (c : Candidate)
    → is_skipped w s c ≡ false
    → (w.is_online c.job.device_id ≡ true)
      × (same_status c.rollout.status canary && not c.job.is_canary ≡ false)
      × (is_auto c.rollout.mode
            && not (inside_window c.target.window_start c.target.window_end w.minutes)
          ≡ false)
      × (group_full s.group_active c ≡ false)
      × (is_full c.rollout.max_concurrency (s.rollout_active c.rollout.id) ≡ false)
unfolding is_skipped
unskipped w s c e =
    go (w.is_online c.job.device_id) (same_status c.rollout.status canary && not c.job.is_canary)
      (is_auto c.rollout.mode
        && not (inside_window c.target.window_start c.target.window_end w.minutes))
      (group_full s.group_active c)
      (is_full c.rollout.max_concurrency (s.rollout_active c.rollout.id)) e
  where
    go :
        (a b c' d f : Bool)
        → (not a || b || c' || d || f) ≡ false
        → (a ≡ true) × (b ≡ false) × (c' ≡ false) × (d ≡ false) × (f ≡ false)
    go a b c' d f h = ground arith

module _ (w : World) (fleet : Fleet) (db : Db) (keyed : IsKeyed job_key db.jobs) where
  -- The rule of the loop, at the candidates of a tick.
  pub dispatch_queued_inv {ℓ} :
      (P : Loop → Type ℓ)
      → ((c : Candidate) (s s' : Loop)
          → IsReady w.now fleet db c
          → IsKeyed job_key s.db.jobs
          → find_job c.job.id s.db ≡ some c.job
          → 0 < s.capacity
          → Turn w c s s'
          → P s
          → P s')
      → (s : Loop) → s.db ≡ db
      → P s
      → P (dispatch_each w (candidates w.now fleet db) s)
  dispatch_queued_inv P step s start p =
      let cs = candidates w.now fleet db in
      let ready = candidates-IsReady w.now fleet db keyed in
      dispatch_each_inv w P (IsReady w.now fleet db)
        (λ c s s' r k e h _ t q. step c s s' r k e h t q) cs s
        (candidates-IsKeyed w.now fleet db keyed) ready (rw start keyed)
        (rw start (
          All-map (IsReady w.now fleet db) (λ c. find job_key c.job.id db.jobs ≡ some c.job) cs
            (λ c r. r.held) ready))
        p
