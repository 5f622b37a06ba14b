-- ===== src/Scheduler/Fate.antt =====
-- What a tick's dispatch may do to a job: nothing, or send it to its box, for the reasons that the
-- query and the loop of dispatchQueued name.
use magnemite.Prelude.{
  List, ℕ, ◌<◌, ◌≡◌, ◌==◌, ◌∙◌, refl, sym, ap, subst, inl, inr, Bool-cases, Bool, true, false, some,
  not, ◌&&◌, update, find, find-update_self, find-update_ne, IsKeyed, ==_iff, eq_of_some, arith,
}
use magnemite.Fleet.{Fleet}
use magnemite.Store.{Job, Db, canary, same_status, job_key, find_job}
use magnemite.Queue.{Candidate}
use magnemite.Queue.Laws.{IsReady}
use magnemite.Window.{inside_window}
use magnemite.Install.{World}
use magnemite.Scheduler.{
  is_skipped, Loop, start_loop, dispatch_queued, set_dispatched, set_undispatched, is_auto,
}
use magnemite.Scheduler.Steps.{
  Turn, passed, went, came_back, IsAnswered, order_for, config-attach_config,
}
use magnemite.Scheduler.Counted.{unskipped, dispatch_queued_inv}

-- The box is online, the canaries go first, and an automatic rollout waits for its window.
pub record IsOpen (w : World) (c : Candidate) : Type 0 where
  pub online : w.is_online c.job.device_id ≡ true
  pub canaries_first : (same_status c.rollout.status canary && not c.job.is_canary) ≡ false
  pub in_window :
      (is_auto c.rollout.mode
        && not (inside_window c.target.window_start c.target.window_end w.minutes))
      ≡ false

pub data Fate (w : World) (fleet : Fleet) (db : Db) (j j' : Job) : Type 0 where
  kept : j' ≡ j → Fate w fleet db j j'
  sent_off :
      (c : Candidate)
      → c.job ≡ j
      → IsReady w.now fleet db c
      → IsOpen w c
      → IsAnswered w c db true
      → j' ≡ set_dispatched w.now j j
      → Fate w fleet db j j'
  put_back :
      (c : Candidate)
      → c.job ≡ j
      → IsReady w.now fleet db c
      → IsOpen w c
      → IsAnswered w c db false
      → j' ≡ set_undispatched j (set_dispatched w.now j j)
      → Fate w fleet db j j'

IsOpen-of : (w : World) (s : Loop) (c : Candidate) → is_skipped w s c ≡ false → IsOpen w c
IsOpen-of w s c e =
    let (online, gate, window, _, _) = unskipped w s c e in
    record { online = online; canaries_first = gate; in_window = window }

module _ (w : World) (fleet : Fleet) (db : Db) (k : ℕ) (j : Job)
    (found : find_job k db ≡ some j) where
  abbrev HasFate : Loop → Type 0
  HasFate s = (j' : Job) × (find_job k s.db ≡ some j') × Fate w fleet db j j'

  same_job : (c : Candidate) → IsReady w.now fleet db c → c.job.id ≡ k → c.job ≡ j
  same_job c r e = eq_of_some (sym r.held ∙ ap (λ i. find_job i db) e ∙ found)

  -- The order is the one that the rows at the head of the loop would give.
  answer_then : (c : Candidate) (s : Loop) {b : Bool} → IsAnswered w c s.db b → IsAnswered w c db b
  answer_then c s told = record {
    cached = told.cached;
    answered =
        ap (λ m. w.send_to c.job.device_id (order_for w c m)) (config-attach_config w c db s.db)
        ∙ told.answered;
  }

  at_k :
      (c : Candidate) (f : Job → Job)
      → ((i : Job) → (f i).id ≡ i.id)
      → (js : List Job) (x : Job) → c.job.id ≡ k
      → find job_key c.job.id js ≡ some x
      → find job_key k (update job_key c.job.id f js) ≡ some (f x)
  at_k c f same js x here e =
      subst (λ i. find job_key i (update job_key c.job.id f js) ≡ some (f x)) here
        (find-update_self job_key c.job.id f same js e)

  away :
      (c : Candidate) (f : Job → Job)
      → ((i : Job) → (f i).id ≡ i.id)
      → (js : List Job) → (c.job.id == k) ≡ false
      → find job_key k (update job_key c.job.id f js) ≡ find job_key k js
  away c f same js miss = find-update_ne job_key c.job.id f same k js (ground arith)

  Turn-HasFate :
      (c : Candidate) (s s' : Loop)
      → IsReady w.now fleet db c
      → IsKeyed job_key s.db.jobs
      → find_job c.job.id s.db ≡ some c.job
      → 0 < s.capacity
      → Turn w c s s'
      → HasFate s
      → HasFate s'
  Turn-HasFate c s s' r u e _ (passed jobs _ _ _) h = rw jobs h
  Turn-HasFate c s s' r u e _ (went free told jobs _ _ _) (j', f, h) =
      elim (Bool-cases (c.job.id == k)) [
        | inl hit ↦
            let here : c.job.id ≡ k = (==_iff _ _).0 hit in
            let same = same_job c r here in
            (
              set_dispatched w.now c.job c.job,
              rw jobs (at_k c (set_dispatched w.now c.job) (λ i. refl) s.db.jobs c.job here e),
              sent_off c same r (IsOpen-of w s c free) (answer_then c s told)
                  (ap (λ i. set_dispatched w.now i i) same),
            )
        | inr miss ↦
            (j', rw jobs (away c (set_dispatched w.now c.job) (λ i. refl) s.db.jobs miss ∙ f), h)
      ]
  Turn-HasFate c s s' r u e _ (came_back free told jobs _ _ _) (j', f, h) =
      elim (Bool-cases (c.job.id == k)) [
        | inl hit ↦
            let here : c.job.id ≡ k = (==_iff _ _).0 hit in
            let same = same_job c r here in
            let marked =
              find-update_self job_key c.job.id (set_dispatched w.now c.job) (λ i. refl) s.db.jobs
                e in
            (
              set_undispatched c.job (set_dispatched w.now c.job c.job),
              rw jobs (
                  at_k c (set_undispatched c.job) (λ i. refl)
                    (update job_key c.job.id (set_dispatched w.now c.job) s.db.jobs)
                    (set_dispatched w.now c.job c.job) here marked),
              put_back c same r (IsOpen-of w s c free) (answer_then c s told)
                  (ap (λ i. set_undispatched i (set_dispatched w.now i i)) same),
            )
        | inr miss ↦ (
          j',
          rw jobs (
              away c (set_undispatched c.job) (λ i. refl) _ miss
              ∙ away c (set_dispatched w.now c.job) (λ i. refl) s.db.jobs miss
              ∙ f),
          h,
        )
      ]

pub dispatch_queued-Fate :
    (w : World) (fleet : Fleet) (max_jobs k : ℕ) (db : Db) (j : Job)
    → IsKeyed job_key db.jobs
    → find_job k db ≡ some j
    → (j' : Job) × (find_job k (dispatch_queued w fleet max_jobs db) ≡ some j')
      × Fate w fleet db j j'
unfolding dispatch_queued
dispatch_queued-Fate w fleet max_jobs k db j keyed found =
    dispatch_queued_inv w fleet db keyed (HasFate w fleet db k j found)
      (Turn-HasFate w fleet db k j found) (start_loop fleet max_jobs db) refl (j, found, kept refl)
