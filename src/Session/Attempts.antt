-- ===== src/Session/Attempts.antt =====
-- `reconcileJobs` of deviceSocket.ts does not give the attempt back.
use mathlib.Core.Option
use magnemite.Prelude.{
  ◌+◌, ◌≤◌, ℕ, ◌≡◌, ◌∙◌, ap, refl, sym, inl, inr, if◌then◌else◌, Bool-cases, Option, true, some,
  keep, List, [], ◌∷◌, map, find, IsKeyed, arith, if_both,
}
use magnemite.Store.{publish, log_job_event, update_job, Job, Db, job_key, find_job, queued}
use magnemite.Store.Laws.{IsSound, limit_of, find_job-IsSound}
use magnemite.Session.{active_on, is_agents, set_requeued, requeue_lost, reconcile_jobs}
use magnemite.Session.Reconcile.{is_lost, reconcile_jobs_sweep}

find-map {ℓ} :
    {A : Type ℓ} (key : A → ℕ) (f : A → A)
    → ((x : A) → key (f x) ≡ key x)
    → (k : ℕ) (xs : List A) → find key k (map f xs) ≡ Option.map f (find key k xs)
unfolding find
find-map key f same k [] = refl
find-map key f same k (x ∷ xs) = ground (arith, same x, find-map key f same k xs)

rollouts-requeue_lost :
    (agent : Option ℕ) (js : List Job) (db : Db) → (requeue_lost agent js db).rollouts ≡ db.rollouts
unfolding requeue_lost publish log_job_event update_job
rollouts-requeue_lost agent [] db = refl
rollouts-requeue_lost agent (j ∷ js) db = elim (Bool-cases (is_agents agent j.id)) [
  | inl y ↦ rw (y, requeue_lost) (rollouts-requeue_lost agent js db)
  | inr n ↦ rw (n, requeue_lost) (rollouts-requeue_lost agent js _)
]

pub find-reconcile_jobs :
    (device_id k : ℕ) (agent : Option ℕ) (db : Db) (j : Job)
    → IsKeyed job_key db.jobs
    → find_job k db ≡ some j
    → is_lost device_id agent j ≡ true
    → find_job k (reconcile_jobs device_id agent db).0 ≡ some (set_requeued j)
find-reconcile_jobs device_id k agent db j keyed e lost =
    rw (reconcile_jobs_sweep device_id agent db keyed) (
      find-map job_key (λ i. if is_lost device_id agent i then set_requeued i else i)
        (λ i. if_both (λ (x : Job). x.id ≡ i.id) (is_lost device_id agent i) _ _ refl refl) k
        db.jobs
      ∙ rw e (rw lost refl))

-- A job of a sound database in its last attempt that the box has lost is in the queue after
-- reconcileJobs, with as many attempts as its rollout allows used up, so that the database is no
-- longer sound.
pub reconcile_jobs_overruns :
    (device_id k : ℕ) (agent : Option ℕ) (db : Db) (j : Job)
    → IsSound db
    → find_job k db ≡ some j
    → is_lost device_id agent j ≡ true
    → j.attempt ≡ limit_of db.rollouts j.rollout_id
    → (j' : Job) × (find_job k (reconcile_jobs device_id agent db).0 ≡ some j')
      × (j'.state ≡ queued)
      × (j'.attempt ≡ limit_of (reconcile_jobs device_id agent db).0.rollouts j'.rollout_id)
      × ¬ IsSound (reconcile_jobs device_id agent db).0
unfolding reconcile_jobs
reconcile_jobs_overruns device_id k agent db j h e lost last =
    let held = find-reconcile_jobs device_id k agent db j h.keyed e lost in
    let same =
      ap (λ rs. limit_of rs j.rollout_id)
        (rollouts-requeue_lost agent (keep (active_on device_id) db.jobs) db) in
    (
      set_requeued j,
      held,
      refl,
      last ∙ sym same,
      λ after.
          let row = find_job-IsSound k (reconcile_jobs device_id agent db).0 held after in
          let over : j.attempt + 1
              ≤ limit_of (reconcile_jobs device_id agent db).0.rollouts j.rollout_id =
            row.tries_le in
          absurd (omega (arith, over, same, last)),
    )
