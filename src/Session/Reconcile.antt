-- ===== src/Session/Reconcile.antt =====
-- `reconcileJobs` of deviceSocket.ts puts back exactly the jobs that the box has lost.
use magnemite.Prelude.{
  ℕ, ◌≡◌, ◌∙◌, ap, refl, inl, inr, if◌then◌else◌, Bool-cases, Option, Bool, true, false, not, ◌&&◌,
  List, [], ◌∷◌, All, map, keep, IsKeyed, update_each, update_each-keep, arith,
}
use magnemite.Store.{Job, Db, job_key, update_job, publish, log_job_event}
use magnemite.Session.{is_agents, set_requeued, requeue_lost, active_on, reconcile_jobs}

-- Active on this box for the hub, and not what the box says it works on.
abbrev pub is_lost : ℕ → Option ℕ → Job → Bool
is_lost device_id agent j = active_on device_id j && not (is_agents agent j.id)

jobs-requeue_lost :
    (agent : Option ℕ) (js : List Job) (db : Db)
    → (requeue_lost agent js db).jobs
      ≡ update_each job_key (λ _. set_requeued) (keep (λ j. not (is_agents agent j.id)) js) db.jobs
unfolding requeue_lost update_each publish log_job_event update_job
jobs-requeue_lost agent [] db = refl
jobs-requeue_lost agent (j ∷ js) db = elim (Bool-cases (is_agents agent j.id)) [
  | inl y ↦ rw (y, requeue_lost) (jobs-requeue_lost agent js _)
  | inr n ↦ rw (n, requeue_lost) (jobs-requeue_lost agent js _)
]

keep-keep {ℓ} :
    {A : Type ℓ} (p q : A → Bool) (xs : List A) → keep q (keep p xs) ≡ keep (λ x. p x && q x) xs
keep-keep p q [] = refl
keep-keep p q (x ∷ xs) = ground (arith, keep-keep p q xs)

-- When a box comes back, reconcileJobs leaves the jobs as one pass over the table would that
-- queues again each job which is active on the box for the hub and which the box does not name,
-- and keeps the others.
pub reconcile_jobs_sweep :
    (device_id : ℕ) (agent : Option ℕ) (db : Db)
    → IsKeyed job_key db.jobs
    → (reconcile_jobs device_id agent db).0.jobs
      ≡ map (λ j. if is_lost device_id agent j then set_requeued j else j) db.jobs
unfolding reconcile_jobs
reconcile_jobs_sweep device_id agent db keyed =
    jobs-requeue_lost agent _ db
    ∙ ap (λ js. update_each job_key (λ _. set_requeued) js db.jobs)
        (keep-keep (active_on device_id) (λ j. not (is_agents agent j.id)) db.jobs)
    ∙ update_each-keep job_key (λ _. set_requeued) (λ a b. refl) (is_lost device_id agent) db.jobs
        keyed

requeued-is_lost :
    (device_id : ℕ) (agent : Option ℕ) (j : Job) (b : Bool)
    → is_lost device_id agent j ≡ b
    → is_lost device_id agent (if b then set_requeued j else j) ≡ false
requeued-is_lost device_id agent j true e = ground arith
requeued-is_lost device_id agent j false e = e

swept-is_lost :
    (device_id : ℕ) (agent : Option ℕ) (js : List Job)
    → All
        (λ j. is_lost device_id agent j ≡ false)
        (map (λ j. if is_lost device_id agent j then set_requeued j else j) js)
swept-is_lost device_id agent [] = tt
swept-is_lost device_id agent (j ∷ js) = (
  requeued-is_lost device_id agent j (is_lost device_id agent j) refl,
  swept-is_lost device_id agent js,
)

-- After reconcileJobs every job that is active on the box is the one that the box says it works
-- on.
pub reconcile_jobs_clears :
    (device_id : ℕ) (agent : Option ℕ) (db : Db)
    → IsKeyed job_key db.jobs
    → All (λ j. is_lost device_id agent j ≡ false) (reconcile_jobs device_id agent db).0.jobs
reconcile_jobs_clears device_id agent db keyed =
    rw (reconcile_jobs_sweep device_id agent db keyed) (swept-is_lost device_id agent db.jobs)
