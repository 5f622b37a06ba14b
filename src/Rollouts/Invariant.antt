-- ===== src/Rollouts/Invariant.antt =====
-- Cancelling and resuming a rollout keeps the jobs sound.
use magnemite.Prelude.{
  ℕ, ◌≡◌, refl, subst, inl, inr, Option-cases, none, arith, ◌&&◌, All, IsKeyed, List, [], ◌∷◌,
  if_both, find, not, ◌==◌,
}
use magnemite.Store.{
  Job, Rollout, Db, BusEvent, job_key, find_rollout, update_rollout, is_terminal, publish,
}
use magnemite.Store.Laws.{IsSound, JobIsSound, limit_of, publish-IsSound, update_rollout-IsSound}
use magnemite.Rollouts.{
  returned, cancel_open_jobs, cancel_rollout, set_rollout_cancelled, resume_rollout, set_resumed,
}

cancel_open_jobs-All :
    (limit : ℕ → ℕ) (now k : ℕ) (js : List Job)
    → All (JobIsSound limit) js
    → All (JobIsSound limit) (cancel_open_jobs now k js)
unfolding cancel_open_jobs
cancel_open_jobs-All limit now k [] h = tt
cancel_open_jobs-All limit now k (j ∷ js) (p, h) = (
  if_both (JobIsSound limit) (j.rollout_id == k && not (is_terminal j.state)) _ _ (ground arith) p,
  cancel_open_jobs-All limit now k js h,
)

find-cancel_open_jobs :
    (now k i : ℕ) (js : List Job)
    → find job_key i js ≡ none
    → find job_key i (cancel_open_jobs now k js) ≡ none
unfolding cancel_open_jobs find
find-cancel_open_jobs now k i [] e = refl
find-cancel_open_jobs now k i (j ∷ js) e = ground (arith, find-cancel_open_jobs now k i js)

cancel_open_jobs-IsKeyed :
    (now k : ℕ) (js : List Job) → IsKeyed job_key js → IsKeyed job_key (cancel_open_jobs now k js)
unfolding cancel_open_jobs
cancel_open_jobs-IsKeyed now k [] u = tt
cancel_open_jobs-IsKeyed now k (j ∷ js) (u, us) = (
  subst (λ i. find job_key i (cancel_open_jobs now k js) ≡ none) (ground arith)
      (find-cancel_open_jobs now k j.id js u),
  cancel_open_jobs-IsKeyed now k js us,
)

pub cancel_rollout-IsSound :
    (now k : ℕ) (db : Db) → IsSound db → IsSound (cancel_rollout now k db).0
unfolding cancel_rollout
cancel_rollout-IsSound now k db h = publish-IsSound _ _ (
    update_rollout-IsSound k (set_rollout_cancelled now) _ (λ r. refl) (λ r. refl)
      (record {
        keyed = cancel_open_jobs-IsKeyed now k db.jobs h.keyed;
        sound = cancel_open_jobs-All (limit_of db.rollouts) now k db.jobs h.sound;
      }))

resumed-IsSound :
    (now k : ℕ) (r : Rollout) (db : Db)
    → IsSound db
    → IsSound (update_rollout k (set_resumed now r) db)
resumed-IsSound now k r db h =
    update_rollout-IsSound k (set_resumed now r) db (λ r. refl) (λ r. refl) h

pub resume_rollout-IsSound :
    (now k : ℕ) (db db' : Db) → resume_rollout now k db ≡ returned db' → IsSound db → IsSound db'
unfolding resume_rollout
resume_rollout-IsSound now k db db' e h = elim (Option-cases (find_rollout k db)) [
  | inl n ↦ absurd (ground arith)
  | inr (r, f) ↦
      let same : publish (BusEvent.rollout k) (update_rollout k (set_resumed now r) db) ≡ db' =
        ground arith in
      subst IsSound same (publish-IsSound _ _ (resumed-IsSound now k r db h))
]
