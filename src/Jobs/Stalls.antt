-- ===== src/Jobs/Stalls.antt =====
-- `requeueStalled` of jobs.ts, with a rollup after each row, does what one pass over the jobs would.
use mathlib.Core.Option
use magnemite.Prelude.{
  ◌==◌, ◌&&◌, if_both, or_else, ℕ, ltb, ◌≡◌, ◌∙◌, ◌<◌, fun_ext, refl, sym, inl, inr, if◌then◌else◌,
  Option-cases, Option, Bool, true, false, some, none, List, [], ◌∷◌, All, map, IsKeyed, find,
  map-find-update, update, update_each, update_each-keep, arith,
}
use magnemite.Store.{
  is_active, Job, Rollout, Db, queued, failed, went_silent, find_rollout, rollout_key, job_key,
  update_job, update_rollout, publish, log_job_event,
}
use magnemite.Store.Laws.{IsSound, JobIsSound, limit_of}
use magnemite.Rollup.{recompute_rollout, set_rollup}
use magnemite.Rollup.Frames.{jobs-recompute_rollout, recompute_rollout_cases}
use magnemite.Jobs.{requeue_one, requeue_each, requeue_stalled, is_stalled, next_attempt_at}

-- What a rollout says of retries: the attempts it allows and its backoff.
abbrev pub Policy : Type 0
Policy = Option (ℕ × ℕ)

abbrev policy : Rollout → ℕ × ℕ
policy r = (r.max_attempts, r.retry_backoff_seconds)

abbrev pub policy_of : List Rollout → ℕ → Policy
policy_of rs k = Option.map policy (find rollout_key k rs)

-- A stalled job after its turn: queued or failed as its rollout has attempts left.
abbrev pub put_back : ℕ → ℕ → Policy → Job → Job → Job
put_back now timeout_seconds none seen row = row
put_back now timeout_seconds (some (limit, base)) seen row =
    let again = ltb seen.attempt limit in
    record row {
      state = if again then queued else failed;
      progress = 0;
      last_error = some (went_silent timeout_seconds seen.state);
      next_attempt_at = if again then next_attempt_at now base seen.attempt else none;
      finished_at = if again then none else some now;
    }

policy_of-recompute_rollout :
    (now k : ℕ) (db : Db) → policy_of (recompute_rollout now k db).rollouts ≡ policy_of db.rollouts
unfolding publish update_rollout
policy_of-recompute_rollout now k db =
    recompute_rollout_cases (λ d. policy_of d.rollouts ≡ policy_of db.rollouts) now k db refl
      λ r v e. fun_ext λ i.
        map-find-update rollout_key r.id (set_rollup now v) (λ q. refl) policy (λ q. refl) i
          db.rollouts

update_id {ℓ} : {A : Type ℓ} (key : A → ℕ) (k : ℕ) (xs : List A) → update key k (λ x. x) xs ≡ xs
unfolding update
update_id key k [] = refl
update_id key k (x ∷ xs) =
    rw (update_id key k xs) (if_both (λ y. y ∷ xs ≡ x ∷ xs) (key x == k) _ _ refl refl)

All-of_map {ℓ κ} :
    {A : Type ℓ} (P Q : A → Type κ) (f : A → A) (xs : List A)
    → ((x : A) → P x → Q (f x))
    → All P xs
    → All Q (map f xs)
All-of_map P Q f [] g h = tt
All-of_map P Q f (x ∷ xs) g (p, h) = (g x p, All-of_map P Q f xs g h)

module _ (now timeout_seconds : ℕ) where
  jobs-requeue_one :
      (j : Job) (db : Db)
      → (requeue_one now timeout_seconds j db).jobs
        ≡ update job_key j.id
            (put_back now timeout_seconds (policy_of db.rollouts j.rollout_id) j)
            db.jobs
  unfolding requeue_one publish log_job_event update_job
  jobs-requeue_one j db = elim (Option-cases (find_rollout j.rollout_id db)) [
    | inl n ↦ rw (n, requeue_one) (sym (update_id job_key j.id db.jobs))
    | inr (r, f) ↦ rw (f, requeue_one) (jobs-recompute_rollout now j.rollout_id _)
  ]

  policy_of-requeue_one :
      (j : Job) (db : Db)
      → policy_of (requeue_one now timeout_seconds j db).rollouts ≡ policy_of db.rollouts
  unfolding requeue_one publish log_job_event update_job
  policy_of-requeue_one j db = elim (Option-cases (find_rollout j.rollout_id db)) [
    | inl n ↦ rw (n, requeue_one) refl
    | inr (r, f) ↦ rw (f, requeue_one) (policy_of-recompute_rollout now j.rollout_id _)
  ]

  abbrev turn : (ℕ → Policy) → Job → Job → Job
  turn policies seen row = put_back now timeout_seconds (policies seen.rollout_id) seen row

  jobs-requeue_each :
      (js : List Job) (db : Db)
      → (requeue_each now timeout_seconds js db).jobs
        ≡ update_each job_key (turn (policy_of db.rollouts)) js db.jobs
  unfolding requeue_each update_each
  jobs-requeue_each [] db = refl
  jobs-requeue_each (j ∷ js) db =
      jobs-requeue_each js (requeue_one now timeout_seconds j db)
      ∙ rw (policy_of-requeue_one j db, jobs-requeue_one j db) refl

  put_back-id : (o : Policy) (a b : Job) → (put_back now timeout_seconds o a b).id ≡ b.id
  put_back-id none a b = refl
  put_back-id (some p) a b = refl

  -- Re-queueing the stalled jobs one after another, with a rollup of the rollout after each,
  -- leaves the jobs as one pass over the table would: each stalled job is queued again under its
  -- rollout's hold or failed, by the attempts that its rollout allows, and the others stay.
  pub requeue_stalled_sweep :
      (db : Db)
      → IsKeyed job_key db.jobs
      → (requeue_stalled now timeout_seconds db).0.jobs
        ≡ map
            (λ j.
              if is_stalled now timeout_seconds j
              then put_back now timeout_seconds (policy_of db.rollouts j.rollout_id) j j
              else j)
            db.jobs
  unfolding requeue_stalled
  requeue_stalled_sweep db keyed =
      jobs-requeue_each _ db
      ∙ update_each-keep job_key (turn (policy_of db.rollouts)) (λ a b. put_back-id _ a b)
          (is_stalled now timeout_seconds) db.jobs keyed

  put_back-is_stalled :
      (rs : List Rollout) (j : Job)
      → 0 < limit_of rs j.rollout_id
      → is_stalled now timeout_seconds
          (put_back now timeout_seconds (policy_of rs j.rollout_id) j j)
        ≡ false
  put_back-is_stalled rs j s = elim (Option-cases (find rollout_key j.rollout_id rs)) [
    | inl n ↦
        let z : 0 < or_else (Option.map (λ (r : Rollout). r.max_attempts) none) 0 = rw n at s in
        absurd (omega arith)
    | inr (r, f) ↦ rw f (ended (ltb j.attempt r.max_attempts) _)
  ]
    where
      ended : (b c : Bool) → (is_active (if b then queued else failed) && c) ≡ false
      ended true c = refl
      ended false c = refl

  -- After re-queueing the stalled jobs of a sound database no job is stalled at that instant.
  pub requeue_stalled_clears :
      (db : Db)
      → IsSound db
      → All
          (λ j. is_stalled now timeout_seconds j ≡ false)
          (requeue_stalled now timeout_seconds db).0.jobs
  requeue_stalled_clears db h = rw (requeue_stalled_sweep db h.keyed) (
      All-of_map (JobIsSound (limit_of db.rollouts)) (λ j. is_stalled now timeout_seconds j ≡ false)
        _ db.jobs (λ j s. row j s.retriable (is_stalled now timeout_seconds j) refl) h.sound)
    where
      row :
          (j : Job)
          → 0 < limit_of db.rollouts j.rollout_id
          → (b : Bool) → is_stalled now timeout_seconds j ≡ b
          → is_stalled now timeout_seconds (
              if b
              then put_back now timeout_seconds (policy_of db.rollouts j.rollout_id) j j
              else j)
            ≡ false
      row j l true e = put_back-is_stalled db.rollouts j l
      row j l false e = e
