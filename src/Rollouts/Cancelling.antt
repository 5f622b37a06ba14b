-- ===== src/Rollouts/Cancelling.antt =====
-- `cancelRollout` ends every open job of the rollout, says how many, and leaves the other jobs alone.
use magnemite.Prelude.{
  ℕ, ◌≡◌, refl, Bool, not, ◌==◌, ◌&&◌, List, [], ◌∷◌, keep, length, count_if, arith,
}
use magnemite.Store.{Job, Db, is_terminal, update_rollout, publish}
use magnemite.Rollouts.{cancel_open_jobs, cancel_rollout}

abbrev pub is_open : ℕ → Job → Bool
is_open k j = j.rollout_id == k && not (is_terminal j.state)

length-keep-keep {ℓ} :
    {A : Type ℓ} (p q : A → Bool) (xs : List A)
    → length (keep q (keep p xs)) ≡ count_if (λ x. p x && q x) xs
length-keep-keep p q [] = refl
length-keep-keep p q (x ∷ xs) = ground (arith, length-keep-keep p q xs)

module _ (now k : ℕ) where
  none_open : (js : List Job) → count_if (is_open k) (cancel_open_jobs now k js) ≡ 0
  unfolding cancel_open_jobs
  none_open [] = refl
  none_open (j ∷ js) = ground (arith, none_open js)

  others_kept :
      (js : List Job)
      → keep (λ j. not (j.rollout_id == k)) (cancel_open_jobs now k js)
        ≡ keep (λ j. not (j.rollout_id == k)) js
  unfolding cancel_open_jobs
  others_kept [] = refl
  others_kept (j ∷ js) = ground (arith, others_kept js)

  ended_kept :
      (js : List Job)
      → count_if (λ j. j.rollout_id == k && is_terminal j.state) (cancel_open_jobs now k js)
        ≡ count_if (λ j. j.rollout_id == k) js
  unfolding cancel_open_jobs
  ended_kept [] = refl
  ended_kept (j ∷ js) = ground (arith, ended_kept js)

  -- Cancelling a rollout leaves it no open job, changes no job of another rollout, and answers
  -- with the number of jobs that were open.
  pub cancel_rollout_ends :
      (db : Db)
      → (count_if (is_open k) (cancel_rollout now k db).0.jobs ≡ 0)
        × (keep (λ j. not (j.rollout_id == k)) (cancel_rollout now k db).0.jobs
            ≡ keep (λ j. not (j.rollout_id == k)) db.jobs)
        × ((cancel_rollout now k db).1 ≡ count_if (is_open k) db.jobs)
  unfolding cancel_rollout publish update_rollout
  cancel_rollout_ends db = (none_open db.jobs, others_kept db.jobs, length-keep-keep _ _ db.jobs)
