-- ===== src/Rollup/Frames.antt =====
-- What rolling a rollout up leaves alone: the jobs, and the policy of the rollout.
use magnemite.Prelude.{ℕ, ◌≡◌, refl, inl, inr, Option-cases, Bool-cases, some}
use magnemite.Store.{Rollout, Db, BusEvent, find_rollout, update_rollout, publish}
use magnemite.Store.Laws.{publish-IsSound, update_rollout-IsSound, IsSound}
use magnemite.Rollup.{
  Verdict, decide, commit, recompute_rollout, is_closed, is_changed, set_rollup, jobs_of,
}

-- To prove a property of what rolling up leaves, prove it of the state before and of each write.
pub recompute_rollout_cases {ℓ} :
    (P : Db → Type ℓ) (now k : ℕ) (db : Db)
    → P db
    → ((r : Rollout) (v : Verdict)
        → find_rollout k db ≡ some r
        → P (publish (BusEvent.rollout r.id) (update_rollout r.id (set_rollup now v) db)))
    → P (recompute_rollout now k db)
unfolding recompute_rollout
recompute_rollout_cases P now k db same written = elim (Option-cases (find_rollout k db)) [
  | inl e ↦ rw (e, recompute_rollout) same
  | inr (r, e) ↦
      rw (e, recompute_rollout)
        (elim (Bool-cases (is_closed r.status)) [
          | inl closed ↦ rw closed same
          | inr open_ ↦ rw open_ (committed r e (decide r (jobs_of k db)))
        ])
]
  where
    committed : (r : Rollout) → find_rollout k db ≡ some r → (v : Verdict) → P (commit now r v db)
    committed r e v = elim (Bool-cases (is_changed r v)) [
      | inl changed ↦ unfold commit in rw changed (written r v e)
      | inr kept ↦ unfold commit in rw kept same
    ]

pub jobs-recompute_rollout : (now k : ℕ) (db : Db) → (recompute_rollout now k db).jobs ≡ db.jobs
unfolding publish update_rollout
jobs-recompute_rollout now k db =
    recompute_rollout_cases (λ d. d.jobs ≡ db.jobs) now k db refl (λ r v e. refl)

pub recompute_rollout-IsSound :
    (now k : ℕ) (db : Db) → IsSound db → IsSound (recompute_rollout now k db)
recompute_rollout-IsSound now k db h = recompute_rollout_cases IsSound now k db h λ r v e.
    publish-IsSound _ _
      (update_rollout-IsSound r.id (set_rollup now v) db (λ r. refl) (λ r. refl) h)
