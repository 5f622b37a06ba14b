-- ===== src/Store/Laws.antt =====
-- What a change of one row leaves in the tables of the database.
use mathlib.Core.Option
use magnemite.Prelude.{
  ◌+◌, if◌then◌else◌, ℕ, ◌≤◌, ◌<◌, ◌≡◌, ap, fun_ext, or_else, is_some, List, All, find, update,
  update-All, update-IsKeyed, IsKeyed, find-All, Option, some, map-find-update,
}
use magnemite.Store.{
  is_queued, is_terminal, JobState, Message, LogLevel, BusEvent, log_job_event, publish, find_job,
  find_rollout, Job, Rollout, Db, job_key, rollout_key, update_job, update_rollout,
}

-- The attempts that the rollout under a key allows, 0 where there is none.
abbrev pub limit_of : List Rollout → ℕ → ℕ
limit_of rs k = or_else (Option.map (λ r. r.max_attempts) (find rollout_key k rs)) 0

pub limit_of-update :
    (k : ℕ) (f : Rollout → Rollout) (rs : List Rollout)
    → ((r : Rollout) → (f r).id ≡ r.id)
    → ((r : Rollout) → (f r).max_attempts ≡ r.max_attempts)
    → limit_of (update rollout_key k f rs) ≡ limit_of rs
limit_of-update k f rs same kept =
    fun_ext λ j. ap (λ o. or_else o 0) (map-find-update rollout_key k f same _ kept j rs)

-- The attempts of a job, with the one that it is queued for.
abbrev pub tries : Job → ℕ
tries j = if is_queued j.state then j.attempt + 1 else j.attempt

-- What holds of every job, `limit` being the attempts that its rollout allows.
pub record JobIsSound (limit : ℕ → ℕ) (j : Job) : Type 0 where
  pub progress_le : j.progress ≤ 100
  pub retriable : 0 < limit j.rollout_id
  pub tries_le : tries j ≤ limit j.rollout_id
  pub dated : is_some j.finished_at ≡ is_terminal j.state

pub record IsSound (db : Db) : Type 0 where
  pub keyed : IsKeyed job_key db.jobs
  pub sound : All (JobIsSound (limit_of db.rollouts)) db.jobs

pub find_job-IsSound :
    (k : ℕ) (db : Db) {j : Job}
    → find_job k db ≡ some j
    → IsSound db
    → JobIsSound (limit_of db.rollouts) j
find_job-IsSound k db e h = find-All job_key _ k db.jobs h.sound e

pub update_job-IsSound :
    (k : ℕ) (f : Job → Job) (db : Db) {j : Job}
    → ((row : Job) → (f row).id ≡ row.id)
    → find_job k db ≡ some j
    → JobIsSound (limit_of db.rollouts) (f j)
    → IsSound db
    → IsSound (update_job k f db)
unfolding update_job
update_job-IsSound k f db same e p h = record {
  keyed = update-IsKeyed job_key k f same db.jobs h.keyed;
  sound = update-All job_key _ k f db.jobs h.keyed e p h.sound;
}

pub update_rollout-IsSound :
    (k : ℕ) (f : Rollout → Rollout) (db : Db)
    → ((r : Rollout) → (f r).id ≡ r.id)
    → ((r : Rollout) → (f r).max_attempts ≡ r.max_attempts)
    → IsSound db
    → IsSound (update_rollout k f db)
unfolding update_rollout
update_rollout-IsSound k f db same kept h = record {
  keyed = h.keyed;
  sound = rw (limit_of-update k f db.rollouts same kept) h.sound;
}

-- The log and the bus are no part of it.
pub log_job_event-IsSound :
    (k : ℕ) (m : Message) (l : LogLevel) (p : Option JobState) (db : Db)
    → IsSound db
    → IsSound (log_job_event k m l p db)
unfolding log_job_event
log_job_event-IsSound k m l p db h = record { keyed = h.keyed; sound = h.sound }

pub publish-IsSound : (e : BusEvent) (db : Db) → IsSound db → IsSound (publish e db)
unfolding publish
publish-IsSound e db h = record { keyed = h.keyed; sound = h.sound }

pub limit_of-find :
    (k : ℕ) (db : Db) {r : Rollout}
    → find_rollout k db ≡ some r
    → limit_of db.rollouts k ≡ r.max_attempts
limit_of-find k db e = rw e

pub IsSound-of_same :
    (db db' : Db) → db'.jobs ≡ db.jobs → db'.rollouts ≡ db.rollouts → IsSound db → IsSound db'
IsSound-of_same db db' j r h = record { keyed = rw j h.keyed; sound = rw (j, r) h.sound }
