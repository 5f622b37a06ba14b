-- ===== src/Rollouts/Creation.antt =====
-- What making a rollout (createRollout) writes, and that it keeps the jobs sound.
use magnemite.Prelude.{
  find-All, ℕ, suc, ◌≤◌, ◌<◌, ◌≡◌, inl, inr, Option-cases, Bool, true, some, none, arith, String,
  All, All-map, IsKeyed, List, [], ◌∷◌, ◌++◌, if_both, if◌then◌else◌, find, or_else, append-All,
  append-IsKeyed, find-append_some, find-append_none, find_above, length,
}
use magnemite.Fleet.{Fleet, Device, AppTarget, AppVersion, VersionStatus, find_version, find_target}
use magnemite.Store.{Job, Rollout, Db, job_key, rollout_key, find_rollout, skipped, queued}
use magnemite.Store.Laws.{IsSound, JobIsSound, limit_of, log_job_event-IsSound, publish-IsSound}
use magnemite.Rollup.Frames.{recompute_rollout-IsSound}
use magnemite.Rollouts
use magnemite.Jobs.{is_truthy}
use mathlib.Core.Option
use magnemite.Rollouts.{
  Surroundings, CreateRolloutInput, returned, new_job, new_jobs, insert_rollout, log_skipped,
  create_rollout, is_up_to_date, new_rollout, make_rollout, pick_canaries, select_devices,
}

-- What the database promises of the keys of new rows.
pub record IsFresh (w : Surroundings) (db : Db) : Type 0 where
  pub no_rollout : find_rollout w.rollout_key db ≡ none
  pub jobs_below : All (λ j. job_key j < w.first_job_key) db.jobs

-- What the schema of the input and the registry promise: a rollout allows an attempt at least.
abbrev pub Allows : CreateRolloutInput → AppTarget → Type 0
Allows input target = 0 < or_else input.max_attempts target.max_attempts

module _ (w : Surroundings) (canaries : List ℕ) (skip : Bool) (target : AppTarget)
    (version : AppVersion) where
  new_jobs-above :
      (n m : ℕ) (ds : List Device)
      → n ≤ m
      → All (λ j. n ≤ job_key j) (new_jobs w m canaries skip target version ds)
  unfolding new_jobs
  new_jobs-above n m [] le = tt
  new_jobs-above n m (d ∷ ds) le = (le, new_jobs-above n (suc m) ds (omega arith))

  new_jobs-IsKeyed :
      (m : ℕ) (ds : List Device) → IsKeyed job_key (new_jobs w m canaries skip target version ds)
  unfolding new_jobs
  new_jobs-IsKeyed m [] = tt
  new_jobs-IsKeyed m (d ∷ ds) = (
    find_above job_key m (suc m) _ (omega arith) (new_jobs-above (suc m) (suc m) ds (omega arith)),
    new_jobs-IsKeyed (suc m) ds,
  )

  new_job-JobIsSound :
      (limit : ℕ → ℕ) (m : ℕ) (d : Device)
      → 0 < limit w.rollout_key
      → JobIsSound limit (new_job w m canaries skip target version d)
  unfolding new_job
  new_job-JobIsSound limit m d h = row (is_up_to_date skip target version d)
    where
      row :
          (b : Bool)
          → JobIsSound limit (record (new_job w m canaries skip target version d) {
            state = if b then skipped else queued;
            finished_at = if b then some w.now else none;
          })
      row b = ground arith

  new_jobs-All :
      (limit : ℕ → ℕ) (m : ℕ) (ds : List Device)
      → 0 < limit w.rollout_key
      → All (JobIsSound limit) (new_jobs w m canaries skip target version ds)
  unfolding new_jobs
  new_jobs-All limit m [] h = tt
  new_jobs-All limit m (d ∷ ds) h =
      (new_job-JobIsSound limit m d h, new_jobs-All limit (suc m) ds h)

-- A rollout with a new key changes no limit of a job that has one.
limit_of-append :
    (rs : List Rollout) (r : Rollout) (k : ℕ)
    → 0 < limit_of rs k
    → limit_of (rs ++ r ∷ []) k ≡ limit_of rs k
limit_of-append rs r k h = elim (Option-cases (find rollout_key k rs)) [
  | inl n ↦
      let z : 0 < or_else (Option.map (λ (q : Rollout). q.max_attempts) none) 0 = rw n at h in
      absurd (omega arith)
  | inr (q, e) ↦ rw (e, find-append_some rollout_key k rs (r ∷ []) e)
]

JobIsSound-append :
    (rs : List Rollout) (r : Rollout) (j : Job)
    → JobIsSound (limit_of rs) j
    → JobIsSound (limit_of (rs ++ r ∷ [])) j
JobIsSound-append rs r j s =
    let same = limit_of-append rs r j.rollout_id s.retriable in
    record {
      progress_le = s.progress_le;
      retriable = rw same s.retriable;
      tries_le = rw same s.tries_le;
      dated = s.dated;
    }

log_skipped-IsSound :
    (v : String) (js : List Job) (db : Db) → IsSound db → IsSound (log_skipped v js db)
unfolding log_skipped
log_skipped-IsSound v [] db h = h
log_skipped-IsSound v (j ∷ js) db h =
    log_skipped-IsSound v js _
      (if_both IsSound (Rollouts.is_skipped j.state) _ _ (log_job_event-IsSound _ _ _ _ _ h) h)

module _ (w : Surroundings) (input : CreateRolloutInput) (target : AppTarget) (version : AppVersion)
    (canaries : List ℕ) (db : Db) (fresh : IsFresh w db) (allows : Allows input target) where
  abbrev made : Rollout
  made = new_rollout w input target version canaries

  made_limit : limit_of (db.rollouts ++ made ∷ []) w.rollout_key ≡ made.max_attempts
  unfolding new_rollout find
  made_limit =
      rw (find-append_none rollout_key w.rollout_key db.rollouts (made ∷ []) fresh.no_rollout)
        (ground arith)

  insert_rollout-IsSound :
      (skip : Bool) (ds : List Device)
      → IsSound db
      → IsSound
          (insert_rollout made (new_jobs w w.first_job_key canaries skip target version ds) db)
  unfolding insert_rollout
  insert_rollout-IsSound skip ds h =
      let js = new_jobs w w.first_job_key canaries skip target version ds in
      let limit = limit_of (db.rollouts ++ made ∷ []) in
      record {
        keyed =
            append-IsKeyed job_key w.first_job_key db.jobs js fresh.jobs_below
              (new_jobs-above w canaries skip target version w.first_job_key w.first_job_key ds
                (omega arith))
              h.keyed (new_jobs-IsKeyed w canaries skip target version w.first_job_key ds);
        sound =
            append-All (JobIsSound limit) db.jobs js
              (All-map (JobIsSound (limit_of db.rollouts)) (JobIsSound limit) db.jobs
                (λ j. JobIsSound-append db.rollouts made j) h.sound)
              (new_jobs-All w canaries skip target version limit w.first_job_key ds
                (rw made_limit (unfold new_rollout in allows)));
      }

make_rollout-IsSound :
    (w : Surroundings) (input : CreateRolloutInput) (target : AppTarget) (version : AppVersion)
    (ds : List Device) (db : Db)
    → IsFresh w db
    → Allows input target
    → IsSound db
    → IsSound (make_rollout w input target version ds db).0
unfolding make_rollout
make_rollout-IsSound w input target version ds db fresh allows h =
    let skip = or_else input.skip_up_to_date true in
    let canaries = pick_canaries w skip target version (or_else input.canary_count 0) ds in
    recompute_rollout-IsSound w.now _ _ (
      publish-IsSound _ _ (
        log_skipped-IsSound version.version
          (new_jobs w w.first_job_key canaries skip target version ds) _
          (insert_rollout-IsSound w input target version canaries db fresh allows skip ds h)))

-- What a success of `createRollout` says: the version is ready and cached, and a device was selected.
pub record IsMade (w : Surroundings) (input : CreateRolloutInput) (fleet : Fleet) (db : Db)
    (out : Db × Rollout × List Job) : Type 0 where
  pub version : AppVersion
  pub target : AppTarget
  pub found : find_version input.app_version_id fleet ≡ some version
  pub targeted : find_target version.app_target_id fleet ≡ some target
  pub ready : version.status ≡ VersionStatus.ready
  pub cached : (is_truthy version.artifact_path ≡ true) × (is_truthy version.sha256 ≡ true)
  pub selected : 0 < length (select_devices w input.device_ids fleet)
  pub written :
      out ≡ make_rollout w input target version (select_devices w input.device_ids fleet) db

pub create_rollout-IsMade :
    (w : Surroundings) (input : CreateRolloutInput) (fleet : Fleet) (db : Db)
    (out : Db × Rollout × List Job)
    → create_rollout w input fleet db ≡ returned out
    → IsMade w input fleet db out
unfolding create_rollout
create_rollout-IsMade w input fleet db out e =
    elim (Option-cases (find_version input.app_version_id fleet)) [
      | inl n ↦ absurd (ground arith)
      | inr (v, ev) ↦ elim (Option-cases (find_target v.app_target_id fleet)) [
        | inl n ↦ absurd (ground arith)
        | inr (t, et) ↦ made_of v t ev et
      ]
    ]
  where
    made_of :
        (v : AppVersion) (t : AppTarget)
        → find_version input.app_version_id fleet ≡ some v
        → find_target v.app_target_id fleet ≡ some t
        → IsMade w input fleet db out
    made_of v t ev et = record {
      version = v;
      target = t;
      found = ev;
      targeted = et;
      ready = ground arith;
      cached = (ground arith, ground arith);
      selected = ground arith;
      written = ground arith;
    }

-- Making a rollout keeps a sound database sound, if the keys of the new rows are fresh and the
-- input or every target allows an attempt.
pub create_rollout-IsSound :
    (w : Surroundings) (input : CreateRolloutInput) (fleet : Fleet) (db : Db)
    (out : Db × Rollout × List Job)
    → create_rollout w input fleet db ≡ returned out
    → IsFresh w db
    → All (Allows input) fleet.targets
    → IsSound db
    → IsSound out.0
create_rollout-IsSound w input fleet db out e fresh allows h =
    let m = create_rollout-IsMade w input fleet db out e in
    rw m.written (
      make_rollout-IsSound w input m.target m.version _ db fresh
        (find-All (λ (t : AppTarget). t.id) (Allows input) m.version.app_target_id fleet.targets
          allows m.targeted)
        h)
