-- ===== src/Rollouts/Plan.antt =====
-- What createRollout promises of the new rows: a job for each selected device, no more canaries than
-- were asked for, and a status that says whether there are any.
use magnemite.Prelude.{
  subst, String, ℕ, suc, min, not, count_if, IsKeyed, keep-IsKeyed, sort-IsKeyed, ◌≡◌, ◌∙◌, ap,
  refl, sym, Bool, true, false, ltb, List, [], ◌∷◌, ◌++◌, length, or_else, if◌then◌else◌, if_both,
}
use magnemite.Fleet.{Fleet, Device, AppTarget, AppVersion}
use magnemite.Store.{
  Job, Rollout, Db, JobState, RolloutStatus, canary, same_status, log_job_event, publish,
}
use magnemite.Rollup.Frames.{jobs-recompute_rollout}
use magnemite.Rollouts.{
  Surroundings, CreateRolloutInput, returned, new_job, new_jobs, insert_rollout, log_skipped,
  is_skipped, create_rollout, is_up_to_date, new_rollout, make_rollout, pick_canaries,
  select_devices,
}
use magnemite.Rollouts.Canaries.{device_key, canary_jobs-length, canary_jobs-min}
use magnemite.Rollouts.Creation.{IsMade, create_rollout-IsMade}

jobs-log_skipped : (v : String) (js : List Job) (db : Db) → (log_skipped v js db).jobs ≡ db.jobs
unfolding log_skipped log_job_event
jobs-log_skipped v [] db = refl
jobs-log_skipped v (j ∷ js) db =
    jobs-log_skipped v js _
    ∙ if_both (λ (d : Db). d.jobs ≡ db.jobs) (is_skipped j.state) _ _ refl refl

-- What is true of a new job, for the device that it is made for.
pub record IsJobFor (w : Surroundings) (skip : Bool) (target : AppTarget) (version : AppVersion)
    (d : Device) (j : Job) : Type 0 where
  pub of_rollout : j.rollout_id ≡ w.rollout_key
  pub of_device : j.device_id ≡ d.id
  pub skipped_if_up_to_date : is_skipped j.state ≡ is_up_to_date skip target version d
  pub untried : j.attempt ≡ 0
  pub to_version : j.to_version ≡ version.version

-- A job for each device, in the order of the devices.
pub data Each (w : Surroundings) (skip : Bool) (target : AppTarget) (version : AppVersion)
    : List Device → List Job → Type 0 where
  nobody : Each w skip target version [] []
  one_more :
      (d : Device) (ds : List Device) (j : Job) (js : List Job)
      → IsJobFor w skip target version d j
      → Each w skip target version ds js
      → Each w skip target version (d ∷ ds) (j ∷ js)

module _ (w : Surroundings) (canaries : List ℕ) (skip : Bool) (target : AppTarget)
    (version : AppVersion) where
  new_job-IsJobFor :
      (k : ℕ) (d : Device)
      → IsJobFor w skip target version d (new_job w k canaries skip target version d)
  unfolding new_job
  new_job-IsJobFor k d = record {
    of_rollout = refl;
    of_device = refl;
    skipped_if_up_to_date = row (is_up_to_date skip target version d);
    untried = refl;
    to_version = refl;
  }
    where
      row : (b : Bool) → is_skipped (if b then JobState.skipped else JobState.queued) ≡ b
      row true = refl
      row false = refl

  new_jobs-Each :
      (k : ℕ) (ds : List Device)
      → Each w skip target version ds (new_jobs w k canaries skip target version ds)
  unfolding new_jobs
  new_jobs-Each k [] = nobody
  new_jobs-Each k (d ∷ ds) = one_more d ds _ _ (new_job-IsJobFor k d) (new_jobs-Each (suc k) ds)

pub record IsPlanned (w : Surroundings) (input : CreateRolloutInput) (fleet : Fleet)
    (target : AppTarget) (version : AppVersion) (db : Db) (out : Db × Rollout × List Job)
    : Type 0 where
  pub each :
      Each w
        (or_else input.skip_up_to_date true)
        target
        version
        (select_devices w input.device_ids fleet)
        out.2
  pub appended : out.0.jobs ≡ db.jobs ++ out.2
  pub as_many :
      count_if (λ j. j.is_canary) out.2
      ≡ min (or_else input.canary_count 0) (count_if (λ j. not (is_skipped j.state)) out.2)
  pub recorded : out.1.canary_count ≡ count_if (λ j. j.is_canary) out.2
  pub gated : same_status out.1.status canary ≡ ltb 0 (count_if (λ j. j.is_canary) out.2)

status_gated : (b : Bool) → same_status (if b then canary else RolloutStatus.running) canary ≡ b
status_gated true = refl
status_gated false = refl

make_rollout-IsPlanned :
    (w : Surroundings) (input : CreateRolloutInput) (fleet : Fleet) (target : AppTarget)
    (version : AppVersion) (db : Db)
    → IsKeyed device_key fleet.devices
    → IsPlanned w input fleet target version db
        (make_rollout w input target version (select_devices w input.device_ids fleet) db)
unfolding make_rollout new_rollout insert_rollout publish select_devices
make_rollout-IsPlanned w input fleet target version db keyed =
    let skip = or_else input.skip_up_to_date true in
    let count = or_else input.canary_count 0 in
    let ds = select_devices w input.device_ids fleet in
    let canaries = pick_canaries w skip target version count ds in
    let js = new_jobs w w.first_job_key canaries skip target version ds in
    let devices_keyed : IsKeyed device_key ds =
      sort-IsKeyed device_key _ _ (keep-IsKeyed device_key _ fleet.devices keyed) in
    let counted = canary_jobs-length w skip target version count w.first_job_key ds devices_keyed in
    record {
      each = new_jobs-Each w canaries skip target version w.first_job_key ds;
      appended =
          jobs-recompute_rollout w.now w.rollout_key _
          ∙ jobs-log_skipped version.version js
              (insert_rollout (new_rollout w input target version canaries) js db);
      as_many = canary_jobs-min w skip target version count w.first_job_key ds devices_keyed;
      recorded = sym counted;
      gated = status_gated (ltb 0 (length canaries)) ∙ ap (ltb 0) (sym counted);
    }

-- Over devices with distinct keys, a rollout that createRollout makes is of a version that is
-- ready and cached, with a job for each selected device in their order, untried and to that
-- version, skipped exactly if the device has it and up-to-date ones are to be skipped; the jobs
-- are appended to the table; the jobs that are canaries are as many as were asked for, or as those
-- not skipped if these are fewer, their number is the row's canary count, and the rollout begins
-- in its canary phase exactly if there are any.
pub create_rollout-IsPlanned :
    (w : Surroundings) (input : CreateRolloutInput) (fleet : Fleet) (db : Db)
    (out : Db × Rollout × List Job)
    → IsKeyed device_key fleet.devices
    → create_rollout w input fleet db ≡ returned out
    → (m : IsMade w input fleet db out) × IsPlanned w input fleet m.target m.version db out
create_rollout-IsPlanned w input fleet db out keyed e =
    let m = create_rollout-IsMade w input fleet db out e in
    (
      m,
      subst (IsPlanned w input fleet m.target m.version db) (sym m.written)
          (make_rollout-IsPlanned w input fleet m.target m.version db keyed),
    )
