-- ===== src/Tests/Scheduler.antt =====
-- A tick at concrete rows.
use magnemite.Prelude.{
  ◌≡◌, ◌≤◌, ◌+◌, ◌==◌, ◌&&◌, Bool, count_if, max, refl, some, find, sort, update,
}
use magnemite.Store.{Job, find_job, is_active, log_job_event, update_job}
use mathlib.Core.List.{filter_map}
use magnemite.Queue.{candidates}
use magnemite.Rollup.{recompute_rollout, commit, decide}
use magnemite.Install.{attach_config}
use magnemite.Jobs.{retry_job, set_retried}
use magnemite.Scheduler.{
  dispatch_queued, dispatch_each, dispatch_one, send_install, count_active, count_groups,
  is_skipped,
}
use magnemite.Scheduler.Caps.{dispatch_queued_cap, dispatch_queued_rollout_cap}
use magnemite.Scheduler.Groups.{dispatch_queued_group_cap}
use magnemite.Scheduler.Fate.{Fate}
use magnemite.Scheduler.Closed.{dispatch_queued-closed, retry_job-closed}
use magnemite.Tests.Samples.{
  db, now, world, fleet, farm, canary_rollout, ended_rollout, given_up, db-IsKeyed,
}

dispatch_queued_cap_example :
    count_active (dispatch_queued world fleet 5 db).jobs ≤ max 5 (count_active db.jobs)
dispatch_queued_cap_example = dispatch_queued_cap world fleet db db-IsKeyed 5

dispatch_queued_group_cap_example :
    count_groups fleet (dispatch_queued world fleet 5 db).jobs 1
    ≤ max 2 (count_groups fleet db.jobs 1)
unfolding find
dispatch_queued_group_cap_example =
    dispatch_queued_group_cap world fleet db db-IsKeyed 1 farm 2 refl refl 5

dispatch_queued-closed_example : find_job 3 (dispatch_queued world fleet 5 db) ≡ some given_up
unfolding find
dispatch_queued-closed_example =
    dispatch_queued-closed world fleet 5 3 db given_up ended_rollout db-IsKeyed refl refl refl

retry_job-closed_example :
    (find_job 3 (retry_job now 3 db).0 ≡ some (set_retried now given_up))
    × (find_job 3 (dispatch_queued world fleet 5 (retry_job now 3 db).0)
        ≡ some (set_retried now given_up))
unfolding find
retry_job-closed_example =
    retry_job-closed world fleet 5 now 3 db given_up ended_rollout db-IsKeyed refl refl refl refl

-- Active jobs of the rollout that allows one.
abbrev of_one : Job → Bool
of_one j = is_active j.state && j.rollout_id == 1

dispatch_queued_rollout_cap_example :
    count_if of_one (dispatch_queued world fleet 5 db).jobs ≤ count_if of_one db.jobs + 1
unfolding find
dispatch_queued_rollout_cap_example =
    dispatch_queued_rollout_cap world fleet db db-IsKeyed 1 canary_rollout 1 5 refl refl

-- One job of the rollout is in flight before the tick, and a second one after it.
one_in_flight : count_if of_one db.jobs ≡ 1
one_in_flight = refl

two_in_flight : count_if of_one (dispatch_queued world fleet 5 db).jobs ≡ 2
unfolding dispatch_queued dispatch_each candidates sort filter_map find dispatch_one is_skipped
    count_groups send_install recompute_rollout log_job_event update_job attach_config commit decide
    update
two_in_flight = refl
