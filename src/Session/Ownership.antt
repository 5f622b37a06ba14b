-- ===== src/Session/Ownership.antt =====
-- A box has no say in the jobs of another, and its messages keep the jobs sound.
use magnemite.Prelude.{
  arith, eq_of_some, update_of_find-none, ℕ, ◌≡◌, ◌==◌, refl, sym, subst, inl, inr, Option-cases,
  Option, Bool, true, false, some, none, if_both,
}
use magnemite.Store.{agent_said, Job, Db, is_active, job_key, find_job, update_job, log_job_event}
use magnemite.Store.Laws.{
  IsSound, JobIsSound, find_job-IsSound, update_job-IsSound, log_job_event-IsSound,
}
use magnemite.Jobs.{apply_progress, complete_job}
use magnemite.Jobs.Invariant.{apply_progress-IsSound, complete_job-IsSound}
use magnemite.Session.{
  AgentMessage, heartbeat, job_progress, job_result, log, handle, assert_job_belongs_to,
  set_heartbeat,
}

-- The job that a report is about.
abbrev pub subject : AgentMessage → Option ℕ
subject (heartbeat current) = none
subject (job_progress k state progress message) = some k
subject (job_result k outcome) = some k
subject (log k level message) = k

foreign :
    (device_id k : ℕ) (fn : Db → Db) (db : Db) (j : Job)
    → find_job k db ≡ some j
    → (j.device_id == device_id) ≡ false
    → assert_job_belongs_to device_id k fn db ≡ db
unfolding assert_job_belongs_to
foreign device_id k fn db j e n = rw (e, assert_job_belongs_to) (rw n refl)

moved : (i k : ℕ) (db : Db) (j : Job) → i ≡ k → find_job k db ≡ some j → find_job i db ≡ some j
moved i k db j s e = subst (λ x. find_job x db ≡ some j) (sym s) e

-- A progress report, a final report or a log line of a box about a job of another box changes
-- nothing.
pub handle_foreign :
    (now device_id k : ℕ) (m : AgentMessage) (db : Db) (j : Job)
    → subject m ≡ some k
    → find_job k db ≡ some j
    → (j.device_id == device_id) ≡ false
    → handle now device_id m db ≡ db
unfolding handle
handle_foreign now device_id k (heartbeat current) db j s e n = absurd (cc)
handle_foreign now device_id k (job_progress i state progress message) db j s e n =
    foreign device_id i (apply_progress now i state progress message) db j
      (moved i k db j (eq_of_some s) e) n
handle_foreign now device_id k (job_result i outcome) db j s e n =
    foreign device_id i (complete_job now i outcome) db j (moved i k db j (eq_of_some s) e) n
handle_foreign now device_id k (log none level message) db j s e n = refl
handle_foreign now device_id k (log (some i) level message) db j s e n =
    foreign device_id i (log_job_event i (agent_said message) level none) db j
      (moved i k db j (eq_of_some s) e) n

-- The wire lets a progress report name any state; the agent sends those that it moves through.
abbrev pub names_active : AgentMessage → Bool
names_active (job_progress k state progress message) = is_active state
names_active _ = true

assert_job_belongs_to-IsSound :
    (device_id k : ℕ) (fn : Db → Db) (db : Db)
    → ((d : Db) → IsSound d → IsSound (fn d))
    → IsSound db
    → IsSound (assert_job_belongs_to device_id k fn db)
unfolding assert_job_belongs_to
assert_job_belongs_to-IsSound device_id k fn db f h = elim (Option-cases (find_job k db)) [
  | inl e ↦ rw (e, assert_job_belongs_to) h
  | inr (j, e) ↦
      rw (e, assert_job_belongs_to) (if_both IsSound (j.device_id == device_id) _ _ (f db h) h)
]

set_heartbeat-JobIsSound :
    (limit : ℕ → ℕ) (now : ℕ) (j : Job)
    → JobIsSound limit j
    → JobIsSound limit (set_heartbeat now j)
set_heartbeat-JobIsSound limit now j s =
    if_both (JobIsSound limit) (is_active j.state) _ _
      (record {
        progress_le = s.progress_le;
        retriable = s.retriable;
        tries_le = ground (arith, s.tries_le);
        dated = s.dated;
      })
      s

update_heartbeat-IsSound :
    (now k : ℕ) (db : Db) → IsSound db → IsSound (update_job k (set_heartbeat now) db)
unfolding update_job
update_heartbeat-IsSound now k db h = elim (Option-cases (find_job k db)) [
  | inl e ↦ rw (update_of_find-none job_key k (set_heartbeat now) db.jobs e) h
  | inr (j, e) ↦
      update_job-IsSound k (set_heartbeat now) db
        (λ row. if_both (λ (i : Job). i.id ≡ row.id) (is_active row.state) _ _ refl refl) e
        (set_heartbeat-JobIsSound _ now j (find_job-IsSound k db e h)) h
]

pub handle-IsSound :
    (now device_id : ℕ) (m : AgentMessage) (db : Db)
    → names_active m ≡ true
    → IsSound db
    → IsSound (handle now device_id m db)
unfolding handle
handle-IsSound now device_id (heartbeat none) db a h = h
handle-IsSound now device_id (heartbeat (some k)) db a h = update_heartbeat-IsSound now k db h
handle-IsSound now device_id (job_progress k state progress message) db a h =
    assert_job_belongs_to-IsSound device_id k _ db
      (λ d. apply_progress-IsSound now k state progress message d a) h
handle-IsSound now device_id (job_result k outcome) db a h =
    assert_job_belongs_to-IsSound device_id k _ db (complete_job-IsSound now k outcome) h
handle-IsSound now device_id (log none level message) db a h = h
handle-IsSound now device_id (log (some k) level message) db a h =
    assert_job_belongs_to-IsSound device_id k _ db
      (λ d. log_job_event-IsSound k (agent_said message) level none d) h
