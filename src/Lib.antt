-- ===== src/Lib.antt =====
-- Magnemite: the hub that updates the apps on a fleet of Android boxes. The hub keeps rollouts and
-- their jobs in a database; the boxes' agents report on the jobs over a socket, an operator makes,
-- cancels, resumes and retries them, and a scheduler dispatches what is queued every few seconds.
--
-- Store (packages/db/prisma/schema.base.prisma, apps/hub/src/bus.ts): the rows of jobs and
-- rollouts, the job log and the messages of the bus, as the state `Db` that the operations pass on.
-- Fleet: the rows of devices, groups, targets and versions, which they read. `find` is findUnique,
-- `update` is update by a key, and a loop of updates over the rows of a query is `update_each` of
-- Prelude/Tables/Sweep.
--
-- Jobs (apps/hub/src/services/jobs.ts): apply_progress, complete_job, retry_job, retry_failed_jobs,
-- cancel_job, requeue_stalled and the backoff, each by the name of its function. Rollup:
-- recomputeRollout, split into what it decides (`decide`) and what it writes (`commit`).
--
-- Rollouts (apps/hub/src/services/rollouts.ts): create_rollout with its errors as values,
-- cancel_rollout, resume_rollout. The keys of new rows, the order of names in the database and in
-- the runtime, and who is online are parameters (`Surroundings`).
--
-- Queue, Window, Install and Scheduler (apps/hub/src/services/scheduler.ts): the query for
-- candidates with its joins, order and limit; the install window; the message to the box; and the
-- tick: promotion after the soak, stalled jobs, and the dispatch loop with its caps. The clock, the
-- sockets and the rendered config of a box (apps/hub/src/services/deviceConfig.ts) are parameters
-- (`World`).
--
-- Session (apps/hub/src/ws/deviceSocket.ts): the messages of a box about its jobs and reconcileJobs
-- when a box comes back. Hub: these and the routes of apps/hub/src/routes/internal.ts on rollouts
-- and jobs as commands, and the databases that they reach.
--
-- Registry (apps/hub/src/registry.ts): the Map of connections. Inventory
-- (apps/hub/src/services/devices.ts): the packages that a heartbeat reports, the sweep of silent
-- boxes and the packages that a box is asked about. Versions
-- (apps/hub/src/services/sources/types.ts): compareVersions over the characters of two versions;
-- AutoUpdate (apps/hub/src/services/autoUpdate.ts): the decision whether and what to roll out.
--
-- Rename (apps/web/src/lib/rename-pattern.ts): the pattern language for naming many boxes
-- (Rename/Pattern) and the two plans; the order of texts and lower case are parameters (`Locale`),
-- a length counts characters, and the fuel of `decimal` is one more than the number, which has
-- fewer digits than that.
--
-- Template (apps/hub/src/services/deviceConfig.ts): the scanner's config for a box, from the
-- template of its group; a text is the list of its code points, JSON.parse is a parameter, and
-- JSON.stringify on a string is written out.
--
-- Pagination (apps/web/src/lib/table-pagination.ts): what useTablePagination returns for the page
-- in its state.
--
-- Monitor (apps/hub/src/services/monitor.ts, deviceCommands.ts): the readings of the boxes;
-- Monitor/Rules chooses the rules of a box, Monitor/Signals reads a signal, Monitor/Actions runs an
-- action and has the circuit breakers, Monitor/Records has the rows of rules on boxes and the
-- events, Monitor/Ladder counts failures and climbs the ladder, Monitor/Pass goes over the fleet,
-- Monitor/Seeds has the first rules. What is asked of boxes and of Rotom is kept as a list of
-- calls. The answers of boxes, of Rotom and of the notifier, and the minute of the local day, are a
-- parameter (`Outside`). A probe's fields are as its JSON has them, a rate is in thousandths, and a
-- package name has no dollar sign, which replaceAll would read.
--
-- Zip (apps/hub/src/services/zip.ts): the bytes of the bundle that an uploaded APK is wrapped in.
-- Apk (packages/apk/src/index.ts): the zip directory and its entries, for a reader that has the
-- bytes at hand; what reads past the end throws, which is `none`. Bytes are numbers below 256,
-- zlib's checksum and inflating are parameters.
--
-- AgentRelease (apps/hub/src/services/agentRelease.ts): whether a box is told to update its agent.
-- The await of the settings in maybeUpdateAgent parts it into `consider` and `offer`, and
-- AgentRelease/Slots has the steps of the hub in any order.
--
-- Metrics (apps/hub/src/services/metrics.ts): the samples kept of heartbeats, with the two inserts
-- and their failures, and the prune in batches, whose loop is on fuel (each round but the last
-- removes a whole batch of old rows). Bytes are whole numbers, and the tables of samples share one
-- counter of keys.
--
-- Sources (apps/hub/src/services/sources/feed.ts, poller.ts): what an index lists for an app;
-- Sources/Polling merges the sightings of a build and stores them, Sources/Stats remembers what
-- each feed did, Sources/Pass goes over the apps and their feeds and has the tick. The index that a
-- fetch gives and the reading of a date are parameters (`Outside`), sizes are whole numbers.
--
-- Notify (apps/hub/src/services/notify.ts): whether an alert of the monitor goes out, over the
-- monitor's events; Discord's answers are a parameter (`Webhook`). The monitor takes the outcome as
-- a parameter, and Notify/Spacing puts the two together.
--
-- Rotom (apps/hub/src/services/rotom.ts): which box a device of Rotom's is, the workers of a box
-- folded into three numbers, and the pass that writes the boxes' rows, counts their misses and
-- keeps the history, with its loop. Rotom's answer, lower case and the order of the workers' ids
-- are a parameter (`SyncPass`). Rates and durations are in thousandths, so that two decimals are
-- tens of them; the other numbers of the answer are whole.
--
-- Keys and instants are natural numbers, an instant in milliseconds; one call of an operation sees
-- one instant, given as `now`. An operation runs to its end before the next begins: the awaits
-- inside one are not interleaved with others, except in AgentRelease. A row that a foreign key
-- requires is looked up, and the operation does nothing without it; where the database would throw
-- on an `update` of a row that is not there, the table stays as it is. Progress and backoff are
-- natural numbers, as the schemas of the wire and of the forms have them. The other loops are over
-- lists and need no fuel; the candidates are cut at 500 as the query is.
--
-- Not modelled: the timers and the flag that keeps one tick from running in another, a database
-- error inside a prune of metrics, health, the text of alerts, artifacts and uploads, the requests
-- to Rotom, the reading of the agent's release from the image, the rest of the web interface, the
-- documentation site, and the agent itself, which is a program in Go. The texts of log lines are
-- data types (`Message`, `JobError`).
pub mod Prelude
pub mod Store
pub mod Fleet
pub mod Rollup
pub mod Rotom
pub mod Jobs
pub mod Rollouts
pub mod Queue
pub mod Window
pub mod Install
pub mod Scheduler
pub mod Session
pub mod Hub
pub mod Registry
pub mod Inventory
pub mod Versions
pub mod AutoUpdate
pub mod Rename
pub mod Template
pub mod Pagination
pub mod Monitor
pub mod Notify
pub mod Zip
pub mod Apk
pub mod AgentRelease
pub mod Metrics
pub mod Sources
pub mod Tests
