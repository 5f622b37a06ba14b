-- ===== src/Tests.antt =====
-- Runs of the operations on a small fleet, by component.
mod Samples
mod Jobs
mod Rollouts
mod Scheduler
mod Session
mod Fleet
mod Rename
mod Template
mod Pagination
mod Monitor
mod Notify
mod Apk
mod AgentRelease
mod Metrics
mod Sources
mod Rotom
