-- ===== src/Fleet.antt =====
-- The rows that rollouts are made from and dispatched to, after
-- packages/db/prisma/schema.base.prisma: devices with the packages seen on them, their groups, the
-- watched apps and their versions. The operations of Rollouts and Scheduler only read them.
use magnemite.Prelude.{ℕ, Bool, Option, String, List, find}

pub data VersionStatus : Type 0 where
  discovered caching ready failed : VersionStatus

pub record DevicePackage : Type 0 where
  pub package_name : String
  pub version_name : Option String

pub record Device : Type 0 where
  pub id : ℕ
  pub name : String
  pub approved : Bool
  pub group_id : Option ℕ
  pub capabilities : List String
  pub packages : List DevicePackage

pub record DeviceGroup : Type 0 where
  pub id : ℕ
  pub max_concurrency : Option ℕ
  pub pre_install_hook : Option String
  pub post_install_hook : Option String
  pub mitm_package_name : Option String

pub record AppTarget : Type 0 where
  pub id : ℕ
  pub package_name : String
  pub window_start : Option String
  pub window_end : Option String
  pub max_attempts : ℕ
  pub retry_backoff_seconds : ℕ

pub record AppVersion : Type 0 where
  pub id : ℕ
  pub app_target_id : ℕ
  pub version : String
  pub status : VersionStatus
  pub artifact_path : Option String
  pub sha256 : Option String
  pub size_bytes : ℕ

pub record Fleet : Type 0 where
  pub devices : List Device
  pub groups : List DeviceGroup
  pub targets : List AppTarget
  pub versions : List AppVersion

abbrev pub find_device : ℕ → Fleet → Option Device
find_device k fleet = find (λ d. d.id) k fleet.devices

abbrev pub find_group : ℕ → Fleet → Option DeviceGroup
find_group k fleet = find (λ g. g.id) k fleet.groups

abbrev pub find_target : ℕ → Fleet → Option AppTarget
find_target k fleet = find (λ t. t.id) k fleet.targets

abbrev pub find_version : ℕ → Fleet → Option AppVersion
find_version k fleet = find (λ v. v.id) k fleet.versions
