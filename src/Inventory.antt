-- ===== src/Inventory.antt =====
-- apps/hub/src/services/devices.ts: what a heartbeat leaves of the packages seen on a box, which
-- boxes count as offline, and which packages a box is asked about. `toBigInt` has read the version
-- codes already.
pub mod Laws
pub mod Sweep
use magnemite.Prelude.{
  ℕ, ◌+◌, ◌*◌, ◌==◌, ltb, if◌then◌else◌, Bool, true, false, not, ◌&&◌, Option, none, some, or_maybe,
  String, str_eq, List, [], ◌∷◌, ◌++◌, any, keep, length, map,
}
use mathlib.Core.List.{filter_map}
use magnemite.Fleet.{AppTarget, DeviceGroup}

-- A row of devicePackage, of one device.
pub record PackageRow : Type 0 where
  pub package_name : String
  pub version_name : Option String
  pub version_code : Option ℕ
  pub installed : Bool

-- A package in a heartbeat.
pub record PackageInfo : Type 0 where
  pub package_name : String
  pub version_name : Option String
  pub version_code : Option ℕ
  pub installed : Bool

unfoldable pub find_package : String → List PackageRow → Option PackageRow
find_package name [] = none
find_package name (r ∷ rs) = if str_eq r.package_name name then some r else find_package name rs

abbrev same_text : Option String → Option String → Bool
same_text none none = true
same_text (some a) (some b) = str_eq a b
same_text _ _ = false

abbrev same_code : Option ℕ → Option ℕ → Bool
same_code none none = true
same_code (some a) (some b) = a == b
same_code _ _ = false

abbrev same_flag : Bool → Bool → Bool
same_flag true b = b
same_flag false b = not b

abbrev known_name : Option PackageRow → Option String
known_name none = none
known_name (some r) = r.version_name

abbrev known_code : Option PackageRow → Option ℕ
known_code none = none
known_code (some r) = r.version_code

-- What the heartbeat says of a package, with what was known where it says nothing.
abbrev pub merged : PackageInfo → Option PackageRow → PackageRow
merged pkg was = record {
  package_name = pkg.package_name;
  version_name = or_maybe pkg.version_name (known_name was);
  version_code = or_maybe pkg.version_code (known_code was);
  installed = pkg.installed;
}

abbrev is_same : PackageRow → Option PackageRow → Bool
is_same row none = false
is_same row (some was) =
    same_text was.version_name row.version_name
    && same_code was.version_code row.version_code
    && same_flag was.installed row.installed

unfoldable pub upsert : PackageRow → List PackageRow → List PackageRow
upsert row [] = row ∷ []
upsert row (r ∷ rs) =
    let rest = upsert row rs in
    if str_eq r.package_name row.package_name then row ∷ rs else r ∷ rest

-- The loop over the packages, `existing` being the rows as they were read before it.
unfoldable pub apply_packages :
    (existing : List PackageRow) → List PackageInfo → List PackageRow → List PackageRow
unfolding find_package upsert
apply_packages existing [] rows = rows
apply_packages existing (pkg ∷ pkgs) rows =
    let row = merged pkg (find_package pkg.package_name existing) in
    apply_packages existing pkgs
      (if is_same row (find_package pkg.package_name existing) then rows else upsert row rows)

unfoldable pub is_reported : List PackageInfo → String → Bool
is_reported pkgs name = any (λ p. str_eq p.package_name name) pkgs

abbrev is_vanished : List PackageRow → List PackageInfo → String → Bool
is_vanished existing pkgs name =
    any (λ r. r.installed && not (is_reported pkgs r.package_name) && str_eq r.package_name name)
      existing

unfoldable pub set_vanished : List PackageRow → List PackageInfo → List PackageRow → List PackageRow
unfolding is_reported
set_vanished existing pkgs [] = []
set_vanished existing pkgs (r ∷ rs) =
    (if is_vanished existing pkgs r.package_name then record r { installed = false } else r)
    ∷ set_vanished existing pkgs rs

-- The packages of a device after a heartbeat, which may hold the whole inventory.
unfoldable pub sync_packages :
    (is_inventory : Bool) → List PackageInfo → List PackageRow → List PackageRow
unfolding apply_packages set_vanished
sync_packages is_inventory pkgs existing =
    let rows = apply_packages existing pkgs existing in
    if is_inventory then set_vanished existing pkgs rows else rows

pub record Presence : Type 0 where
  pub id : ℕ
  pub online : Bool
  pub last_seen_at : Option ℕ

abbrev pub is_stale : (now timeout_seconds : ℕ) → Presence → Bool
is_stale now timeout_seconds d =
    d.online
    && (elim d.last_seen_at [ none ↦ true | some t ↦ ltb (t + timeout_seconds * 1000) now ])

abbrev is_one_of : List Presence → ℕ → Bool
is_one_of ds k = any (λ d. d.id == k) ds

abbrev set_offline : List Presence → List Presence → List Presence
set_offline stale ds = map (λ d. if is_one_of stale d.id then record d { online = false } else d) ds

-- The devices after the sweep, and how many it marked.
unfoldable pub sweep_offline : ℕ → ℕ → List Presence → List Presence × ℕ
sweep_offline now timeout_seconds ds =
    let stale = keep (is_stale now timeout_seconds) ds in
    if length stale == 0 then (ds, 0) else (set_offline stale ds, length stale)

-- `new Set(names)`: the first of each.
unfoldable pub distinct : (seen : List String) → List String → List String
distinct seen [] = []
distinct seen (x ∷ xs) =
    let again = distinct seen xs in
    let fresh = distinct (x ∷ seen) xs in if any (str_eq x) seen then again else x ∷ fresh

-- `trackedPackages`, of the targets that are enabled and of the groups that have a scanner.
unfoldable pub tracked_packages : (enabled : List AppTarget) → List DeviceGroup → List String
unfolding distinct
tracked_packages enabled groups =
    distinct [] (map (λ t. t.package_name) enabled ++ filter_map (λ g. g.mitm_package_name) groups)
