-- ===== src/Sources/Polling.antt =====
-- apps/hub/src/services/sources/poller.ts: the pass over the apps and their feeds. What a fetch gives
-- is a parameter; the apps whose automatic update is checked are listed, newest first.
use magnemite.Prelude.{
  ℕ, suc, ◌+◌, ◌==◌, if◌then◌else◌, Bool, true, false, not, ◌&&◌, Option, none, some, is_some,
  String, str_eq, List, [], ◌∷◌, ◌++◌, update,
}
use Prim.Native.String.{◌++◌ as join_text}
use magnemite.Store.{BusEvent, version}
use magnemite.Fleet.{VersionStatus, discovered}
use magnemite.Sources.{VersionSource, PollTarget, DiscoveredVersion}

-- `a ?? b`, which may both be null.
abbrev pub coalesce {ℓ} : {A : Type ℓ} → Option A → Option A → Option A
coalesce none b = b
coalesce (some a) b = some a

abbrev pub build_key : DiscoveredVersion → String
build_key item = join_text item.version (join_text "|" item.arch)

abbrev pub fill_in : DiscoveredVersion → DiscoveredVersion → DiscoveredVersion
fill_in seen item = record seen {
  md5 = coalesce seen.md5 item.md5;
  build_code = coalesce seen.build_code item.build_code;
  published_at = coalesce seen.published_at item.published_at;
}

-- A round of the loop: a first sighting, or what it was missing.
unfoldable pub see : DiscoveredVersion → List DiscoveredVersion → List DiscoveredVersion
see item [] = item ∷ []
see item (seen ∷ rest) =
    let others = see item rest in
    if str_eq (build_key seen) (build_key item) then fill_in seen item ∷ rest else seen ∷ others

unfoldable pub see_all : (by_build found : List DiscoveredVersion) → List DiscoveredVersion
unfolding see
see_all by_build [] = by_build
see_all by_build (item ∷ found) = see_all (see item by_build) found

unfoldable pub dedupe : List DiscoveredVersion → List DiscoveredVersion
unfolding see_all
dedupe found = see_all [] found

-- A row of AppVersion, less the columns that neither the feeds nor the poller read or write.
pub record BuildRow : Type 0 where
  pub id : ℕ
  pub app_target_id : ℕ
  pub version : String
  pub arch : String
  pub build_code : Option String
  pub source : VersionSource
  pub feed_id : Option ℕ
  pub remote_url : String
  pub filename : String
  pub size_bytes : ℕ
  pub md5 : Option String
  pub published_at : Option ℕ
  pub status : VersionStatus
  pub cache_progress : ℕ
  pub error : Option String
  pub approved : Bool

pub record Shelf : Type 0 where
  pub builds : List BuildRow
  pub next_id : ℕ
  pub bus : List BusEvent

abbrev pub build_row_key : BuildRow → ℕ
build_row_key b = b.id

abbrev pub is_manual : BuildRow → Bool
is_manual b = elim b.source [ VersionSource.manual ↦ true | VersionSource.mirror ↦ false ]

abbrev pub is_cached : BuildRow → Bool
is_cached b = elim b.status [ VersionStatus.ready ↦ true | _ ↦ false ]

abbrev pub has_failed : BuildRow → Bool
has_failed b = elim b.status [ VersionStatus.failed ↦ true | _ ↦ false ]

abbrev pub is_same_build : (target_id : ℕ) → DiscoveredVersion → BuildRow → Bool
is_same_build target_id item b =
    b.app_target_id == target_id && str_eq b.version item.version && str_eq b.arch item.arch

-- `findUnique` by the app, the version and the ABI.
unfoldable pub find_build_row :
    (target_id : ℕ) → DiscoveredVersion → List BuildRow → Option BuildRow
find_build_row target_id item [] = none
find_build_row target_id item (b ∷ bs) =
    if is_same_build target_id item b then some b else find_build_row target_id item bs

abbrev pub new_row : (id : ℕ) → PollTarget → DiscoveredVersion → BuildRow
new_row id target item = record {
  id = id;
  app_target_id = target.id;
  version = item.version;
  arch = item.arch;
  build_code = item.build_code;
  source = item.source;
  feed_id = some item.feed_id;
  remote_url = item.remote_url;
  filename = item.filename;
  size_bytes = item.size_bytes;
  md5 = item.md5;
  published_at = item.published_at;
  status = discovered;
  cache_progress = 0;
  error = none;
  approved = target.auto_approve;
}

abbrev pub has_moved : DiscoveredVersion → BuildRow → Bool
has_moved item b = not (str_eq b.remote_url item.remote_url) && has_failed b

abbrev pub refreshed : DiscoveredVersion → BuildRow → BuildRow
refreshed item b =
    let current = record b {
      feed_id = some item.feed_id;
      remote_url = item.remote_url;
      filename = item.filename;
      size_bytes = item.size_bytes;
      md5 = coalesce item.md5 b.md5;
      build_code = coalesce item.build_code b.build_code;
      published_at = coalesce item.published_at b.published_at;
    } in
    if has_moved item b
    then record current { status = discovered; error = none; cache_progress = 0 }
    else current

abbrev update_row : ℕ → (BuildRow → BuildRow) → Shelf → Shelf
update_row k f s = record s { builds = update build_row_key k f s.builds }

abbrev tell : ℕ → Shelf → Shelf
tell k s = record s { bus = version k ∷ s.bus }

-- What a pass does with a build that is there.
unfoldable pub refresh : DiscoveredVersion → BuildRow → Shelf → Shelf
unfolding update
refresh item b s =
    if is_cached b && not (is_manual b)
    then (if is_some b.feed_id
        then s
        else tell b.id (update_row b.id (λ r. record r { feed_id = some item.feed_id }) s))
    else (if is_manual b
        then s
        else let stored = update_row b.id (refreshed item) s in
          if has_moved item b then tell b.id stored else stored)

unfoldable pub store_item : PollTarget → DiscoveredVersion → Shelf → Shelf × ℕ
unfolding find_build_row refresh
store_item target item s = elim (find_build_row target.id item s.builds) [
  | none ↦ (
    record s {
      builds = s.builds ++ new_row s.next_id target item ∷ [];
      next_id = suc s.next_id;
      bus = version s.next_id ∷ s.bus;
    },
    1,
  )
  | some b ↦ (refresh item b s, 0)
]

-- The builds, and how many are new.
unfoldable pub store_items : PollTarget → List DiscoveredVersion → Shelf → Shelf × ℕ
unfolding store_item
store_items target [] s = (s, 0)
store_items target (item ∷ items) s =
    let (stored, new) = store_item target item s in
    let (rest, more) = store_items target items stored in (rest, new + more)
