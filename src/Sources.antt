-- ===== src/Sources.antt =====
-- apps/hub/src/services/sources/feed.ts: what a feed's index lists for an app. The index that a fetch
-- gives and the reading of a date are parameters.
pub mod Polling
pub mod Stats
pub mod Pass
pub mod Kept
pub mod Keeping
pub mod Dedupe
pub mod Failing
use magnemite.Prelude.{
  ℕ, if◌then◌else◌, ◌==◌, Bool, false, Option, none, some, String, str_eq, List, [], ◌∷◌, keep,
  trim, chars,
}
use Prim.Native.Char.{Char, code}
use Prim.Native.String.{◌++◌ as join_text}
use text.Mathlib.Text.{starts_with}
use magnemite.Jobs.{is_truthy}

pub data VersionSource : Type 0 where
  mirror manual : VersionSource

pub record FeedEntry : Type 0 where
  pub filename : String
  pub size : ℕ
  pub arch : String
  pub version : String
  pub last_modified : Option String
  pub md5_hash : Option String
  pub package_name : Option String
  pub version_code : Option String
  pub url : Option String

pub record SourceFeed : Type 0 where
  pub id : ℕ
  pub name : String
  pub base_url : Option String
  pub enabled : Bool
  pub priority : ℕ
  pub poll_minutes : ℕ

pub record PollTarget : Type 0 where
  pub id : ℕ
  pub package_name : String
  pub arch : String
  pub enabled : Bool
  pub manual : Bool
  pub auto_approve : Bool
  pub feeds : List SourceFeed

pub record DiscoveredVersion : Type 0 where
  pub source : VersionSource
  pub feed_id : ℕ
  pub version : String
  pub build_code : Option String
  pub arch : String
  pub filename : String
  pub remote_url : String
  pub size_bytes : ℕ
  pub md5 : Option String
  pub published_at : Option ℕ

abbrev is_for : PollTarget → FeedEntry → Bool
is_for target entry =
    if str_eq entry.arch target.arch
    then elim entry.package_name [
      | none ↦ starts_with entry.filename target.package_name
      | some name ↦
          if is_truthy (some name)
          then str_eq name target.package_name
          else starts_with entry.filename target.package_name
    ]
    else false

unfoldable pub entries_for_target : List FeedEntry → PollTarget → List FeedEntry
entries_for_target entries target = keep (is_for target) entries

unfoldable pub empty_to_null : Option String → Option String
unfolding trim
empty_to_null none = none
empty_to_null (some value) =
    let trimmed = trim value in if is_truthy (some trimmed) then some trimmed else none

abbrev ends_in_slash : List Char → Bool
ends_in_slash [] = false
ends_in_slash (c ∷ []) = code c == b'/'
ends_in_slash (c ∷ d ∷ cs) = ends_in_slash (d ∷ cs)

abbrev with_slash : String → String
with_slash base = if ends_in_slash (chars base) then base else join_text base "/"

abbrev url_in : Option String → FeedEntry → Option String
url_in none entry = none
url_in (some base) entry =
    if is_truthy (some base) then some (join_text (with_slash base) entry.filename) else none

unfoldable pub remote_url_of : SourceFeed → FeedEntry → Option String
remote_url_of feed entry = elim entry.url [
  | none ↦ url_in feed.base_url entry
  | some url ↦ some url
]

abbrev date_of : (read_date : String → ℕ) → Option String → Option ℕ
date_of read_date none = none
date_of read_date (some text) = if is_truthy (some text) then some (read_date text) else none

abbrev found_at : (read_date : String → ℕ) → SourceFeed → FeedEntry → String → DiscoveredVersion
found_at read_date feed entry url = record {
  source = mirror;
  feed_id = feed.id;
  version = entry.version;
  build_code = empty_to_null entry.version_code;
  arch = entry.arch;
  filename = entry.filename;
  remote_url = url;
  size_bytes = entry.size;
  md5 = empty_to_null entry.md5_hash;
  published_at = date_of read_date entry.last_modified;
}

unfoldable pub list_entries :
    (read_date : String → ℕ) → SourceFeed → List FeedEntry → List DiscoveredVersion
unfolding remote_url_of
list_entries read_date feed [] = []
list_entries read_date feed (entry ∷ entries) =
    let rest = list_entries read_date feed entries in
    elim (remote_url_of feed entry) [
      | none ↦ rest
      | some url ↦ if is_truthy (some url) then found_at read_date feed entry url ∷ rest else rest
    ]

unfoldable pub poll_feed :
    (read_date : String → ℕ) → List FeedEntry → SourceFeed → PollTarget → List DiscoveredVersion
unfolding entries_for_target list_entries
poll_feed read_date index feed target =
    list_entries read_date feed (entries_for_target index target)
