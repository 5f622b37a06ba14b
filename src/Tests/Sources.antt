-- ===== src/Tests/Sources.antt =====
-- Two feeds of one app, of which one is down, and builds that are there.
use magnemite.Prelude.{
  ℕ, ◌≡◌, refl, arith, true, false, Option, none, some, String, [], ◌∷◌, if◌then◌else◌, ◌==◌, sort,
  insert_sorted, find, keep, IsSorted, ◌&&◌,
}
use mathlib.Core.List.{Perm}
use magnemite.Fleet.{ready}
use magnemite.Sources.{mirror, FeedEntry, SourceFeed, PollTarget, DiscoveredVersion}
use magnemite.Sources.Polling.{BuildRow, Shelf, dedupe, store_items}
use magnemite.Sources.Pass.{
  Outside, Polling, fails, lists, begin, feeds_for, is_wanted, poll_target, poll_all_sources,
}
use magnemite.Sources.Keeping.{Keeps, poll_all_sources-Keeps}
use magnemite.Sources.Dedupe.{get_build, AreOnce, dedupe_lem}
use magnemite.Sources.Failing.{AreTold, by_priority, listings, poll_target-AreTold}

abbrev feed : ℕ → ℕ → SourceFeed
feed id priority = record {
  id = id;
  name = "feed";
  base_url = some "https://a";
  enabled = true;
  priority = priority;
  poll_minutes = 15;
}

abbrev target : PollTarget
target = record {
  id = 3;
  package_name = "com.a";
  arch = "arm";
  enabled = true;
  manual = false;
  auto_approve = true;
  feeds = feed 1 20 ∷ feed 2 10 ∷ [];
}

abbrev entry : String → FeedEntry
entry v = record {
  filename = "com.a.apkm";
  size = 9;
  arch = "arm";
  version = v;
  last_modified = none;
  md5_hash = none;
  package_name = none;
  version_code = none;
  url = some "https://a/x";
}

abbrev outside : Outside
outside = record {
  fetch = λ f t. if f.id == 1 then fails "timeout" else lists (entry "1.0" ∷ entry "2.0" ∷ []);
  read_date = λ s. 0;
}

abbrev cached : BuildRow
cached = record {
  id = 0;
  app_target_id = 3;
  version = "1.0";
  arch = "arm";
  build_code = none;
  source = mirror;
  feed_id = none;
  remote_url = "https://old";
  filename = "old";
  size_bytes = 1;
  md5 = none;
  published_at = none;
  status = ready;
  cache_progress = 100;
  error = none;
  approved = false;
}

abbrev shelf : Shelf
shelf = record { builds = cached ∷ []; next_id = 1; bus = [] }

abbrev polling : Polling
polling = record { shelf = shelf; last_polled = []; auto_updates = []; stats = [] }

poll_all_sources-Keeps_example :
    Keeps shelf (poll_all_sources outside 100 false none (target ∷ []) polling).0.shelf
unfolding find
poll_all_sources-Keeps_example =
    poll_all_sources-Keeps outside 100 none false (target ∷ []) polling
      ((refl, tt), (omega arith, tt))

abbrev item : ℕ → Option String → DiscoveredVersion
item feed_id md5 = record {
  source = mirror;
  feed_id = feed_id;
  version = "1.0";
  build_code = none;
  arch = "arm";
  filename = "com.a.apkm";
  remote_url = "https://a/x";
  size_bytes = 9;
  md5 = md5;
  published_at = none;
}

dedupe_lem_example :
    (get_build "1.0|arm" (dedupe (item 2 none ∷ item 1 (some "ab") ∷ []))
      ≡ some (item 2 (some "ab")))
    × AreOnce (dedupe (item 2 none ∷ item 1 (some "ab") ∷ []))
dedupe_lem_example = dedupe_lem "1.0|arm" (item 2 none ∷ item 1 (some "ab") ∷ [])

poll_target-AreTold_example :
    Perm (feeds_for none target) (keep (λ f. f.enabled && is_wanted none f.id) target.feeds)
    × IsSorted by_priority (feeds_for none target)
    × ((poll_target outside 100 none target (begin polling)).shelf
        ≡ (store_items target
            (dedupe (listings outside 100 target (feeds_for none target)))
            shelf).0)
    × AreTold outside 100 target
        (poll_target outside 100 none target (begin polling))
        (feeds_for none target)
unfolding feeds_for sort insert_sorted
poll_target-AreTold_example = poll_target-AreTold outside 100 target none (begin polling) refl
