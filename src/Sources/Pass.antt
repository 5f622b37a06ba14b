-- ===== src/Sources/Pass.antt =====
-- apps/hub/src/services/sources/poller.ts: a pass over the apps and their feeds, and the tick.
use magnemite.Prelude.{
  ℕ, ◌+◌, ◌*◌, ◌==◌, leb, if◌then◌else◌, Bool, true, false, not, ◌&&◌, Option, none, some, String,
  List, [], ◌∷◌, ◌++◌, any, keep, length, map, sort,
}
use magnemite.Sources.{FeedEntry, SourceFeed, PollTarget, DiscoveredVersion, poll_feed}
use magnemite.Sources.Polling.{Shelf, dedupe, store_items}
use magnemite.Sources.Stats.{
  FeedPoll, PollStat, FeedError, put_value, get_value, stat_key, error_key, poll_key, record_stat,
  add_seen, put_values,
}

pub data Answer : Type 0 where
  fails : (message : String) → Answer
  lists : (index : List FeedEntry) → Answer

pub record Outside : Type 0 where
  pub fetch : SourceFeed → PollTarget → Answer
  pub read_date : String → ℕ

-- What a pass has gathered, with the builds and the memory of the module.
pub record PollPass : Type 0 where
  pub shelf : Shelf
  pub last_polled : List FeedPoll
  pub auto_updates : List ℕ
  pub feeds_seen : List ℕ
  pub errors : List FeedError
  pub listed : ℕ
  pub discovered : ℕ
  pub stats : List PollStat

pub record PollSummary : Type 0 where
  pub ran : Bool
  pub targets : ℕ
  pub feeds : ℕ
  pub listed : ℕ
  pub discovered : ℕ
  pub errors : List FeedError

pub record Polling : Type 0 where
  pub shelf : Shelf
  pub last_polled : List FeedPoll
  pub auto_updates : List ℕ
  pub stats : List PollStat

abbrev pub touched : (now : ℕ) → SourceFeed → PollPass → PollPass
touched now feed p = record p {
  last_polled = put_value poll_key (record { feed_id = feed.id; at = now }) p.last_polled;
}

abbrev pub take_answer :
    Outside
    → (now : ℕ) → PollTarget
    → SourceFeed
    → Answer
    → PollPass
    → PollPass × List DiscoveredVersion
take_answer o now target feed (fails message) p = (
  record p {
    errors =
        put_value error_key (record { feed_id = feed.id; feed = feed.name; error = message })
          p.errors;
    stats = record_stat now feed 0 (some message) p.stats;
  },
  [],
)
take_answer o now target feed (lists index) p =
    let listed = poll_feed o.read_date index feed target in
    (
      record p {
        feeds_seen = add_seen feed.id p.feeds_seen;
        listed = p.listed + length listed;
        stats = record_stat now feed (length listed) none p.stats;
      },
      listed,
    )

unfoldable pub read_feed :
    Outside → (now : ℕ) → PollTarget → SourceFeed → PollPass → PollPass × List DiscoveredVersion
unfolding put_value record_stat poll_feed
read_feed o now target feed p =
    take_answer o now target feed (o.fetch feed target) (touched now feed p)

unfoldable pub read_feeds :
    Outside
    → (now : ℕ) → PollTarget
    → List SourceFeed
    → PollPass
    → PollPass × List DiscoveredVersion
unfolding read_feed
read_feeds o now target [] p = (p, [])
read_feeds o now target (feed ∷ feeds) p =
    let (first, found) = read_feed o now target feed p in
    let (rest, more) = read_feeds o now target feeds first in (rest, found ++ more)

abbrev pub is_wanted : Option (List ℕ) → ℕ → Bool
is_wanted none k = true
is_wanted (some only) k = any (λ j. j == k) only

unfoldable pub feeds_for : Option (List ℕ) → PollTarget → List SourceFeed
unfolding sort
feeds_for only target =
    sort (λ a b. leb a.priority b.priority)
      (keep (λ f. is_wanted only f.id) (keep (λ f. f.enabled) target.feeds))

unfoldable pub poll_target :
    Outside → (now : ℕ) → Option (List ℕ) → PollTarget → PollPass → PollPass
unfolding read_feeds feeds_for store_items dedupe
poll_target o now only target p =
    let feeds = feeds_for only target in
    let (read, found) = read_feeds o now target feeds p in
    let (shelf, new) = store_items target (dedupe found) read.shelf in
    if length feeds == 0 then p else record read {
      shelf = shelf;
      discovered = read.discovered + new;
      auto_updates = target.id ∷ read.auto_updates;
    }

unfoldable pub poll_targets :
    Outside → (now : ℕ) → Option (List ℕ) → List PollTarget → PollPass → PollPass
unfolding poll_target
poll_targets o now only [] p = p
poll_targets o now only (t ∷ ts) p = poll_targets o now only ts (poll_target o now only t p)

abbrev pub is_polled : PollTarget → Bool
is_polled t = t.enabled && not t.manual

abbrev pub begin : Polling → PollPass
begin s = record {
  shelf = s.shelf;
  last_polled = s.last_polled;
  auto_updates = s.auto_updates;
  feeds_seen = [];
  errors = [];
  listed = 0;
  discovered = 0;
  stats = [];
}

unfoldable pub poll_all_sources :
    Outside
    → (now : ℕ) → (in_flight : Bool) → Option (List ℕ)
    → List PollTarget
    → Polling
    → Polling × PollSummary
unfolding poll_targets put_values
poll_all_sources o now in_flight only targets s =
    let polled = keep is_polled targets in
    let p = poll_targets o now only polled (begin s) in
    if in_flight
    then (
      s,
      record { ran = false; targets = 0; feeds = 0; listed = 0; discovered = 0; errors = [] },
    )
    else (
      record {
        shelf = p.shelf;
        last_polled = p.last_polled;
        auto_updates = p.auto_updates;
        stats = put_values stat_key p.stats s.stats;
      },
      record {
        ran = true;
        targets = length polled;
        feeds = length p.feeds_seen;
        listed = p.listed;
        discovered = p.discovered;
        errors = p.errors;
      },
    )

abbrev last_of : Option FeedPoll → ℕ
last_of none = 0
last_of (some p) = p.at

abbrev is_paired : List PollTarget → SourceFeed → Bool
is_paired targets feed = any (λ t. is_polled t && any (λ f. f.id == feed.id) t.feeds) targets

-- The feeds whose turn it is.
unfoldable pub due_feeds : (now : ℕ) → List SourceFeed → List PollTarget → List FeedPoll → List ℕ
unfolding get_value
due_feeds now feeds targets last_polled =
    map (λ f. f.id)
      (keep (λ f. leb (last_of (get_value poll_key f.id last_polled) + f.poll_minutes * 60000) now)
        (keep (λ f. f.enabled && is_paired targets f) feeds))

unfoldable pub maybe_tick :
    Outside → (now : ℕ) → (in_flight : Bool) → List SourceFeed → List PollTarget → Polling → Polling
unfolding due_feeds poll_all_sources
maybe_tick o now in_flight feeds targets s =
    let due = due_feeds now feeds targets s.last_polled in
    if length due == 0 then s else (poll_all_sources o now in_flight (some due) targets s).0
