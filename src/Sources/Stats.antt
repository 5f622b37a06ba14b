-- ===== src/Sources/Stats.antt =====
-- poller.ts: what is remembered of a feed (lastPolledByFeed, pollStats, the errors of a pass), as Maps
-- by the key of the feed.
use magnemite.Prelude.{
  ℕ, ◌+◌, ◌==◌, if◌then◌else◌, Bool, not, ◌&&◌, Option, none, some, is_some, String, List, [], ◌∷◌,
  ◌++◌, any,
}
use magnemite.Sources.{SourceFeed}
use magnemite.Sources.Polling.{coalesce}

pub record FeedPoll : Type 0 where
  pub feed_id : ℕ
  pub at : ℕ

pub record PollStat : Type 0 where
  pub feed_id : ℕ
  pub name : String
  pub at : ℕ
  pub ok : Bool
  pub found : ℕ
  pub error : Option String

pub record FeedError : Type 0 where
  pub feed_id : ℕ
  pub feed : String
  pub error : String

-- `set` of a Map, by the key of its values.
unfoldable pub put_value {ℓ} : {A : Type ℓ} → (key : A → ℕ) → A → List A → List A
put_value key a [] = a ∷ []
put_value key a (x ∷ xs) =
    let rest = put_value key a xs in if key x == key a then a ∷ xs else x ∷ rest

-- `get` of a Map.
unfoldable pub get_value {ℓ} : {A : Type ℓ} → (key : A → ℕ) → ℕ → List A → Option A
get_value key k [] = none
get_value key k (x ∷ xs) = if key x == k then some x else get_value key k xs

abbrev pub stat_key : PollStat → ℕ
stat_key s = s.feed_id

abbrev pub error_key : FeedError → ℕ
error_key e = e.feed_id

abbrev pub poll_key : FeedPoll → ℕ
poll_key p = p.feed_id

abbrev next_stat : (now : ℕ) → SourceFeed → (found : ℕ) → Option String → Option PollStat → PollStat
next_stat now feed found error none = record {
  feed_id = feed.id;
  name = feed.name;
  at = now;
  ok = not (is_some error);
  found = found;
  error = error;
}
next_stat now feed found error (some seen) = record {
  feed_id = feed.id;
  name = feed.name;
  at = now;
  ok = seen.ok && not (is_some error);
  found = seen.found + found;
  error = coalesce error seen.error;
}

-- `record`.
unfoldable pub record_stat :
    (now : ℕ) → SourceFeed → (found : ℕ) → Option String → List PollStat → List PollStat
unfolding put_value get_value
record_stat now feed found error stats =
    put_value stat_key (next_stat now feed found error (get_value stat_key feed.id stats)) stats

abbrev pub add_seen : ℕ → List ℕ → List ℕ
add_seen k ks = if any (λ j. j == k) ks then ks else ks ++ k ∷ []

unfoldable pub put_values {ℓ} : {A : Type ℓ} → (key : A → ℕ) → List A → List A → List A
unfolding put_value
put_values key [] xs = xs
put_values key (a ∷ rest) xs = put_values key rest (put_value key a xs)
