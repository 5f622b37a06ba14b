-- ===== src/Sources/Failing.antt =====
-- A feed that is down, in a pass of poller.ts.
use magnemite.Prelude.{
  ℕ, ◌≡◌, ◌==◌, refl, subst, inl, inr, Bool-cases, if_either, Bool, true, false, Option, is_some,
  List, [], ◌∷◌, ◌++◌, any, All, length, arith, leb, keep, ◌&&◌, IsSorted, sort-IsSorted, sort-perm,
}
use mathlib.Core.List.{Perm}
use magnemite.Sources.{SourceFeed, PollTarget, DiscoveredVersion, poll_feed}
use magnemite.Sources.Polling.{dedupe, store_items}
use magnemite.Sources.Stats.{FeedError, error_key, put_value, get_value, add_seen}
use magnemite.Sources.Pass.{
  Outside, PollPass, Answer, fails, lists, touched, take_answer, read_feed, read_feeds, feeds_for,
  is_wanted, poll_target,
}
use magnemite.Sources.Keeping.{shelf-read_feeds}

-- The smaller number first.
abbrev pub by_priority : SourceFeed → SourceFeed → Bool
by_priority f g = leb f.priority g.priority

keep-keep {ℓ} :
    {A : Type ℓ} (p q : A → Bool) (xs : List A) → keep p (keep q xs) ≡ keep (λ x. q x && p x) xs
keep-keep p q [] = refl
keep-keep p q (x ∷ xs) = ground (arith, keep-keep p q xs)

module _ (o : Outside) (now : ℕ) (t : PollTarget) where
  abbrev found_in : SourceFeed → Answer → List DiscoveredVersion
  found_in f (fails m) = []
  found_in f (lists index) = poll_feed o.read_date index f t

  -- What the feeds that answer list, one after another.
  abbrev pub listings : List SourceFeed → List DiscoveredVersion
  listings [] = []
  listings (f ∷ fs) = found_in f (o.fetch f t) ++ listings fs

  -- A feed that answers is among those seen, and one that fails has an error.
  abbrev IsTold : PollPass → SourceFeed → Answer → Type 0
  IsTold p f (fails m) = is_some (get_value error_key f.id p.errors) ≡ true
  IsTold p f (lists index) = any (λ k. k == f.id) p.feeds_seen ≡ true

  abbrev pub AreTold : PollPass → List SourceFeed → Type 0
  AreTold p fs = All (λ f. IsTold p f (o.fetch f t)) fs

  get_value-put_value :
      (e : FeedError) (es : List FeedError)
      → is_some (get_value error_key e.feed_id (put_value error_key e es)) ≡ true
  unfolding put_value get_value
  get_value-put_value e [] = ground arith
  get_value-put_value e (x ∷ xs) = elim (Bool-cases (x.feed_id == e.feed_id)) [
    | inl hit ↦ rw hit (ground arith)
    | inr miss ↦ rw miss (rw miss (get_value-put_value e xs))
  ]

  get_value-put_value_kept :
      (k : ℕ) (e : FeedError) (es : List FeedError)
      → is_some (get_value error_key k es) ≡ true
      → is_some (get_value error_key k (put_value error_key e es)) ≡ true
  unfolding put_value get_value
  get_value-put_value_kept k e [] h = ground (arith, h)
  get_value-put_value_kept k e (x ∷ xs) h = elim (Bool-cases (x.feed_id == e.feed_id)) [
    | inl hit ↦ rw hit (ground (arith, h))
    | inr miss ↦ rw miss (elim (Bool-cases (x.feed_id == k)) [
      | inl y ↦ rw y refl
      | inr n ↦ rw n (get_value-put_value_kept k e xs (rw n at h))
    ])
  ]

  any-append : (p : ℕ → Bool) (xs ys : List ℕ) → any p xs ≡ true → any p (xs ++ ys) ≡ true
  any-append p [] ys h = absurd (cc)
  any-append p (x ∷ xs) ys h = ground (arith, any-append p xs ys)

  any-last : (k : ℕ) (xs : List ℕ) → any (λ j. j == k) (xs ++ k ∷ []) ≡ true
  any-last k [] = ground arith
  any-last k (x ∷ xs) = ground (arith, any-last k xs)

  add_seen_self : (k : ℕ) (ks : List ℕ) → any (λ j. j == k) (add_seen k ks) ≡ true
  add_seen_self k ks =
      if_either (λ (l : List ℕ). any (λ j. j == k) l ≡ true) (any (λ j. j == k) ks) _ _ (λ e. e)
        (λ e. any-last k ks)

  add_seen-kept :
      (j k : ℕ) (ks : List ℕ)
      → any (λ i. i == j) ks ≡ true
      → any (λ i. i == j) (add_seen k ks) ≡ true
  add_seen-kept j k ks h =
      if_either (λ (l : List ℕ). any (λ i. i == j) l ≡ true) (any (λ i. i == k) ks) _ _ (λ e. h)
        (λ e. any-append (λ i. i == j) ks (k ∷ []) h)

  IsTold-same :
      (p q : PollPass)
      → p.errors ≡ q.errors
      → p.feeds_seen ≡ q.feeds_seen
      → (g : SourceFeed) (b : Answer) → IsTold p g b
      → IsTold q g b
  IsTold-same p q e e' g (fails n) h =
      subst (λ (es : List FeedError). is_some (get_value error_key g.id es) ≡ true) e h
  IsTold-same p q e e' g (lists i) h = subst (λ (ks : List ℕ). any (λ k. k == g.id) ks ≡ true) e' h

  IsTold-self :
      (f : SourceFeed) (a : Answer) (p : PollPass) → IsTold (take_answer o now t f a p).0 f a
  IsTold-self f (fails m) p = get_value-put_value _ p.errors
  IsTold-self f (lists index) p = add_seen_self f.id p.feeds_seen

  IsTold-kept :
      (g : SourceFeed) (b : Answer) (f : SourceFeed) (a : Answer) (p : PollPass)
      → IsTold p g b
      → IsTold (take_answer o now t f a p).0 g b
  IsTold-kept g (fails n) f (fails m) p h = get_value-put_value_kept g.id _ p.errors h
  IsTold-kept g (fails n) f (lists index) p h = h
  IsTold-kept g (lists i) f (fails m) p h = h
  IsTold-kept g (lists i) f (lists index) p h = add_seen-kept g.id f.id p.feeds_seen h

  IsTold-later :
      (g : SourceFeed) (b : Answer) (fs : List SourceFeed) (p : PollPass)
      → IsTold p g b
      → IsTold (read_feeds o now t fs p).0 g b
  unfolding read_feeds read_feed
  IsTold-later g b [] p h = h
  IsTold-later g b (f ∷ fs) p h = IsTold-later g b fs (read_feed o now t f p).0 (
      IsTold-kept g b f (o.fetch f t) (touched now f p)
        (IsTold-same p (touched now f p) refl refl g b h))

  read_feeds-AreTold :
      (fs : List SourceFeed) (p : PollPass) → AreTold (read_feeds o now t fs p).0 fs
  unfolding read_feeds read_feed
  read_feeds-AreTold [] p = tt
  read_feeds-AreTold (f ∷ fs) p = (
    IsTold-later f (o.fetch f t) fs (read_feed o now t f p).0
        (IsTold-self f (o.fetch f t) (touched now f p)),
    read_feeds-AreTold fs (read_feed o now t f p).0,
  )

  found-take_answer :
      (f : SourceFeed) (a : Answer) (p : PollPass) → (take_answer o now t f a p).1 ≡ found_in f a
  found-take_answer f (fails m) p = refl
  found-take_answer f (lists index) p = refl

  found-read_feeds :
      (fs : List SourceFeed) (p : PollPass) → (read_feeds o now t fs p).1 ≡ listings fs
  unfolding read_feeds read_feed
  found-read_feeds [] p = refl
  found-read_feeds (f ∷ fs) p =
      rw
        (
          found-take_answer f (o.fetch f t) (touched now f p),
          found-read_feeds fs (read_feed o now t f p).0,
        )
        refl

  feeds_for-perm :
      (only : Option (List ℕ))
      → Perm (feeds_for only t) (keep (λ f. f.enabled && is_wanted only f.id) t.feeds)
  unfolding feeds_for
  feeds_for-perm only =
      subst (Perm (feeds_for only t))
        (keep-keep (λ f. is_wanted only f.id) (λ f. f.enabled) t.feeds) (sort-perm by_priority _)

  feeds_for-IsSorted : (only : Option (List ℕ)) → IsSorted by_priority (feeds_for only t)
  unfolding feeds_for
  feeds_for-IsSorted only =
      sort-IsSorted by_priority (λ f g e. ground arith)
        (keep (λ f. is_wanted only f.id) (keep (λ f. f.enabled) t.feeds))

  -- If some feed of an app is read, whatever feeds are down: the feeds read are the enabled ones
  -- that the pass is for, each as often as it is the app's, in the order of their priority; the
  -- builds come to be those that the ones that answer list, one after another in that order; and
  -- each that is down has an error in the summary, each that answers counts as reached.
  pub poll_target-AreTold :
      (only : Option (List ℕ)) (p : PollPass)
      → (length (feeds_for only t) == 0 ≡ false)
      → Perm (feeds_for only t) (keep (λ f. f.enabled && is_wanted only f.id) t.feeds)
        × IsSorted by_priority (feeds_for only t)
        × ((poll_target o now only t p).shelf
            ≡ (store_items t (dedupe (listings (feeds_for only t))) p.shelf).0)
        × AreTold (poll_target o now only t p) (feeds_for only t)
  unfolding poll_target
  poll_target-AreTold only p some_feed =
      let fs = feeds_for only t in
      rw some_feed (
        feeds_for-perm only,
        feeds_for-IsSorted only,
        rw (found-read_feeds fs p, shelf-read_feeds o now only t fs p) refl,
        read_feeds-AreTold fs p,
      )
