-- ===== src/Sources/Keeping.antt =====
-- A whole pass of poller.ts over the builds that are there.
use magnemite.Prelude.{
  ℕ, suc, ◌<◌, ◌==◌, ◌≡◌, ◌∙◌, refl, sym, ap, subst, inl, inr, Option-cases, if_either, Bool, true,
  false, Option, some, List, [], ◌∷◌, keep, All-map, find, find-append_some, append-IsKeyed,
  append-All, length, arith,
}
use magnemite.Sources.{SourceFeed, PollTarget, DiscoveredVersion}
use magnemite.Sources.Polling.{
  BuildRow, Shelf, build_row_key, find_build_row, store_item, store_items, dedupe,
}
use magnemite.Sources.Pass.{
  Outside, PollPass, Polling, read_feed, read_feeds, feeds_for, poll_target, poll_targets,
  poll_all_sources, take_answer, touched, Answer, fails, lists, begin, is_polled,
}
use magnemite.Sources.Kept.{
  IsKept-refl, KeptIn, KeptIn-trans, IsNumbered, refresh-KeptIn, refresh-IsNumbered,
  find_build_row-held,
}

-- Every build that the first has is kept in the second.
abbrev pub Keeps : Shelf → Shelf → Type 0
Keeps s s' =
    IsNumbered s'
    × ((b : BuildRow) → find build_row_key b.id s.builds ≡ some b → KeptIn b s'.builds)

Keeps-refl : (s : Shelf) → IsNumbered s → Keeps s s
Keeps-refl s n = (n, λ b hb. (b, hb, IsKept-refl b))

Keeps-trans : (s t w : Shelf) → Keeps s t → Keeps t w → Keeps s w
Keeps-trans s t w (n, k) (m, l) = (m, λ b hb. chain b (k b hb))
  where
    chain : (b : BuildRow) → KeptIn b t.builds → KeptIn b w.builds
    chain b (c, hc, kc) =
        KeptIn-trans b c w.builds kc (l c (ap (λ j. find build_row_key j t.builds) kc.same_id ∙ hc))

store_item-Keeps :
    (t : PollTarget) (item : DiscoveredVersion) (s : Shelf)
    → IsNumbered s
    → Keeps s (store_item t item s).0
unfolding store_item find
store_item-Keeps t item s (u, h) = elim (Option-cases (find_build_row t.id item s.builds)) [
  | inl missing ↦
      rw (store_item, missing)
        (
          (
            append-IsKeyed build_row_key s.next_id s.builds _ h (omega arith, tt) u (refl, tt),
            append-All (λ b. b.id < suc s.next_id) s.builds _
                (All-map _ _ s.builds (λ b lt. omega arith) h) (omega arith, tt),
          ),
          λ b hb. (b, find-append_some build_row_key b.id s.builds _ hb, IsKept-refl b),
        )
  | inr (e, found) ↦
      let he = find_build_row-held t.id item s.builds u found in
      rw (store_item, found)
        (refresh-IsNumbered item e s he (u, h), λ b hb. refresh-KeptIn item e b s he hb)
]

store_items-Keeps :
    (t : PollTarget) (items : List DiscoveredVersion) (s : Shelf)
    → IsNumbered s
    → Keeps s (store_items t items s).0
unfolding store_items
store_items-Keeps t [] s n = Keeps-refl s n
store_items-Keeps t (item ∷ items) s n =
    let first = store_item-Keeps t item s n in
    Keeps-trans s (store_item t item s).0 (store_items t items (store_item t item s).0).0 first
      (store_items-Keeps t items (store_item t item s).0 first.0)

module _ (o : Outside) (now : ℕ) (only : Option (List ℕ)) where
  shelf-take_answer :
      (t : PollTarget) (f : SourceFeed) (a : Answer) (p : PollPass)
      → (take_answer o now t f a p).0.shelf ≡ p.shelf
  shelf-take_answer t f (fails m) p = refl
  shelf-take_answer t f (lists i) p = refl

  shelf-read_feed :
      (t : PollTarget) (f : SourceFeed) (p : PollPass) → (read_feed o now t f p).0.shelf ≡ p.shelf
  unfolding read_feed
  shelf-read_feed t f p = shelf-take_answer t f (o.fetch f t) (touched now f p)

  pub shelf-read_feeds :
      (t : PollTarget) (feeds : List SourceFeed) (p : PollPass)
      → (read_feeds o now t feeds p).0.shelf ≡ p.shelf
  unfolding read_feeds
  shelf-read_feeds t [] p = refl
  shelf-read_feeds t (f ∷ fs) p =
      shelf-read_feeds t fs (read_feed o now t f p).0 ∙ shelf-read_feed t f p

  poll_target-Keeps :
      (t : PollTarget) (p : PollPass)
      → IsNumbered p.shelf
      → Keeps p.shelf (poll_target o now only t p).shelf
  unfolding poll_target
  poll_target-Keeps t p n =
      let feeds = feeds_for only t in
      let got = read_feeds o now t feeds p in
      let same = shelf-read_feeds t feeds p in
      if_either (λ (q : PollPass). Keeps p.shelf q.shelf) (length feeds == 0) _ _
        (λ e. Keeps-refl p.shelf n)
        (λ e.
          subst (λ (w : Shelf). Keeps p.shelf (store_items t (dedupe got.1) w).0) (sym same)
            (store_items-Keeps t (dedupe got.1) p.shelf n))

  poll_targets-Keeps :
      (ts : List PollTarget) (p : PollPass)
      → IsNumbered p.shelf
      → Keeps p.shelf (poll_targets o now only ts p).shelf
  unfolding poll_targets
  poll_targets-Keeps [] p n = Keeps-refl p.shelf n
  poll_targets-Keeps (t ∷ ts) p n =
      let first = poll_target-Keeps t p n in
      Keeps-trans p.shelf (poll_target o now only t p).shelf
        (poll_targets o now only ts (poll_target o now only t p)).shelf first
        (poll_targets-Keeps ts (poll_target o now only t p) first.0)

  -- If the builds' keys are their own and below the next, they are so after a pass over the feeds,
  -- and each build that was there is there: of the same app, version, ABI, source and approval; an
  -- uploaded one as it was, and one on disk as it was, too, but for the feed that it is said to be
  -- from, if that was not known.
  pub poll_all_sources-Keeps :
      (in_flight : Bool) (targets : List PollTarget) (s : Polling)
      → IsNumbered s.shelf
      → Keeps s.shelf (poll_all_sources o now in_flight only targets s).0.shelf
  unfolding poll_all_sources
  poll_all_sources-Keeps true targets s n = Keeps-refl s.shelf n
  poll_all_sources-Keeps false targets s n = poll_targets-Keeps (keep is_polled targets) (begin s) n
