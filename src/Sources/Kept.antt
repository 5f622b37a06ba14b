-- ===== src/Sources/Kept.antt =====
-- What no pass of poller.ts changes of a build that is there.
use magnemite.Prelude.{
  ℕ, ◌<◌, ◌==◌, ◌≡◌, ◌≢◌, ◌∙◌, refl, sym, ap, subst, inl, inr, Bool-cases, ==_iff, eq_of_some, true,
  false, some, is_some, List, [], ◌∷◌, All, find, update, find-update_self, find-update_ne,
  find-cons_ne, IsKeyed, update-IsKeyed, update-All, find-All, arith,
}
use magnemite.Sources.{DiscoveredVersion}
use magnemite.Sources.Polling.{
  BuildRow, Shelf, build_row_key, is_manual, is_cached, is_same_build, has_moved, refreshed,
  find_build_row, refresh,
}

-- The same build, with its approval; an uploaded one is as it was, and one on disk, too, but for the
-- feed that it is said to be from, if that was not known.
pub record IsKept (b c : BuildRow) : Type 0 where
  pub same_id : c.id ≡ b.id
  pub same_target : c.app_target_id ≡ b.app_target_id
  pub same_version : c.version ≡ b.version
  pub same_arch : c.arch ≡ b.arch
  pub same_source : c.source ≡ b.source
  pub same_approved : c.approved ≡ b.approved
  pub uploaded : is_manual b ≡ true → c ≡ b
  pub on_disk : is_cached b ≡ true → (c ≡ record b { feed_id = c.feed_id })
  pub attributed : is_cached b ≡ true → is_some b.feed_id ≡ true → c ≡ b

pub IsKept-refl : (b : BuildRow) → IsKept b b
IsKept-refl b = record {
  same_id = refl;
  same_target = refl;
  same_version = refl;
  same_arch = refl;
  same_source = refl;
  same_approved = refl;
  uploaded = λ m. refl;
  on_disk = λ r. refl;
  attributed = λ r f. refl;
}

pub IsKept-trans : (b c d : BuildRow) → IsKept b c → IsKept c d → IsKept b d
IsKept-trans b c d k l = record {
  same_id = l.same_id ∙ k.same_id;
  same_target = l.same_target ∙ k.same_target;
  same_version = l.same_version ∙ k.same_version;
  same_arch = l.same_arch ∙ k.same_arch;
  same_source = l.same_source ∙ k.same_source;
  same_approved = l.same_approved ∙ k.same_approved;
  uploaded =
      λ m. let e = k.uploaded m in l.uploaded (subst (λ z. is_manual z ≡ true) (sym e) m) ∙ e;
  on_disk = λ r. disk r;
  attributed = λ r f.
      let e = k.attributed r f in
      l.attributed (subst (λ z. is_cached z ≡ true) (sym e) r)
        (subst (λ z. is_some z.feed_id ≡ true) (sym e) f)
      ∙ e;
}
  where
    disk : is_cached b ≡ true → (d ≡ record b { feed_id = d.feed_id })
    disk r =
        let e = k.on_disk r in
        let r' : is_cached c ≡ true = subst (λ z. is_cached z ≡ true) (sym e) r in
        l.on_disk r' ∙ ap (λ (z : BuildRow). record z { feed_id = d.feed_id }) e

attributed-IsKept :
    (b : BuildRow) (k : ℕ)
    → is_manual b ≡ false
    → is_some b.feed_id ≡ false
    → IsKept b (record b { feed_id = some k })
attributed-IsKept b k m f = record {
  same_id = refl;
  same_target = refl;
  same_version = refl;
  same_arch = refl;
  same_source = refl;
  same_approved = refl;
  uploaded = λ m'. absurd (cc);
  on_disk = λ r. refl;
  attributed = λ r f'. absurd (cc);
}

pointer-IsKept :
    (b c : BuildRow)
    → is_manual b ≡ false
    → is_cached b ≡ false
    → c.id ≡ b.id
    → c.app_target_id ≡ b.app_target_id
    → c.version ≡ b.version
    → c.arch ≡ b.arch
    → c.source ≡ b.source
    → c.approved ≡ b.approved
    → IsKept b c
pointer-IsKept b c m r i t v a s p = record {
  same_id = i;
  same_target = t;
  same_version = v;
  same_arch = a;
  same_source = s;
  same_approved = p;
  uploaded = λ m'. absurd (cc);
  on_disk = λ r'. absurd (cc);
  attributed = λ r' f'. absurd (cc);
}

refreshed-IsKept :
    (item : DiscoveredVersion) (b : BuildRow)
    → is_manual b ≡ false
    → is_cached b ≡ false
    → IsKept b (refreshed item b)
refreshed-IsKept item b m r = elim (Bool-cases (has_moved item b)) [
  | inl y ↦ rw y (pointer-IsKept b _ m r refl refl refl refl refl refl)
  | inr n ↦ rw n (pointer-IsKept b _ m r refl refl refl refl refl refl)
]

id-refreshed : (item : DiscoveredVersion) (b : BuildRow) → build_row_key (refreshed item b) ≡ b.id
id-refreshed item b = elim (Bool-cases (has_moved item b)) [ inl y ↦ rw y refl | inr n ↦ rw n refl ]

abbrev pub KeptIn : BuildRow → List BuildRow → Type 0
KeptIn b rows = (c : BuildRow) × (find build_row_key b.id rows ≡ some c) × IsKept b c

-- Keys are the rows' own, and the next is free.
abbrev pub IsNumbered : Shelf → Type 0
IsNumbered s = IsKeyed build_row_key s.builds × All (λ b. b.id < s.next_id) s.builds

find_head : (x : BuildRow) (xs : List BuildRow) → find build_row_key x.id (x ∷ xs) ≡ some x
unfolding find
find_head x xs = ground arith

pub find_build_row-held :
    (t : ℕ) (item : DiscoveredVersion) (rows : List BuildRow) {e : BuildRow}
    → IsKeyed build_row_key rows
    → find_build_row t item rows ≡ some e
    → find build_row_key e.id rows ≡ some e
unfolding find_build_row
find_build_row-held t item [] u h = absurd (cc)
find_build_row-held t item (x ∷ xs) {e} (u, us) h = elim (Bool-cases (is_same_build t item x)) [
  | inl hit ↦
      subst (λ z. find build_row_key z.id (x ∷ xs) ≡ some z) (eq_of_some (rw hit at h))
        (find_head x xs)
  | inr miss ↦ find-cons_ne build_row_key x e xs u (find_build_row-held t item xs us (rw miss at h))
]

same_number : (k : ℕ) → k == k ≡ true
same_number k = ground arith

true-ne-false : true ≡ false → ⊥
true-ne-false h = cc

update-KeptIn :
    (f : BuildRow → BuildRow) (same : (x : BuildRow) → build_row_key (f x) ≡ build_row_key x)
    (rows : List BuildRow) (b e : BuildRow)
    → find build_row_key b.id rows ≡ some b
    → find build_row_key e.id rows ≡ some e
    → IsKept e (f e)
    → KeptIn b (update build_row_key e.id f rows)
update-KeptIn f same rows b e hb he k = elim (Bool-cases (b.id == e.id)) [
  | inl hit ↦
      let i : b.id ≡ e.id = (==_iff _ _).0 hit in
      let is_e : b ≡ e = eq_of_some (sym hb ∙ ap (λ j. find build_row_key j rows) i ∙ he) in
      (
        f e,
        ap (λ j. find build_row_key j (update build_row_key e.id f rows)) i
            ∙ find-update_self build_row_key e.id f same rows he,
        subst (λ z. IsKept z (f e)) (sym is_e) k,
      )
  | inr miss ↦
      let n : b.id ≢ e.id = λ i.
        absurd
          (true-ne-false (sym (subst (λ j. j == e.id ≡ true) (sym i) (same_number e.id)) ∙ miss)) in
      (b, find-update_ne build_row_key e.id f same b.id rows n ∙ hb, IsKept-refl b)
]

pub refresh-KeptIn :
    (item : DiscoveredVersion) (e b : BuildRow) (s : Shelf)
    → find build_row_key e.id s.builds ≡ some e
    → find build_row_key b.id s.builds ≡ some b
    → KeptIn b (refresh item e s).builds
unfolding refresh
refresh-KeptIn item e b s he hb = elim (Bool-cases (is_manual e)) [
  | inl m ↦ elim (Bool-cases (is_cached e)) [
    | inl r ↦ rw (r, m) (b, hb, IsKept-refl b)
    | inr r ↦ rw (r, m) (b, hb, IsKept-refl b)
  ]
  | inr m ↦ elim (Bool-cases (is_cached e)) [
    | inl r ↦ elim (Bool-cases (is_some e.feed_id)) [
      | inl f ↦ rw (r, m, f) (b, hb, IsKept-refl b)
      | inr f ↦
          rw (r, m, f)
            (update-KeptIn (λ x. record x { feed_id = some item.feed_id }) (λ x. refl) s.builds b e
              hb he (attributed-IsKept e item.feed_id m f))
    ]
    | inr r ↦ elim (Bool-cases (has_moved item e)) [
      | inl v ↦
          rw (r, m, v)
            (update-KeptIn (refreshed item) (id-refreshed item) s.builds b e hb he
              (refreshed-IsKept item e m r))
      | inr v ↦
          rw (r, m, v)
            (update-KeptIn (refreshed item) (id-refreshed item) s.builds b e hb he
              (refreshed-IsKept item e m r))
    ]
  ]
]

pub KeptIn-trans :
    (b c : BuildRow) (rows : List BuildRow) → IsKept b c → KeptIn c rows → KeptIn b rows
KeptIn-trans b c rows k (d, h, l) =
    (d, ap (λ j. find build_row_key j rows) (sym k.same_id) ∙ h, IsKept-trans b c d k l)

update-IsNumbered :
    (f : BuildRow → BuildRow) (same : (x : BuildRow) → build_row_key (f x) ≡ build_row_key x)
    (e : BuildRow) (s : Shelf)
    → find build_row_key e.id s.builds ≡ some e
    → IsNumbered s
    → IsNumbered (record s { builds = update build_row_key e.id f s.builds })
update-IsNumbered f same e s he (u, h) = (
  update-IsKeyed build_row_key e.id f same s.builds u,
  update-All build_row_key (λ b. b.id < s.next_id) e.id f s.builds u he
      (omega (arith, same e, find-All build_row_key (λ b. b.id < s.next_id) e.id s.builds h he)) h,
)

pub refresh-IsNumbered :
    (item : DiscoveredVersion) (e : BuildRow) (s : Shelf)
    → find build_row_key e.id s.builds ≡ some e
    → IsNumbered s
    → IsNumbered (refresh item e s)
unfolding refresh
refresh-IsNumbered item e s he n = elim (Bool-cases (is_manual e)) [
  | inl m ↦ elim (Bool-cases (is_cached e)) [ inl r ↦ rw (r, m) n | inr r ↦ rw (r, m) n ]
  | inr m ↦ elim (Bool-cases (is_cached e)) [
    | inl r ↦ elim (Bool-cases (is_some e.feed_id)) [
      | inl f ↦ rw (r, m, f) n
      | inr f ↦
          rw (r, m, f)
            (update-IsNumbered (λ x. record x { feed_id = some item.feed_id }) (λ x. refl) e s he n)
    ]
    | inr r ↦
        let kept = update-IsNumbered (refreshed item) (id-refreshed item) e s he n in
        elim (Bool-cases (has_moved item e)) [
          | inl v ↦ rw (r, m, v) kept
          | inr v ↦ rw (r, m, v) kept
        ]
  ]
]
