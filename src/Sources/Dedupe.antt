-- ===== src/Sources/Dedupe.antt =====
-- `dedupe` of poller.ts, against a description that looks at one build at a time.
use magnemite.Prelude.{
  ◌≡◌, ◌∙◌, refl, sym, ap, inl, inr, Bool-cases, if◌then◌else◌, true, false, Option, none, some,
  String, str_eq, eq_iff, List, [], ◌∷◌, keep, map,
}
use magnemite.Sources.{DiscoveredVersion}
use magnemite.Sources.Polling.{coalesce, build_key, fill_in, see, see_all, dedupe}

unfoldable pub get_build : String → List DiscoveredVersion → Option DiscoveredVersion
get_build k [] = none
get_build k (x ∷ xs) = if str_eq (build_key x) k then some x else get_build k xs

abbrev first_known {ℓ} : {A : Type ℓ} → List (Option A) → Option A
first_known [] = none
first_known (o ∷ os) = coalesce o (first_known os)

-- The first sighting, with what it or a later one first knows.
abbrev pub described : List DiscoveredVersion → Option DiscoveredVersion
described [] = none
described (x ∷ xs) = some (record x {
  md5 = first_known (map (λ y. y.md5) (x ∷ xs));
  build_code = first_known (map (λ y. y.build_code) (x ∷ xs));
  published_at = first_known (map (λ y. y.published_at) (x ∷ xs));
})

abbrev pub AreOnce : List DiscoveredVersion → Type 0
AreOnce [] = Unit
AreOnce (x ∷ xs) = (get_build (build_key x) xs ≡ none) × AreOnce xs

abbrev see_in : DiscoveredVersion → Option DiscoveredVersion → DiscoveredVersion
see_in item none = item
see_in item (some seen) = fill_in seen item

same_as : (a b k : String) → str_eq a b ≡ true → str_eq a k ≡ str_eq b k
same_as a b k e = ap (λ x. str_eq x k) ((eq_iff a b).0 e)

apart_from : (a b k : String) → str_eq a b ≡ false → str_eq a k ≡ true → str_eq b k ≡ false
apart_from a b k n h = elim (Bool-cases (str_eq b k)) [
  | inl y ↦
      let e : str_eq a b ≡ true = (eq_iff a b).1 ((eq_iff a k).0 h ∙ sym ((eq_iff b k).0 y)) in
      absurd (true-ne-false (sym e ∙ n))
  | inr m ↦ m
]
  where
    true-ne-false : true ≡ false → ⊥
    true-ne-false h = cc

get_build-see :
    (k : String) (item : DiscoveredVersion) (xs : List DiscoveredVersion)
    → get_build k (see item xs)
      ≡ (if str_eq (build_key item) k then some (see_in item (get_build k xs)) else get_build k xs)
unfolding get_build see
get_build-see k item [] = refl
get_build-see k item (x ∷ xs) = elim (Bool-cases (str_eq (build_key x) (build_key item))) [
  | inl same ↦
      let e = same_as (build_key x) (build_key item) k same in
      elim (Bool-cases (str_eq (build_key item) k)) [
        | inl hit ↦ rw same (rw (e ∙ hit, hit) refl)
        | inr miss ↦ rw same (rw (e ∙ miss, miss) refl)
      ]
  | inr other ↦ elim (Bool-cases (str_eq (build_key x) k)) [
    | inl hit ↦
        let away : str_eq (build_key item) k ≡ false =
          apart_from (build_key x) (build_key item) k other hit in
        rw (other, hit, away) refl
    | inr miss ↦ rw (other, miss) (get_build-see k item xs)
  ]
]

abbrev taken_in : List DiscoveredVersion → Option DiscoveredVersion → Option DiscoveredVersion
taken_in [] o = o
taken_in (x ∷ xs) o = taken_in xs (some (see_in x o))

get_build-see_all :
    (k : String) (found by_build : List DiscoveredVersion)
    → get_build k (see_all by_build found)
      ≡ taken_in (keep (λ y. str_eq (build_key y) k) found) (get_build k by_build)
unfolding see_all
get_build-see_all k [] by_build = refl
get_build-see_all k (x ∷ xs) by_build = elim (Bool-cases (str_eq (build_key x) k)) [
  | inl hit ↦
      let e = rw hit at (get_build-see k x by_build) in
      rw hit (
        get_build-see_all k xs (see x by_build)
        ∙ ap (taken_in (keep (λ y. str_eq (build_key y) k) xs)) e)
  | inr miss ↦
      let e = rw miss at (get_build-see k x by_build) in
      rw miss (
        get_build-see_all k xs (see x by_build)
        ∙ ap (taken_in (keep (λ y. str_eq (build_key y) k) xs)) e)
]

coalesce_assoc {ℓ} :
    {A : Type ℓ} (a b c : Option A) → coalesce (coalesce a b) c ≡ coalesce a (coalesce b c)
coalesce_assoc none b c = refl
coalesce_assoc (some a) b c = refl

coalesce-none {ℓ} : {A : Type ℓ} (a : Option A) → coalesce a none ≡ a
coalesce-none none = refl
coalesce-none (some a) = refl

taken_in-some :
    (s : DiscoveredVersion) (xs : List DiscoveredVersion)
    → taken_in xs (some s)
      ≡ some (record s {
        md5 = coalesce s.md5 (first_known (map (λ y. y.md5) xs));
        build_code = coalesce s.build_code (first_known (map (λ y. y.build_code) xs));
        published_at = coalesce s.published_at (first_known (map (λ y. y.published_at) xs));
      })
taken_in-some s [] =
    rw (coalesce-none s.md5, coalesce-none s.build_code, coalesce-none s.published_at) refl
taken_in-some s (x ∷ xs) =
    taken_in-some (fill_in s x) xs
    ∙ rw
        (
          coalesce_assoc s.md5 x.md5 (first_known (map (λ y. y.md5) xs)),
          coalesce_assoc s.build_code x.build_code (first_known (map (λ y. y.build_code) xs)),
          coalesce_assoc s.published_at x.published_at (first_known (map (λ y. y.published_at) xs)),
        )
        refl

taken_in-none : (xs : List DiscoveredVersion) → taken_in xs none ≡ described xs
taken_in-none [] = refl
taken_in-none (x ∷ xs) = taken_in-some x xs

see-AreOnce :
    (item : DiscoveredVersion) (xs : List DiscoveredVersion) → AreOnce xs → AreOnce (see item xs)
unfolding see get_build
see-AreOnce item [] h = (refl, tt)
see-AreOnce item (x ∷ xs) (a, h) = elim (Bool-cases (str_eq (build_key x) (build_key item))) [
  | inl same ↦ rw same (a, h)
  | inr other ↦ rw other (
    get_build-see (build_key x) item xs
        ∙ rw
            (apart_from (build_key x) (build_key item) (build_key x) other
              ((eq_iff (build_key x) (build_key x)).1 refl))
            a,
    see-AreOnce item xs h,
  )
]

see_all-AreOnce :
    (found by_build : List DiscoveredVersion) → AreOnce by_build → AreOnce (see_all by_build found)
unfolding see_all
see_all-AreOnce [] by_build h = h
see_all-AreOnce (x ∷ xs) by_build h = see_all-AreOnce xs (see x by_build) (see-AreOnce x by_build h)

-- Under a version and an ABI, dedupe has what it was first found as, with the hash, the build code
-- and the date that the first of its findings to know one gives; and it has nothing twice.
pub dedupe_lem :
    (k : String) (found : List DiscoveredVersion)
    → (get_build k (dedupe found) ≡ described (keep (λ y. str_eq (build_key y) k) found))
      × AreOnce (dedupe found)
unfolding dedupe get_build
dedupe_lem k found = (
  get_build-see_all k found [] ∙ taken_in-none (keep (λ y. str_eq (build_key y) k) found),
  see_all-AreOnce found [] tt,
)
