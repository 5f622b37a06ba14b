-- ===== src/Metrics/Gate.antt =====
-- The Map lastSampleAt of metrics.ts: what it has under a box after its changes.
use native.Mathlib.Omega.{arith}
use magnemite.Prelude.{
  ℕ, ◌==◌, ◌≡◌, refl, subst, inl, inr, Bool-cases, ==_iff, eq_of_some, find-keep_none,
  if◌then◌else◌, Bool, true, false, none, some, List, [], ◌∷◌, keep, find, IsKeyed,
}
use magnemite.Metrics.{LastSample, last_device, forget_sample, claim}

pub find-forget_same :
    (d : ℕ) (slots : List LastSample) → find last_device d (forget_sample d slots) ≡ none
unfolding find
find-forget_same d [] = refl
find-forget_same d (x ∷ xs) = ground (arith, find-forget_same d xs)

pub find-forget_other :
    (d e : ℕ) (slots : List LastSample)
    → e == d ≡ false
    → find last_device e (forget_sample d slots) ≡ find last_device e slots
unfolding find
find-forget_other d e [] h = refl
find-forget_other d e (x ∷ xs) h = ground (arith, find-forget_other d e xs h)

pub same : (k : ℕ) → k == k ≡ true
same k = ground arith

pub find-claim_same :
    (d e now : ℕ) (slots : List LastSample)
    → e == d ≡ true
    → find last_device e (claim d now slots) ≡ some (record { device_id = d; at = now })
unfolding find
find-claim_same d e now slots h = let there : d == e ≡ true = ground arith in rw there refl

pub find-claim_other :
    (d e now : ℕ) (slots : List LastSample)
    → e == d ≡ false
    → find last_device e (claim d now slots) ≡ find last_device e (forget_sample d slots)
unfolding find
find-claim_other d e now slots h = let away : d == e ≡ false = ground arith in rw away refl

pub find-keep_held :
    (p : LastSample → Bool) (d : ℕ) (slots : List LastSample) {g : LastSample}
    → IsKeyed last_device slots
    → find last_device d slots ≡ some g
    → find last_device d (keep p slots) ≡ (if p g then some g else none)
unfolding find
find-keep_held p d [] {g} u e = absurd (none-ne-some e)
  where
    none-ne-some : none ≡ some g → ⊥
    none-ne-some h = cc
find-keep_held p d (x ∷ xs) {g} (u, us) e = elim (Bool-cases (x.device_id == d)) [
  | inl hit ↦
      let is_x : x ≡ g = eq_of_some (rw hit at e) in
      let gone : find last_device d xs ≡ none =
        subst (λ k. find last_device k xs ≡ none) ((==_iff _ _).0 hit) u in
      elim (Bool-cases (p x)) [
        | inl y ↦
            subst (λ z. find last_device d (keep p (x ∷ xs)) ≡ (if p z then some z else none)) is_x
              (rw y (rw hit refl))
        | inr n ↦
            subst (λ z. find last_device d (keep p (x ∷ xs)) ≡ (if p z then some z else none)) is_x
              (rw n (find-keep_none last_device p d xs gone))
      ]
  | inr miss ↦
      let rest = find-keep_held p d xs us (rw miss at e) in
      elim (Bool-cases (p x)) [ inl y ↦ rw y (rw miss rest) | inr n ↦ rw n rest ]
]
