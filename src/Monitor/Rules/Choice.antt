-- ===== src/Monitor/Rules/Choice.antt =====
-- rulesFor: the rules that are chosen for a box.
use magnemite.Prelude.{
  ℕ, ◌==◌, ◌≡◌, ◌∙◌, refl, sym, ap, inl, inr, Bool-cases, ==_refl, if◌then◌else◌, Bool, true, false,
  not, ◌&&◌, ◌||◌, Option, or_else, eq_iff, List, [], ◌∷◌, any, All, All-map, arith,
}
use magnemite.Monitor.{MonitorRule}
use magnemite.Monitor.Rules.{same_key, is_scoped, applies, put_rule, choose_rules, rules_for}

-- The rules that are chosen have one for the key of the rule, and a group's if the rule is one.
abbrev pub is_covered : MonitorRule → List MonitorRule → Bool
is_covered rule chosen = any (λ w. same_key w rule && (is_scoped w || not (is_scoped rule))) chosen

abbrev pub HaveDistinctKeys : List MonitorRule → Type 0
HaveDistinctKeys [] = Unit
HaveDistinctKeys (w ∷ ws) = (any (λ v. same_key v w) ws ≡ false) × HaveDistinctKeys ws

pub record IsChoice (group : Option ℕ) (rules chosen : List MonitorRule) : Type 0 where
  pub distinct : HaveDistinctKeys chosen
  pub in_scope : All (λ w. applies group w ≡ true) chosen
  pub from_rules : All (λ w. any (λ r. r.id == w.id) rules ≡ true) chosen
  pub covered : All (λ r. applies group r ≡ true → is_covered r chosen ≡ true) rules

same_key_refl : (a : MonitorRule) → same_key a a ≡ true
unfolding same_key
same_key_refl a = ground (arith, eq_iff (or_else a.package_name "") (or_else a.package_name ""))

same_key_sym : (a b : MonitorRule) → same_key a b ≡ same_key b a
unfolding same_key
same_key_sym a b = ground (
  arith,
  eq_iff (or_else a.package_name "") (or_else b.package_name ""),
  eq_iff (or_else b.package_name "") (or_else a.package_name ""),
)

same_key_trans : (a b c : MonitorRule) → same_key a b ≡ true → same_key b c ≡ same_key a c
unfolding same_key
same_key_trans a b c e = ground (
  arith,
  eq_iff (or_else a.package_name "") (or_else b.package_name ""),
  eq_iff (or_else b.package_name "") (or_else c.package_name ""),
  eq_iff (or_else a.package_name "") (or_else c.package_name ""),
)

-- Rules of one key are alike to a third.
same_key_left : (v a b : MonitorRule) → same_key a b ≡ true → same_key v a ≡ same_key v b
same_key_left v a b e = same_key_sym v a ∙ sym (same_key_trans a b v e) ∙ same_key_sym b v

none_like :
    (a b : MonitorRule) (ws : List MonitorRule)
    → same_key a b ≡ true
    → any (λ v. same_key v a) ws ≡ any (λ v. same_key v b) ws
none_like a b [] e = refl
none_like a b (w ∷ ws) e =
    rw (same_key_left w a b e) (ap (λ t. same_key w b || t) (none_like a b ws e))

module _ (rule : MonitorRule) where
  put_rule-any :
      (x : MonitorRule) (ws : List MonitorRule)
      → same_key rule x ≡ false
      → any (λ v. same_key v x) ws ≡ false
      → any (λ v. same_key v x) (put_rule rule ws) ≡ false
  unfolding put_rule
  put_rule-any x [] n e = ground arith
  put_rule-any x (w ∷ ws) n e = ground (arith, put_rule-any x ws n)

  put_rule-HaveDistinctKeys :
      (ws : List MonitorRule) → HaveDistinctKeys ws → HaveDistinctKeys (put_rule rule ws)
  unfolding put_rule
  put_rule-HaveDistinctKeys [] d = (refl, tt)
  put_rule-HaveDistinctKeys (w ∷ ws) (n, d) = elim (Bool-cases (same_key w rule)) [
    | inl y ↦ elim (Bool-cases (not (is_scoped w) && is_scoped rule)) [
      | inl replaced ↦ rw (y, replaced) (sym (none_like w rule ws y) ∙ n, d)
      | inr kept ↦ rw (y, kept) (n, d)
    ]
    | inr other ↦
        rw other (put_rule-any w ws (same_key_sym rule w ∙ other) n, put_rule-HaveDistinctKeys ws d)
  ]

  put_rule-All {κ} :
      (P : MonitorRule → Type κ) (ws : List MonitorRule)
      → P rule
      → All P ws
      → All P (put_rule rule ws)
  unfolding put_rule
  put_rule-All P [] p h = (p, tt)
  put_rule-All P (w ∷ ws) p (q, h) = elim (Bool-cases (same_key w rule)) [
    | inl y ↦ elim (Bool-cases (not (is_scoped w) && is_scoped rule)) [
      | inl replaced ↦ rw (y, replaced) (p, h)
      | inr kept ↦ rw (y, kept) (q, h)
    ]
    | inr other ↦ rw other (q, put_rule-All P ws p h)
  ]

  put_rule-is_covered_self : (ws : List MonitorRule) → is_covered rule (put_rule rule ws) ≡ true
  unfolding put_rule
  put_rule-is_covered_self [] = let r = same_key_refl rule in ground arith
  put_rule-is_covered_self (w ∷ ws) =
      let r = same_key_refl rule in ground (arith, put_rule-is_covered_self ws)

  put_rule-is_covered :
      (q : MonitorRule) (ws : List MonitorRule)
      → is_covered q ws ≡ true
      → is_covered q (put_rule rule ws) ≡ true
  unfolding put_rule
  put_rule-is_covered q [] e = absurd (cc)
  put_rule-is_covered q (w ∷ ws) e =
      ground (arith, put_rule-is_covered q ws, same_key_trans w rule q)

module _ (group : Option ℕ) where
  choose_rules-is_covered :
      (q : MonitorRule) (chosen rules : List MonitorRule)
      → is_covered q chosen ≡ true
      → is_covered q (choose_rules group chosen rules) ≡ true
  unfolding choose_rules
  choose_rules-is_covered q chosen [] e = e
  choose_rules-is_covered q chosen (r ∷ rs) e =
      choose_rules-is_covered q (if applies group r then put_rule r chosen else chosen) rs
        (ground (arith, put_rule-is_covered r q chosen))

  choose_rules-covers :
      (chosen rules : List MonitorRule)
      → All
          (λ r. applies group r ≡ true → is_covered r (choose_rules group chosen rules) ≡ true)
          rules
  unfolding choose_rules
  choose_rules-covers chosen [] = tt
  choose_rules-covers chosen (r ∷ rs) = (
    (λ a.
        choose_rules-is_covered r (if applies group r then put_rule r chosen else chosen) rs
          (rw a (put_rule-is_covered_self r chosen))),
    choose_rules-covers (if applies group r then put_rule r chosen else chosen) rs,
  )

  choose_rules-All {κ} :
      (P : MonitorRule → Type κ) (chosen rules : List MonitorRule)
      → All (λ r. applies group r ≡ true → P r) rules
      → All P chosen
      → All P (choose_rules group chosen rules)
  unfolding choose_rules
  choose_rules-All P chosen [] new h = h
  choose_rules-All P chosen (r ∷ rs) (p, new) h = elim (Bool-cases (applies group r)) [
    | inl y ↦ rw y (choose_rules-All P (put_rule r chosen) rs new (put_rule-All r P chosen (p y) h))
    | inr n ↦ rw n (choose_rules-All P chosen rs new h)
  ]

  choose_rules-HaveDistinctKeys :
      (chosen rules : List MonitorRule)
      → HaveDistinctKeys chosen
      → HaveDistinctKeys (choose_rules group chosen rules)
  unfolding choose_rules
  choose_rules-HaveDistinctKeys chosen [] d = d
  choose_rules-HaveDistinctKeys chosen (r ∷ rs) d = elim (Bool-cases (applies group r)) [
    | inl y ↦ rw y (
        choose_rules-HaveDistinctKeys (put_rule r chosen) rs (put_rule-HaveDistinctKeys r chosen d))
    | inr n ↦ rw n (choose_rules-HaveDistinctKeys chosen rs d)
  ]

abbrev IsOf : List MonitorRule → MonitorRule → Type 0
IsOf rules w = any (λ r. r.id == w.id) rules ≡ true

all-IsOf : (rules : List MonitorRule) → All (IsOf rules) rules
all-IsOf [] = tt
all-IsOf (r ∷ rs) =
    (rw (==_refl r.id), All-map (IsOf rs) (IsOf (r ∷ rs)) rs (λ w h. ground arith) (all-IsOf rs))

abbrev Applies : Option ℕ → MonitorRule → Type 0
Applies group r = applies group r ≡ true

all_self :
    (group : Option ℕ) (rules : List MonitorRule)
    → All (λ r. applies group r ≡ true → Applies group r) rules
all_self group [] = tt
all_self group (r ∷ rs) = ((λ a. a), all_self group rs)

-- The rules chosen for a box of a group are of the given ones and apply to it, no two of them have
-- the same signal and package, and each rule that applies is met by a chosen one for its signal
-- and package, which is the group's own if the rule is.
pub rules_for-IsChoice :
    (rules : List MonitorRule) (group : Option ℕ) → IsChoice group rules (rules_for rules group)
unfolding rules_for
rules_for-IsChoice rules group = record {
  distinct = choose_rules-HaveDistinctKeys group [] rules tt;
  in_scope = choose_rules-All group (Applies group) [] rules (all_self group rules) tt;
  from_rules =
      choose_rules-All group (IsOf rules) [] rules
        (All-map (IsOf rules) (λ r. applies group r ≡ true → IsOf rules r) rules (λ w h a. h)
          (all-IsOf rules))
        tt;
  covered = choose_rules-covers group [] rules;
}

-- What holds of all rules, and that they apply, holds of the chosen ones.
pub rules_for-All {κ} :
    (P : MonitorRule → Type κ) (rules : List MonitorRule) (group : Option ℕ)
    → All P rules
    → All (λ r. P r × (applies group r ≡ true)) (rules_for rules group)
unfolding rules_for
rules_for-All P rules group h =
    choose_rules-All group (λ r. P r × Applies group r) [] rules
      (All-map P (λ r. applies group r ≡ true → P r × Applies group r) rules (λ r p a. (p, a)) h) tt
