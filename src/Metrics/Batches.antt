-- ===== src/Metrics/Batches.antt =====
-- The loop over the batches of one table in metrics.ts, and what it leaves.
use native.Mathlib.Omega.{arith}
use magnemite.Prelude.{
  ℕ, zero, suc, ◌+◌, ◌-◌, ◌*◌, ◌≤◌, ◌<◌, ◌==◌, ◌≡◌, ◌∙◌, refl, sym, ap, subst, inl, inr, Bool-cases,
  ==_iff, ltb, if◌then◌else◌, Bool, true, false, not, Option, none, some, List, [], ◌∷◌, keep,
  length, take, count_if, find, IsKeyed, keep-IsKeyed,
}
use magnemite.Metrics.{is_old, is_in_batch, remove_ids, prune_batch, prune_table}

-- What a batch tells of the rows, by their numbers.
empty_batch : (b c k : ℕ) → b + (c - k) ≡ c → c == 0 ≡ true → b == 0 ≡ true
empty_batch b c k e h = ground arith

some_batch : (b c : ℕ) → b + (c - prune_batch) ≡ c → c == 0 ≡ false → b == 0 ≡ false
some_batch b c e h = ground arith

short_batch :
    (b c : ℕ) (t : Bool) → b + (c - prune_batch) ≡ c → ltb c prune_batch ≡ t → ltb b prune_batch ≡ t
short_batch b c true e h = ground arith
short_batch b c false e h = ground arith

ltb_at_most : {c k : ℕ} → ltb c k ≡ true → c ≤ k
ltb_at_most h = ground arith

fewer : (l d b c : ℕ) → d + b ≡ l → b + (c - prune_batch) ≡ c → c ≤ prune_batch → l - d ≡ c
fewer l d b c e f h = omega arith

less_by_batch :
    (c d fuel : ℕ)
    → d ≡ c - prune_batch
    → ltb c prune_batch ≡ false
    → c < suc fuel * prune_batch
    → d < fuel * prune_batch
less_by_batch c d fuel e m h = let at_least : prune_batch ≤ c = ground arith in omega arith

rest_counts :
    (l d b c : ℕ) {r : ℕ}
    → d + b ≡ l
    → b + (c - prune_batch) ≡ c
    → r ≡ c - prune_batch
    → l - d + r ≡ c
rest_counts l d b c e f g = omega arith

module _ {A : Type 0} (id at : A → ℕ) (cutoff : ℕ) where
  abbrev old : A → Bool
  old r = is_old id at cutoff r

  abbrev young : A → Bool
  young r = not (old r)

  -- Without the first `n` old rows.
  unfoldable drop_old : ℕ → List A → List A
  drop_old zero rows = rows
  drop_old (suc n) [] = []
  drop_old (suc n) (r ∷ rows) = if old r then drop_old n rows else r ∷ drop_old (suc n) rows

  is_in_batch-take :
      (k n : ℕ) (rows : List A)
      → find id k rows ≡ none
      → is_in_batch id at (take n (keep old rows)) k ≡ false
  unfolding find
  is_in_batch-take k zero rows e = refl
  is_in_batch-take k (suc n) [] e = refl
  is_in_batch-take k (suc n) (r ∷ rows) e = elim (Bool-cases (id r == k)) [
    | inl hit ↦ absurd (some-ne-none (rw hit at e))
    | inr miss ↦ elim (Bool-cases (old r)) [
      | inl y ↦ rw y (rw miss (is_in_batch-take k n rows (rw miss at e)))
      | inr n' ↦ rw n' (is_in_batch-take k (suc n) rows (rw miss at e))
    ]
  ]
    where
      some-ne-none : some r ≡ none → ⊥
      some-ne-none h = cc

  length-drop_old :
      (n : ℕ) (rows : List A)
      → length (drop_old n rows) + length (take n (keep old rows)) ≡ length rows
  unfolding drop_old
  length-drop_old zero rows = omega arith
  length-drop_old (suc n) [] = refl
  length-drop_old (suc n) (r ∷ rows) =
      ground (arith, length-drop_old n rows, length-drop_old (suc n) rows)

  keep-drop_old : (n : ℕ) (rows : List A) → keep young (drop_old n rows) ≡ keep young rows
  unfolding drop_old
  keep-drop_old zero rows = refl
  keep-drop_old (suc n) [] = refl
  keep-drop_old (suc n) (r ∷ rows) = elim (Bool-cases (old r)) [
    | inl y ↦ rw y (keep-drop_old n rows)
    | inr m ↦ rw m (rw m (ap (λ z. r ∷ z) (keep-drop_old (suc n) rows)))
  ]

  count_if-drop_old :
      (n : ℕ) (rows : List A) → count_if old (drop_old n rows) ≡ count_if old rows - n
  unfolding drop_old
  count_if-drop_old zero rows = omega arith
  count_if-drop_old (suc n) [] = omega arith
  count_if-drop_old (suc n) (r ∷ rows) =
      ground (arith, count_if-drop_old n rows, count_if-drop_old (suc n) rows)

  drop_old_all : (n : ℕ) (rows : List A) → count_if old rows ≤ n → drop_old n rows ≡ keep young rows
  unfolding drop_old
  drop_old_all zero [] le = refl
  drop_old_all (suc n) [] le = refl
  drop_old_all zero (r ∷ rows) le = elim (Bool-cases (old r)) [
    | inl y ↦ absurd (one-le-zero (rw y at le))
    | inr m ↦ rw m (ap (λ z. r ∷ z) (drop_old_all zero rows (rw m at le)))
  ]
    where
      one-le-zero : suc (count_if old rows) ≤ 0 → ⊥
      one-le-zero h = omega arith
  drop_old_all (suc n) (r ∷ rows) le = elim (Bool-cases (old r)) [
    | inl y ↦ rw y (drop_old_all n rows (let h = rw y at le in omega arith))
    | inr m ↦ rw m (ap (λ z. r ∷ z) (drop_old_all (suc n) rows (rw m at le)))
  ]

  all_young : (rows : List A) → count_if old rows ≡ 0 → rows ≡ keep young rows
  unfolding drop_old
  all_young rows e = drop_old_all 0 rows (omega arith)

  length-batch :
      (n : ℕ) (rows : List A)
      → length (take n (keep old rows)) + (count_if old rows - n) ≡ count_if old rows
  length-batch zero rows = omega arith
  length-batch (suc n) [] = omega arith
  length-batch (suc n) (r ∷ rows) = ground (arith, length-batch n rows, length-batch (suc n) rows)

  remove_ids_missing :
      (r : A) (batch rows : List A)
      → find id (id r) rows ≡ none
      → remove_ids id at (r ∷ batch) rows ≡ remove_ids id at batch rows
  unfolding find
  remove_ids_missing r batch [] e = refl
  remove_ids_missing r batch (x ∷ xs) e = elim (Bool-cases (id x == id r)) [
    | inl hit ↦ absurd (some-ne-none (rw hit at e))
    | inr miss ↦
        let away : id r == id x ≡ false = ground arith in
        let rest = remove_ids_missing r batch xs (rw miss at e) in
        elim (Bool-cases (is_in_batch id at batch (id x))) [
          | inl y ↦ rw (away, y) rest
          | inr n ↦ rw (away, n) (ap (λ z. x ∷ z) rest)
        ]
  ]
    where
      some-ne-none : some x ≡ none → ⊥
      some-ne-none h = cc

  remove_none : (rows : List A) → remove_ids id at [] rows ≡ rows
  remove_none [] = refl
  remove_none (r ∷ rows) = ap (λ z. r ∷ z) (remove_none rows)

  remove_ids-take :
      (n : ℕ) (rows : List A)
      → IsKeyed id rows
      → remove_ids id at (take n (keep old rows)) rows ≡ drop_old n rows
  unfolding drop_old
  remove_ids-take zero rows u = remove_none rows
  remove_ids-take (suc n) [] u = refl
  remove_ids-take (suc n) (r ∷ rows) (u, us) = elim (Bool-cases (old r)) [
    | inl y ↦
        let batch = take n (keep old rows) in
        let is_batch : keep old (r ∷ rows) ≡ r ∷ keep old rows = rw y refl in
        let first : remove_ids id at (r ∷ batch) (r ∷ rows) ≡ remove_ids id at (r ∷ batch) rows =
          rw (same (id r)) refl in
        let dropped : drop_old n rows ≡ drop_old (suc n) (r ∷ rows) = rw y refl in
        ap (λ b. remove_ids id at (take (suc n) b) (r ∷ rows)) is_batch
        ∙ first
        ∙ remove_ids_missing r batch rows u
        ∙ remove_ids-take n rows us
        ∙ dropped
    | inr m ↦
        let batch = take (suc n) (keep old rows) in
        let is_batch : keep old (r ∷ rows) ≡ keep old rows = rw m refl in
        let first : remove_ids id at batch (r ∷ rows) ≡ r ∷ remove_ids id at batch rows =
          rw (is_in_batch-take (id r) (suc n) rows u) refl in
        let kept : r ∷ drop_old (suc n) rows ≡ drop_old (suc n) (r ∷ rows) = rw m refl in
        ap (λ b. remove_ids id at (take (suc n) b) (r ∷ rows)) is_batch
        ∙ first
        ∙ ap (λ z. r ∷ z) (remove_ids-take (suc n) rows us)
        ∙ kept
  ]
    where
      same : (k : ℕ) → k == k ≡ true
      same k = ground arith

  drop_old-IsKeyed : (n : ℕ) (rows : List A) → IsKeyed id rows → IsKeyed id (drop_old n rows)
  drop_old-IsKeyed n rows u =
      subst (IsKeyed id) (remove_ids-take n rows u) (keep-IsKeyed id _ rows u)

  result_of :
      {a b : ℕ} {xs ys : List A}
      → a ≡ b
      → xs ≡ ys
      → ◌≡◌ {A = Option (ℕ × List A)} (some (a, xs)) (some (b, ys))
  result_of p q = rw (p, q) refl

  -- Each round that is not the last removes a whole batch of old rows.
  pub prune_table_lem :
      (fuel : ℕ) (rows : List A)
      → IsKeyed id rows
      → count_if old rows < fuel * prune_batch
      → prune_table id at fuel cutoff rows ≡ some (count_if old rows, keep young rows)
  unfolding prune_table
  prune_table_lem zero rows u enough = absurd (omega arith)
  prune_table_lem (suc fuel) rows u enough =
      let taken = length-batch prune_batch rows in
      let removed = remove_ids-take prune_batch rows u in
      let size = length-drop_old prune_batch rows in
      let left = count_if-drop_old prune_batch rows in
      elim (Bool-cases (count_if old rows == 0)) [
        | inl none_old ↦
            let nothing = (==_iff _ _).0 none_old in
            rw (empty_batch _ _ _ taken none_old) (result_of (sym nothing) (all_young rows nothing))
        | inr some_old ↦ elim (Bool-cases (ltb (count_if old rows) prune_batch)) [
          | inl last ↦
              rw (some_batch _ _ taken some_old, short_batch _ _ true taken last, removed)
                (result_of (fewer _ _ _ _ size taken (ltb_at_most last))
                  (drop_old_all prune_batch rows (ltb_at_most last)))
          | inr more ↦
              let again =
                prune_table_lem fuel (drop_old prune_batch rows)
                  (drop_old-IsKeyed prune_batch rows u) (less_by_batch _ _ fuel left more enough) in
              rw (some_batch _ _ taken some_old, short_batch _ _ false taken more, removed, again)
                (result_of (rest_counts _ _ _ _ size taken left) (keep-drop_old prune_batch rows))
        ]
      ]
