-- ===== src/Tests/Pagination.antt =====
-- The last page of a table of twelve rows.
use magnemite.Prelude.{◌≡◌, refl, List, [], ◌∷◌, ℕ}
use magnemite.Pagination.{ten, paginate, page_count_of, per_page}

abbrev twelve : List ℕ
twelve = 1 ∷ 2 ∷ 3 ∷ 4 ∷ 5 ∷ 6 ∷ 7 ∷ 8 ∷ 9 ∷ 10 ∷ 11 ∷ 12 ∷ []

last_page : (paginate twelve ten 7).rows ≡ 11 ∷ 12 ∷ []
unfolding paginate page_count_of per_page
last_page = refl
