-- ===== src/Window/Laws.antt =====
-- What the install window admits.
use magnemite.Prelude.{ℕ, ◌≡◌, ◌≢◌, not, arith}
use magnemite.Window.{in_window}

-- A window that is not empty, and the one with its ends swapped, share the day: each minute is in
-- exactly one of them, on either side of midnight.
pub in_window_swap :
    (start end minutes : ℕ)
    → start ≢ end
    → in_window end start minutes ≡ not (in_window start end minutes)
unfolding in_window
in_window_swap start end minutes n = ground arith
