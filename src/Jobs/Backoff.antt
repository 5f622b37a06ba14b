-- ===== src/Jobs/Backoff.antt =====
-- The hold of a job that has failed: doubled for each attempt, up to the ceiling.
use magnemite.Prelude.{
  ℕ, zero, suc, ◌+◌, ◌-◌, ◌*◌, ◌^◌, ◌≤◌, ◌<◌, min, ◌≡◌, some, arith, pow-suc, ap,
}
use magnemite.Jobs.{backoff_seconds, next_attempt_at}

-- What the doubling gives before the ceiling is put on it.
abbrev doubled : ℕ → ℕ → ℕ
doubled base attempt = base * 2 ^ (attempt - 1)

exponent : (a : ℕ) → 2 ^ (suc (suc a) - 1) ≡ 2 ^ (suc a - 1) * 2
exponent a = let e : suc (suc a) - 1 ≡ suc (suc a - 1) = omega arith in rw e (pow-suc 2 (suc a - 1))

doubled_step :
    (base attempt : ℕ)
    → (doubled base attempt ≤ doubled base (suc attempt))
      × (doubled base (suc attempt) ≤ 2 * doubled base attempt)
doubled_step base zero = omega arith
doubled_step base (suc a) = omega (arith, ap (λ t. base * t) (exponent a))

base-le-doubled : (base attempt : ℕ) → base ≤ doubled base attempt
base-le-doubled base zero = omega arith
base-le-doubled base (suc zero) = omega arith
base-le-doubled base (suc (suc a)) =
    omega (arith, base-le-doubled base (suc a), doubled_step base (suc a))

-- The hold lies between the base (or the ceiling, if that is less) and the ceiling; the next
-- attempt waits at least as long, and at most twice as long.
pub backoff_seconds_bounds :
    (base attempt : ℕ)
    → (backoff_seconds base attempt ≤ 1800)
      × (min base 1800 ≤ backoff_seconds base attempt)
      × (backoff_seconds base attempt ≤ backoff_seconds base (suc attempt))
      × (backoff_seconds base (suc attempt) ≤ 2 * backoff_seconds base attempt)
unfolding backoff_seconds
backoff_seconds_bounds base attempt =
    omega (arith, doubled_step base attempt, base-le-doubled base attempt)

later : (d : ℕ) → suc d + 12 ≡ suc (d + 12)
later d = omega arith

doubled_late : (base d : ℕ) → 0 < base → 1800 ≤ doubled base (d + 12)
doubled_late base zero h = omega arith
doubled_late base (suc d) h =
    rw (later d) (omega (arith, doubled_late base d h, doubled_step base (d + 12)))

-- A job with a positive base is held from now for the hold of its attempt; from the twelfth
-- attempt on that is the ceiling of half an hour, whatever the base.
pub next_attempt_at_late :
    (now base attempt : ℕ)
    → 0 < base
    → 12 ≤ attempt
    → next_attempt_at now base attempt ≡ some (now + 30 * 60 * 1000)
unfolding next_attempt_at backoff_seconds
next_attempt_at_late now base attempt h late =
    let e : attempt ≡ (attempt - 12) + 12 = omega arith in
    let big : 1800 ≤ doubled base attempt = rw e (doubled_late base (attempt - 12) h) in
    ground (arith, big)
