-- ===== src/Executor/Backoff/Delay.antt =====
-- internal/executor/orchestrator.go, `calculateBackoff`: which delay an attempt gets.
use Prim.Native.Nat.{min}
use croncontrol.Prelude.{
  ℕ, zero, suc, ◌≡◌, refl, ℤ, pos, negsuc, ◌+ℤ◌, ◌-ℤ◌, ◌≤ℤ◌, none, some, List, [], ◌∷◌, length,
  get_elem?, arith,
}
use croncontrol.Executor.Backoff.{minute, at_index, backoff_index, calculate_backoff}

-- The delay after `k` steps along a list, which stays at the last entry.
abbrev pub delay_after : ℕ → ℤ → List ℤ → ℤ
delay_after k d [] = d
delay_after zero d (x ∷ xs) = d
delay_after (suc k) d (x ∷ xs) = delay_after k x xs

backoff_index-suc : (k n : ℕ) → backoff_index (pos (suc k)) (suc n) ≡ pos (min k n)
unfolding backoff_index ◌-ℤ◌
backoff_index-suc k n = ground arith

-- The place in the list that `delay_after` ends at.
abbrev place : ℕ → List ℤ → ℕ
place k [] = 0
place zero (x ∷ xs) = 0
place (suc k) (x ∷ xs) = suc (place k xs)

place-eq-min : (k : ℕ) (ds : List ℤ) → place k ds ≡ min k (length ds)
place-eq-min k [] = omega arith
place-eq-min zero (x ∷ xs) = omega arith
place-eq-min (suc k) (x ∷ xs) = omega (arith, place-eq-min k xs)

get_elem?-place :
    (k : ℕ) (d : ℤ) (ds : List ℤ) → get_elem? (d ∷ ds) (place k ds) ≡ some (delay_after k d ds)
get_elem?-place k d [] = refl
get_elem?-place zero d (x ∷ xs) = refl
get_elem?-place (suc k) d (x ∷ xs) = get_elem?-place k x xs

backoff_index-nonpos : (a : ℤ) (n : ℕ) → a ≤ℤ pos 0 → (m : ℕ) × (backoff_index a n ≡ negsuc m)
unfolding backoff_index ◌-ℤ◌
backoff_index-nonpos (pos a) n h = (0, ground arith)
backoff_index-nonpos (negsuc a) n h = (suc a, ground arith)

-- With no list the delay is a minute. With a list, attempt `k + 1` gets the delay after `k` steps
-- along the list, the last one if the list is shorter; and for an attempt that is not positive the
-- index is out of range, which panics.
pub calculate_backoff_lem :
    (from d : ℤ) (ds : List ℤ)
    → ((attempt : ℤ) → calculate_backoff from attempt [] ≡ some (from +ℤ minute))
      × ((k : ℕ)
          → calculate_backoff from (pos (suc k)) (d ∷ ds) ≡ some (from +ℤ delay_after k d ds))
      × ((attempt : ℤ) → attempt ≤ℤ pos 0 → calculate_backoff from attempt (d ∷ ds) ≡ none)
unfolding calculate_backoff at_index
calculate_backoff_lem from d ds = (λ attempt. refl, positive, panics)
  where
    positive :
        (k : ℕ) → calculate_backoff from (pos (suc k)) (d ∷ ds) ≡ some (from +ℤ delay_after k d ds)
    positive k =
        rw (backoff_index-suc k (length ds), calculate_backoff)
          (rw (← place-eq-min k ds) (rw (get_elem?-place k d ds)))

    panics : (attempt : ℤ) → attempt ≤ℤ pos 0 → calculate_backoff from attempt (d ∷ ds) ≡ none
    panics attempt h =
        let (m, e) = backoff_index-nonpos attempt (suc (length ds)) h in rw (e, calculate_backoff)

-- When attempt `k + 1`, which ended at `from`, is tried again.
abbrev pub retry_time : ℤ → ℕ → List ℤ → ℤ
retry_time from k [] = from +ℤ minute
retry_time from k (d ∷ ds) = from +ℤ delay_after k d ds

pub calculate_backoff-suc :
    (from : ℤ) (k : ℕ) (ds : List ℤ)
    → calculate_backoff from (pos (suc k)) ds ≡ some (retry_time from k ds)
calculate_backoff-suc from k [] = (calculate_backoff_lem from from []).0 (pos (suc k))
calculate_backoff-suc from k (d ∷ ds) = (calculate_backoff_lem from d ds).1 k
