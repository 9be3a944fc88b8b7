-- ===== src/Store/Claims.antt =====
-- internal/db/runs.sql.go, `ClaimPendingRuns`: which runs the orchestrator is given.
use mathlib.Core.List.{Memᴰ}
use croncontrol.Prelude.{
  ℕ, zero, suc, ◌≤◌, ◌≡◌, refl, sym, ap, subst, ℤ, ◌≤ℤ◌, Bool, true, List, [], ◌∷◌, Bool-cases, ◌⊎◌,
  inl, inr, All, All-imp, All-keep, length, take, keep, ltb_ℤ, arith,
}
use croncontrol.Store.Tables.{Run, Store}
use croncontrol.Store.Due.{IsDue, is_claimable_iff}
use croncontrol.Store.Lists.{insert_by, order_by, is_claimable, claim_pending_runs}

-- No row is due before one that stands in front of it.
abbrev pub IsAscending : (Run → ℤ) → List Run → Type 0
IsAscending key [] = Unit
IsAscending key (r ∷ rs) = All (λ x. key r ≤ℤ key x) rs × IsAscending key rs

module _ {ℓ} (P : Run → Type ℓ) (key : Run → ℤ) where
  All-insert_by : (r : Run) (xs : List Run) → P r → All P xs → All P (insert_by key r xs)
  unfolding insert_by
  All-insert_by r [] p h = (p, tt)
  All-insert_by r (x ∷ xs) p h = elim (Bool-cases (ltb_ℤ (key r) (key x))) [
    | inl e ↦ rw (e, insert_by) (p, h)
    | inr e ↦ rw (e, insert_by) (h.0, All-insert_by r xs p h.1)
  ]

  All-order_by : (xs : List Run) → All P xs → All P (order_by key xs)
  unfolding order_by
  All-order_by [] h = tt
  All-order_by (x ∷ xs) h = All-insert_by x (order_by key xs) h.0 (All-order_by xs h.1)

  All-take : (n : ℕ) (xs : List Run) → All P xs → All P (take n xs)
  All-take zero xs h = tt
  All-take (suc n) [] h = tt
  All-take (suc n) (x ∷ xs) h = (h.0, All-take n xs h.1)

module _ (key : Run → ℤ) where
  insert_by-IsAscending :
      (r : Run) (xs : List Run) → IsAscending key xs → IsAscending key (insert_by key r xs)
  unfolding insert_by
  insert_by-IsAscending r [] h = (tt, tt)
  insert_by-IsAscending r (x ∷ xs) h = elim (Bool-cases (ltb_ℤ (key r) (key x))) [
    | inl e ↦ rw (e, insert_by) ((before e, All-imp xs (λ y q. ground (arith, before e, q)) h.0), h)
    | inr e ↦
        rw (e, insert_by)
          (
            All-insert_by (λ y. key x ≤ℤ key y) key r xs (ground arith) h.0,
            insert_by-IsAscending r xs h.1,
          )
  ]
    where
      before : ltb_ℤ (key r) (key x) ≡ true → key r ≤ℤ key x
      before e = ground arith

  order_by-IsAscending : (xs : List Run) → IsAscending key (order_by key xs)
  unfolding order_by
  order_by-IsAscending [] = tt
  order_by-IsAscending (x ∷ xs) =
      insert_by-IsAscending x (order_by key xs) (order_by-IsAscending xs)

  take-IsAscending : (n : ℕ) (xs : List Run) → IsAscending key xs → IsAscending key (take n xs)
  take-IsAscending zero xs h = tt
  take-IsAscending (suc n) [] h = tt
  take-IsAscending (suc n) (x ∷ xs) h =
      (All-take (λ y. key x ≤ℤ key y) key n xs h.0, take-IsAscending n xs h.1)

length-take_le : (n : ℕ) (xs : List Run) → length (take n xs) ≤ n
length-take_le zero xs = omega arith
length-take_le (suc n) [] = omega arith
length-take_le (suc n) (x ∷ xs) = omega (arith, length-take_le n xs)

Mem-cons :
    (r x : Run) (xs ys : List Run) → (x ≡ r) ⊎ Memᴰ x xs → (Memᴰ x xs → Memᴰ x ys) → Memᴰ x (r ∷ ys)
Mem-cons r x xs ys (inl e) f = Memᴰ.head e
Mem-cons r x xs ys (inr m) f = Memᴰ.tail (f m)

Mem-front :
    (y x : Run) (xs ys : List Run) → Memᴰ x (y ∷ xs) → (Memᴰ x xs → Memᴰ x ys) → Memᴰ x (y ∷ ys)
Mem-front y x xs ys (Memᴰ.head e) f = Memᴰ.head e
Mem-front y x xs ys (Memᴰ.tail m) f = Memᴰ.tail (f m)

module _ (key : Run → ℤ) where
  Mem-insert_by : (r x : Run) (xs : List Run) → (x ≡ r) ⊎ Memᴰ x xs → Memᴰ x (insert_by key r xs)
  unfolding insert_by
  Mem-insert_by r x [] (inl e) = Memᴰ.head e
  Mem-insert_by r x [] (inr m) = elim m [ ]
  Mem-insert_by r x (y ∷ ys) h = elim (Bool-cases (ltb_ℤ (key r) (key y))) [
    | inl e ↦ rw (e, insert_by) (Mem-cons r x (y ∷ ys) (y ∷ ys) h (λ k. k))
    | inr e ↦
        rw (e, insert_by)
          (elim h [
            | inl q ↦ Memᴰ.tail (Mem-insert_by r x ys (inl q))
            | inr m ↦ Mem-front y x ys _ m (λ k. Mem-insert_by r x ys (inr k))
          ])
  ]

  Mem-order_by : (x : Run) (xs : List Run) → Memᴰ x xs → Memᴰ x (order_by key xs)
  unfolding order_by
  Mem-order_by x [] m = elim m [ ]
  Mem-order_by x (y ∷ ys) (Memᴰ.head e) = Mem-insert_by y x (order_by key ys) (inl e)
  Mem-order_by x (y ∷ ys) (Memᴰ.tail m) =
      Mem-insert_by y x (order_by key ys) (inr (Mem-order_by x ys m))

  All-Mem : (k : ℤ) (x : Run) (xs : List Run) → Memᴰ x xs → All (λ y. k ≤ℤ key y) xs → k ≤ℤ key x
  All-Mem k x [] m h = elim m [ ]
  All-Mem k x (y ∷ ys) (Memᴰ.head e) h = subst (λ z. k ≤ℤ key z) (sym e) h.0
  All-Mem k x (y ∷ ys) (Memᴰ.tail m) h = All-Mem k x ys m h.1

  -- The first rows of an ascending list have a row of it, or they are as many as asked for, and none
  -- of them is later than that row.
  Mem-take :
      (n : ℕ) (x : Run) (xs : List Run)
      → IsAscending key xs
      → Memᴰ x xs
      → Memᴰ x (take n xs) ⊎ ((length (take n xs) ≡ n) × All (λ y. key y ≤ℤ key x) (take n xs))
  Mem-take zero x xs h m = inr (refl, tt)
  Mem-take (suc n) x [] h m = elim m [ ]
  Mem-take (suc n) x (y ∷ ys) h (Memᴰ.head e) = inl (Memᴰ.head e)
  Mem-take (suc n) x (y ∷ ys) h (Memᴰ.tail m) = elim (Mem-take n x ys h.1 m) [
    | inl k ↦ inl (Memᴰ.tail k)
    | inr (full, before) ↦ inr (ap suc full, (All-Mem (key y) x ys m h.0, before))
  ]

Mem-keep : (p : Run → Bool) (x : Run) (xs : List Run) → p x ≡ true → Memᴰ x xs → Memᴰ x (keep p xs)
Mem-keep p x [] e m = elim m [ ]
Mem-keep p x (y ∷ ys) e (Memᴰ.head q) = rw (subst (λ z. p z ≡ true) q e) (Memᴰ.head q)
Mem-keep p x (y ∷ ys) e (Memᴰ.tail m) = elim (Bool-cases (p y)) [
  | inl k ↦ rw k (Memᴰ.tail (Mem-keep p x ys e m))
  | inr k ↦ rw k (Mem-keep p x ys e m)
]

keep-IsFrom :
    (p : Run → Bool) (all xs : List Run)
    → All (λ x. Memᴰ x all) xs
    → All (λ x. Memᴰ x all) (keep p xs)
keep-IsFrom p all [] h = tt
keep-IsFrom p all (y ∷ ys) h = elim (Bool-cases (p y)) [
  | inl k ↦ rw k (h.0, keep-IsFrom p all ys h.1)
  | inr k ↦ rw k (keep-IsFrom p all ys h.1)
]

All-self : (xs : List Run) → All (λ x. Memᴰ x xs) xs
All-self [] = tt
All-self (y ∷ ys) = (Memᴰ.head refl, All-imp ys (λ x m. Memᴰ.tail m) (All-self ys))

-- A claim gives at most `limit` runs of the table, earliest first, and each of them is due: pending
-- or queued, at or after its time, in an active workspace. A run of the table that is due is among
-- them, unless they are `limit` runs none of which is scheduled later than it.
pub claim_pending_runs_lem :
    (now : ℤ) (limit : ℕ) (s : Store)
    → let claimed = claim_pending_runs now limit s in
      (length claimed ≤ limit)
      × IsAscending (λ r. r.scheduled_at) claimed
      × All (λ r. Memᴰ r s.runs × IsDue now s r) claimed
      × ((r : Run)
          → Memᴰ r s.runs
          → IsDue now s r
          → Memᴰ r claimed
            ⊎ ((length claimed ≡ limit) × All (λ x. x.scheduled_at ≤ℤ r.scheduled_at) claimed))
unfolding claim_pending_runs
claim_pending_runs_lem now limit s = (
  length-take_le limit _,
  take-IsAscending key limit _ sorted,
  All-take P key limit _ (
      All-order_by P key found (
        All-both found (keep-IsFrom (is_claimable now s) s.runs s.runs (All-self s.runs)) (
          All-keep (IsDue now s) (is_claimable now s) s.runs
            (λ r e. (is_claimable_iff now s r).0 e)))),
  λ r m h. Mem-take key limit r _ sorted (
      Mem-order_by key r found
        (Mem-keep (is_claimable now s) r s.runs ((is_claimable_iff now s r).1 h) m)),
)
  where
    key : Run → ℤ
    key r = r.scheduled_at

    P : Run → Type 0
    P r = Memᴰ r s.runs × IsDue now s r

    found : List Run
    found = keep (is_claimable now s) s.runs

    sorted : IsAscending key (order_by key found)
    sorted = order_by-IsAscending key found

    All-both : (xs : List Run) → All (λ r. Memᴰ r s.runs) xs → All (IsDue now s) xs → All P xs
    All-both [] h k = tt
    All-both (x ∷ xs) h k = ((h.0, k.0), All-both xs h.1 k.1)
