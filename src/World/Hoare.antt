-- ===== src/World/Hoare.antt =====
-- Rules for what an action does to the store: whatever the database fails at, and when it never
-- fails.
use croncontrol.Prelude.{
  ℕ, ◌≡◌, refl, Bool, true, false, Option, none, some, String, if◌then◌else◌, Bool-cases,
  Option-cases, ◌⊎◌, inl, inr,
}
use croncontrol.Store.{Store}
use croncontrol.World.{
  World, Env, M, ◌>>=◌, ◌>>◌, Signal, exec, exec_row, fetch, fetch_row, now, fresh, send, panic,
  settle, tick, done,
}

-- From a store with `P` the action leads to one with `Q`.
abbrev pub Hoare {ℓ κ} : {A : Type 0} → (Store → Type ℓ) → M A → (Store → Type κ) → Type (ℓ ⊔ κ)
Hoare P m Q = (w : World) → P w.store → Q (m w).1.store

-- The action leaves `P` as it is.
abbrev pub Keeps {ℓ} : {A : Type 0} → (Store → Type ℓ) → M A → Type ℓ
Keeps P m = Hoare P m P

-- The database never fails.
abbrev pub IsReliable : Env → Type 0
IsReliable env = (n : ℕ) → env.db_fails n ≡ false

module _ {ℓ} {A B : Type 0} (P Q R : Store → Type ℓ) where
  pub bind :
      (m : M A) (f : A → M B) → Hoare P m Q → ((a : A) → Hoare Q (f a) R) → Hoare P (m >>= f) R
  bind m f h k w p = k (m w).0 (m w).1 (h w p)

  pub seq : (m : M A) (k : M B) → Hoare P m Q → Hoare Q k R → Hoare P (m >> k) R
  seq m k h g w p = g (m w).1 (h w p)

module _ {ℓ} (env : Env) (P : Store → Type ℓ) where
  settled :
      (w : World) (o : Option Store)
      → P w.store
      → ((s : Store) → o ≡ some s → P s)
      → P (settle w o).1.store
  settled w none p h = p
  settled w (some s) p h = h s refl

  -- A statement that keeps `P` where it succeeds keeps `P`.
  pub exec-Keeps :
      (f : Store → Option Store)
      → ((s s' : Store) → f s ≡ some s' → P s → P s')
      → Keeps P (exec env f)
  unfolding exec
  exec-Keeps f h w p = elim (Bool-cases (env.db_fails w.step)) [
    | inl e ↦ rw e p
    | inr e ↦ rw e (settled (tick w) (f w.store) p (λ s q. h w.store s q p))
  ]

  pub fetch-Keeps : {A : Type 0} (f : Store → A) → Keeps P (fetch env f)
  unfolding fetch
  fetch-Keeps f w p = p

  pub fetch_row-Keeps : {A : Type 0} (f : Store → Option A) → Keeps P (fetch_row env f)
  unfolding fetch_row
  fetch_row-Keeps f w p = p

  pub now-Keeps : Keeps P (now env)
  unfolding now
  now-Keeps w p = p

  pub fresh-Keeps : (prefix : String) → Keeps P (fresh env prefix)
  unfolding fresh
  fresh-Keeps prefix w p = p

module _ {ℓ} (P : Store → Type ℓ) where
  pub send-Keeps : (s : Signal) → Keeps P (send s)
  unfolding send
  send-Keeps s w p = p

  pub panic-Keeps : Keeps P panic
  unfolding panic
  panic-Keeps w p = p

-- A statement of a reliable database does what it says.
pub exec_reliable :
    (env : Env) (f : Store → Option Store) (w : World) (s : Store)
    → IsReliable env
    → f w.store ≡ some s
    → exec env f w ≡ (true, record (tick w) { store = s })
unfolding exec
exec_reliable env f w s h e = rw (h w.step, e)

module _ {ℓ} (P : Store → Type ℓ) where
  -- A branch on an optional value that does nothing without one.
  pub on_some-Keeps :
      {A : Type 0} (o : Option A) (f : A → M (Unit {0}))
      → ((a : A) → Keeps P (f a))
      → Keeps P (elim o [ none ↦ done | some a ↦ f a ])
  on_some-Keeps none f h w p = p
  on_some-Keeps (some a) f h w p = h a w p

  pub if-Keeps :
      {A : Type 0} (b : Bool) (m k : M A) → Keeps P m → Keeps P k → Keeps P (if b then m else k)
  if-Keeps true m k h g = h
  if-Keeps false m k h g = g

module _ {ℓ} {A : Type 0} (env : Env) (Q : Store → Type ℓ) (f : Store → A)
    (k : A → M (Unit {0})) where
  fetched :
      (b : Bool) (a : A) (w : World)
      → Q w.store
      → Q (k a w).1.store
      → Q
          ((elim (if b then none else some a) as (λ o. M (Unit {0})) [ none ↦ done | some x ↦ k x ])
            w).1.store
  fetched true a w q h = q
  fetched false a w q h = h

  -- A query whose error ends the action: either nothing happens, or the rest runs on the rows that
  -- the store has.
  pub fetch_then :
      (w : World)
      → Q w.store
      → Q (k (f w.store) (tick w)).1.store
      → Q ((fetch env f >>= λ o. elim o [ none ↦ done | some x ↦ k x ]) w).1.store
  unfolding fetch
  fetch_then w q h = fetched (env.db_fails w.step) (f w.store) (tick w) q h

-- A query for a row that is not there gives an error, also where the database does not fail.
pub fetch_row-none :
    {A : Type 0} (env : Env) (f : Store → Option A) (w : World)
    → f w.store ≡ none
    → fetch_row env f w ≡ (none, tick w)
unfolding fetch_row
fetch_row-none env f w h = elim (Bool-cases (env.db_fails w.step)) [
  | inl e ↦ rw e refl
  | inr e ↦ rw (e, h) refl
]

-- A query of a reliable database gives what the store has.
pub fetch_reliable :
    {A : Type 0} (env : Env) (f : Store → A) (w : World)
    → IsReliable env
    → fetch env f w ≡ (some (f w.store), tick w)
unfolding fetch
fetch_reliable env f w h = rw (h w.step) refl

pub fetch_row_reliable :
    {A : Type 0} (env : Env) (f : Store → Option A) (w : World)
    → IsReliable env
    → fetch_row env f w ≡ (f w.store, tick w)
unfolding fetch_row
fetch_row_reliable env f w h = rw (h w.step) refl

-- The two ends of a statement: an error, and then the store is as before; or the new store.
pub exec-cases :
    (env : Env) (f : Store → Option Store) (w : World)
    → (exec env f w ≡ (false, tick w))
      ⊎ ((s : Store) × (f w.store ≡ some s)
          × (exec env f w ≡ (true, record (tick w) { store = s })))
unfolding exec
exec-cases env f w = elim (Bool-cases (env.db_fails w.step)) [
  | inl e ↦ inl (rw e refl)
  | inr e ↦ elim (Option-cases (f w.store)) [
    | inl n ↦ inl (rw (e, n) refl)
    | inr (s, q) ↦ inr (s, q, rw (e, q) refl)
  ]
]

-- The two ends of a query for one row.
pub fetch_row-cases :
    {A : Type 0} (env : Env) (f : Store → Option A) (w : World)
    → (fetch_row env f w ≡ (none, tick w)) ⊎ ((a : A) × (fetch_row env f w ≡ (some a, tick w)))
unfolding fetch_row
fetch_row-cases env f w = elim (Option-cases (if env.db_fails w.step then none else f w.store)) [
  | inl e ↦ inl (rw e refl)
  | inr (a, e) ↦ inr (a, rw e refl)
]

-- The same with the row that the store has.
pub fetch_row-found :
    {A : Type 0} (env : Env) (f : Store → Option A) (w : World)
    → (fetch_row env f w ≡ (none, tick w))
      ⊎ ((a : A) × (f w.store ≡ some a) × (fetch_row env f w ≡ (some a, tick w)))
unfolding fetch_row
fetch_row-found env f w = elim (Bool-cases (env.db_fails w.step)) [
  | inl e ↦ inl (rw e refl)
  | inr e ↦ elim (Option-cases (f w.store)) [
    | inl n ↦ inl (rw (e, n) refl)
    | inr (a, q) ↦ inr (a, q, rw (e, q) refl)
  ]
]

-- A statement that returns a row, of a reliable database.
pub exec_row_reliable :
    {A : Type 0} (env : Env) (f : Store → Option (A × Store)) (w : World) (a : A) (s : Store)
    → IsReliable env
    → f w.store ≡ some (a, s)
    → exec_row env f w ≡ (some a, record (tick w) { store = s })
unfolding exec_row
exec_row_reliable env f w a s h e = rw (h w.step, e) refl
