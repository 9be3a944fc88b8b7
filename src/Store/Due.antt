-- ===== src/Store/Due.antt =====
-- internal/db/runs.sql.go, the WHERE clause of `ClaimPendingRuns`: which runs are due.
use mathlib.Core.List.{Memᴰ}
use croncontrol.Prelude.{
  ◌≡◌, refl, subst, ℤ, ◌≤ℤ◌, Bool, true, List, [], ◌∷◌, Bool-cases, ◌⊎◌, ◌↔◌, ◌&&◌, ◌||◌, inl, inr,
  any, String, same, same_iff, arith,
}
use croncontrol.RunState.{State, is_state}
use croncontrol.Store.Tables.{Run, Store, Workspace, WorkspaceState}
use croncontrol.Store.Processes.{is_active_state, in_active_workspace}
use croncontrol.Store.Lists.{is_claimable}

-- The workspace is there, and active.
abbrev pub IsActiveWorkspace : String → Store → Type 0
IsActiveWorkspace id s =
    (v : Workspace) × Memᴰ v s.workspaces × (v.id ≡ id) × (v.state ≡ WorkspaceState.active)

-- A run waits, its time has come, and its workspace is active.
abbrev pub IsDue : ℤ → Store → Run → Type 0
IsDue now s r =
    ((r.state ≡ State.pending) ⊎ (r.state ≡ State.queued))
    × (r.scheduled_at ≤ℤ now)
    × IsActiveWorkspace r.workspace_id s

is_active_iff : (v : WorkspaceState) → (is_active_state v ≡ true) ↔ (v ≡ WorkspaceState.active)
is_active_iff WorkspaceState.active = (λ e. refl, λ e. refl)
is_active_iff WorkspaceState.suspended = (λ e. cc, λ e. cc)
is_active_iff WorkspaceState.archived = (λ e. cc, λ e. cc)

waits_iff :
    (s : State)
    → (is_state s State.pending || is_state s State.queued ≡ true)
      ↔ ((s ≡ State.pending) ⊎ (s ≡ State.queued))
waits_iff State.pending = (λ e. inl refl, λ e. refl)
waits_iff State.queued = (λ e. inr refl, λ e. refl)
waits_iff _ = (λ e. cc, λ h. elim h [ inl e ↦ cc | inr e ↦ cc ])

any-Mem :
    (p : Workspace → Bool) (x : Workspace) (vs : List Workspace)
    → Memᴰ x vs
    → p x ≡ true
    → any p vs ≡ true
any-Mem p x [] m h = elim m [ ]
any-Mem p x (v ∷ vs) (Memᴰ.head e) h = rw (subst (λ z. p z ≡ true) e h) refl
any-Mem p x (v ∷ vs) (Memᴰ.tail m) h = elim (Bool-cases (p v)) [
  | inl e ↦ rw e refl
  | inr e ↦ rw (e, any-Mem p x vs m h) refl
]

active_iff :
    (id : String) (vs : List Workspace)
    → (any (λ v. same v.id id && is_active_state v.state) vs ≡ true)
      ↔ ((v : Workspace) × Memᴰ v vs × (v.id ≡ id) × (v.state ≡ WorkspaceState.active))
active_iff id [] = (λ e. cc, λ h. elim h.1 [ ])
active_iff id (v ∷ vs) = (
  λ e. elim (Bool-cases (same v.id id && is_active_state v.state)) [
    | inl here ↦ (
      v,
      Memᴰ.head refl,
      (same_iff v.id id).0 (ground (arith, here)),
      (is_active_iff v.state).0 (ground (arith, here)),
    )
    | inr away ↦
        let (x, m, q, a) = (active_iff id vs).0 (ground (arith, away, e)) in (x, Memᴰ.tail m, q, a)
  ],
  λ h.
      any-Mem (λ x. same x.id id && is_active_state x.state) h.0 (v ∷ vs) h.1
        (rw ((same_iff h.0.id id).1 h.2, (is_active_iff h.0.state).1 h.3) refl),
)

pub is_claimable_iff :
    (now : ℤ) (s : Store) (r : Run) → (is_claimable now s r ≡ true) ↔ IsDue now s r
unfolding is_claimable in_active_workspace
is_claimable_iff now s r = (
  λ e. (
    (waits_iff r.state).0 (ground (arith, e)),
    ground (arith, e),
    (active_iff r.workspace_id s.workspaces).0 (ground (arith, e)),
  ),
  λ h.
      let waits = (waits_iff r.state).1 h.0 in
      let due = h.1 in
      let active = (active_iff r.workspace_id s.workspaces).1 h.2 in
      ground (arith, waits, due, active),
)
