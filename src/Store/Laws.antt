-- ===== src/Store/Laws.antt =====
-- internal/db/runs.sql.go: how the updates of runs act on the row that is found.
use croncontrol.Prelude.{
  ◌≡◌, ◌≢◌, sym, ◌∙◌, ap, Bool, true, false, some, List, ◌&&◌, find, Bool-cases, inl, inr, [], ◌∷◌,
  String, same, same_iff, same_ne, find-update_where, find-update_where_other, find-append,
  find-passes, arith,
}
use croncontrol.Store.Tables.{Run, Store}
use croncontrol.Store.Runs.{update_run, find_run, get_run, CreateRun, new_run, create_run}

-- The row with this key is `r`.
abbrev pub Row : String → Run → Store → Type 0
Row id r s = find_run id s ≡ some r

-- A change of a row that leaves its key alone.
abbrev pub KeepsId : (Run → Run) → Type 0
KeepsId f = (r : Run) → (f r).id ≡ r.id

pub find_run-update_run :
    (id : String) (f : Run → Run) (s : Store) (r : Run)
    → KeepsId f
    → Row id r s
    → Row id (f r) (update_run id f s)
unfolding find_run update_run
find_run-update_run id f s r k h =
    find-update_where (λ r. same r.id id) f s.runs r h
      (ap (λ i. same i id) (k r) ∙ find-passes (λ r. same r.id id) s.runs r h)

pub find_run-update_run_ne :
    (id j : String) (f : Run → Run) (s : Store)
    → KeepsId f
    → j ≢ id
    → find_run j (update_run id f s) ≡ find_run j s
unfolding find_run update_run
find_run-update_run_ne id j f s k ne =
    find-update_where_other (λ r. same r.id id) (λ r. same r.id j) f s.runs
      (λ y e.
        let other : same y.id j ≡ false =
          same_ne y.id j (λ q. ne (sym q ∙ (same_iff y.id id).0 e)) in
        (other, ap (λ i. same i j) (k y) ∙ other))

-- A run that is created leaves the rows as they are.
pub find_run-create_run :
    (c : CreateRun) (s s' : Store) (id : String) (r : Run)
    → create_run c s ≡ some s'
    → Row id r s
    → Row id r s'
unfolding find_run create_run
find_run-create_run c s s' id r e h =
    ground (arith, find-append (λ r. same r.id id) s.runs (new_run c ∷ []) r)

find-and :
    (p q : Run → Bool) (rs : List Run) (r : Run)
    → find p rs ≡ some r
    → q r ≡ true
    → find (λ x. p x && q x) rs ≡ some r
find-and p q [] r h k = absurd cc
find-and p q (x ∷ rs) r h k = elim (Bool-cases (p x)) [
  | inl e ↦ ground (arith, e, h, k)
  | inr e ↦ ground (arith, e, h, find-and p q rs r)
]

-- The row with a key is also found with its workspace.
pub get_run-find_run :
    (id workspace_id : String) (s : Store) (r : Run)
    → Row id r s
    → r.workspace_id ≡ workspace_id
    → get_run id workspace_id s ≡ some r
unfolding find_run get_run
get_run-find_run id workspace_id s r h e =
    find-and (λ x. same x.id id) (λ x. same x.workspace_id workspace_id) s.runs r h
      ((same_iff r.workspace_id workspace_id).1 e)
