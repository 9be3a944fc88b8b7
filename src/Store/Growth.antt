-- ===== src/Store/Growth.antt =====
-- internal/db/runs.sql.go, `CreateRun`: a table of runs that only grows.
use croncontrol.Prelude.{◌≡◌, ◌∙◌, ap, some, List, [], ◌∷◌, ◌++◌, All, All-append, arith, sym}
use mathlib.Core.List.{append-nil, append_assoc}
use croncontrol.Store.Tables.{Run, Store}
use croncontrol.Store.Runs.{CreateRun, new_run, create_run}

-- Since the runs were `old`, rows have been added at the end, and every one of them satisfies `Q`.
abbrev pub Grew : (Run → Type 0) → List Run → Store → Type 0
Grew Q old s = (added : List Run) × (s.runs ≡ old ++ added) × All Q added

pub Grew-refl : (Q : Run → Type 0) (s : Store) → Grew Q s.runs s
Grew-refl Q s = ([], sym (append-nil s.runs), tt)

pub create_run-runs :
    (c : CreateRun) (s s' : Store) → create_run c s ≡ some s' → s'.runs ≡ s.runs ++ new_run c ∷ []
unfolding create_run
create_run-runs c s s' e = ground arith

pub create_run-Grew :
    (Q : Run → Type 0) (old : List Run) (c : CreateRun) (s s' : Store)
    → Q (new_run c)
    → create_run c s ≡ some s'
    → Grew Q old s
    → Grew Q old s'
create_run-Grew Q old c s s' q e (added, h, all) = (
  added ++ new_run c ∷ [],
  create_run-runs c s s' e
      ∙ ap (λ l. l ++ new_run c ∷ []) h
      ∙ append_assoc old added (new_run c ∷ []),
  All-append Q added (new_run c ∷ []) all (q, tt),
)
