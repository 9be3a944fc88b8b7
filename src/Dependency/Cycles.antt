-- ===== src/Dependency/Cycles.antt =====
-- internal/dependency/resolver.go, `ValidateNoCycles`: what it finds.
use croncontrol.Prelude.{
  ℕ, suc, ◌≡◌, refl, ◌≢◌, true, false, none, some, List, [], ◌∷◌, String, same, same_iff, same_ne,
  All, arith, find, ◌&&◌, any, sym,
}
use croncontrol.Store.{Process, Store, get_process}
use croncontrol.World.{World, Env, ◌>>=◌}
use croncontrol.World.Hoare.{fetch_row-none}
use croncontrol.Dependency.{walk, validate_no_cycles}

-- No process belongs to the workspace with the empty identifier.
abbrev pub NoEmptyWorkspace : Store → Type 0
NoEmptyWorkspace s = All (λ p. p.workspace_id ≢ "") s.processes

find-none :
    (id : String) (ps : List Process)
    → All (λ p. p.workspace_id ≢ "") ps
    → find (λ p. same p.id id && same p.workspace_id "") ps ≡ none
find-none id [] h = refl
find-none id (p ∷ ps) h = ground (arith, same_ne p.workspace_id "" h.0, find-none id ps h.1)

get_process_empty : (id : String) (s : Store) → NoEmptyWorkspace s → get_process id "" s ≡ none
unfolding get_process
get_process_empty id s h = find-none id s.processes h

-- The first lookup of a walk in the empty workspace ends it.
walk_empty :
    (env : Env) (fuel : ℕ) (visited : List String) (id : String) (w : World)
    → NoEmptyWorkspace w.store
    → id ≢ ""
    → any (same id) visited ≡ false
    → (walk env "" (suc fuel) visited id w).0 ≡ some none
unfolding walk
walk_empty env fuel visited id w h ne new =
    rw (same_ne id "" ne, new, walk)
      (rw (fetch_row-none env (get_process id "") w (get_process_empty id w.store h), ◌>>=◌) refl)

-- In a database where no workspace has the empty identifier, the check finds that a process depends
-- on itself, and no other cycle: for any two different processes it reports none, whatever
-- dependencies are stored, and it makes no second step.
pub validate_no_cycles_finds :
    (env : Env) (fuel : ℕ) (child parent : String) (w : World)
    → NoEmptyWorkspace w.store
    → parent ≢ ""
    → (child ≡ parent → (validate_no_cycles env (suc fuel) child parent w).0 ≡ some (some parent))
      × (child ≢ parent → (validate_no_cycles env (suc fuel) child parent w).0 ≡ some none)
unfolding validate_no_cycles
validate_no_cycles_finds env fuel child parent w h ne = (equal, different)
  where
    sym_test : child ≡ parent → same parent child ≡ true
    sym_test e = (same_iff parent child).1 (sym e)

    equal : child ≡ parent → (walk env "" (suc fuel) (child ∷ []) parent w).0 ≡ some (some parent)
    equal e = rw (same_ne parent "" ne, sym_test e, walk) refl

    different : child ≢ parent → (walk env "" (suc fuel) (child ∷ []) parent w).0 ≡ some none
    different d =
        walk_empty env fuel (child ∷ []) parent w h ne
          (ground (arith, same_ne parent child (λ e. d (sym e))))
