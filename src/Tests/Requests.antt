-- ===== src/Tests/Requests.antt =====
-- The theorems on the handlers and on identifiers, at concrete rows and texts.
use croncontrol.Prelude.{◌≡◌, refl, true, false, Bool, some, [], ◌∷◌, same}
use croncontrol.RunState.{kill_requested}
use croncontrol.Store.{Bytes, find_run, apply_update}
use croncontrol.World.{World}
use croncontrol.Handler.{
  Actor, run_status, kill_request, cancel_run, kill_run, pause_process, resume_process,
}
use croncontrol.Handler.Runs.{cancel_run_lem, kill_run_lem}
use croncontrol.Handler.Pausing.{resume_process-pause_process}
use croncontrol.Id.{four, new, is_valid_prefix, parse, parsed}
use croncontrol.Id.Parsing.{parse_iff}
use croncontrol.Tests.Samples.{pending_run, running_run, completed_run, world_of, reliable_env}

abbrev user : Actor
user = record { kind = "user"; id = "usr_1" }

abbrev one_running : World
one_running = world_of (running_run ∷ [])

cancel_run_example :
    (cancel_run reliable_env user "run_2" "wsp_1" one_running).0 ≡ run_status kill_requested
unfolding find_run same
cancel_run_example =
    (cancel_run_lem reliable_env (λ n. refl) user "run_2" running_run "wsp_1" one_running refl
      refl).0

-- A run that is completed is brought to `kill_requested`.
kill_run_example :
    find_run "run_4"
      (kill_run reliable_env user "run_4" "wsp_1" (world_of (completed_run ∷ []))).1.store
    ≡ some (apply_update (kill_request user) completed_run)
unfolding find_run same
kill_run_example =
    (kill_run_lem reliable_env (λ n. refl) user "run_4" completed_run "wsp_1"
      (world_of (completed_run ∷ [])) refl refl).0

abbrev some_pending : World
some_pending = world_of (pending_run ∷ running_run ∷ [])

resume_process-pause_process_example :
    (resume_process reliable_env "prc_1" "wsp_1"
      (pause_process reliable_env false "prc_1" "wsp_1" some_pending).1).1.store
    ≡ some_pending.store
unfolding same
resume_process-pause_process_example =
    resume_process-pause_process "prc_1" "wsp_1" reliable_env some_pending (λ n. refl)
      (λ e. refl, (λ e. refl, tt)) (refl, (refl, tt))

-- Stands for the test of the library: it accepts every text but the empty one.
abbrev not_empty : Bytes → Bool
not_empty [] = false
not_empty (c ∷ cs) = true

parse_iff_example :
    parse not_empty (b'r' ∷ b'u' ∷ b'n' ∷ b'_' ∷ b'7' ∷ [])
    ≡ parsed (four b'r' b'u' b'n') (b'7' ∷ [])
unfolding new is_valid_prefix
parse_iff_example =
    (parse_iff not_empty (b'r' ∷ b'u' ∷ b'n' ∷ b'_' ∷ b'7' ∷ []) (four b'r' b'u' b'n') (b'7' ∷ [])
        refl).1
      (refl, refl, refl)
