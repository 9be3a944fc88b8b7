-- ===== src/Executor/Dispatch/Beside.antt =====
-- internal/executor/orchestrator.go, `dispatch`: what becomes of a run of a cron process beside other
-- runs of it, from the overlap check to the end of the attempt.
use croncontrol.RunState.{State}
use croncontrol.Store.{OnOverlap, Store}
use croncontrol.World.{World}
use croncontrol.World.Hoare.{Hoare}
use croncontrol.Executor.Method.{Method}

-- The state of a run that is held back.
abbrev pub held_state : OnOverlap → State
held_state OnOverlap.skip = State.skipped
held_state OnOverlap.queue = State.queued
