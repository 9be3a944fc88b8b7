-- ===== src/Store/Processes.antt =====
-- internal/db/processes.sql.go: the queries on processes.
use croncontrol.Prelude.{
  Bool, true, false, Option, none, some, List, String, ◌&&◌, same, find, keep, any, update_where,
}
use croncontrol.Store.Tables.{
  ScheduleType, cron, fixed_delay, WorkspaceState, active, Process, Store,
}

-- `GetProcess`; `none` is pgx.ErrNoRows.
unfoldable pub get_process : String → String → Store → Option Process
get_process id workspace_id s =
    find (λ p. same p.id id && same p.workspace_id workspace_id) s.processes

abbrev pub depends_on : String → Option String → Bool
depends_on id none = false
depends_on id (some parent) = same parent id

-- `GetDependentProcesses`.
unfoldable pub get_dependent_processes : String → Store → List Process
get_dependent_processes id s =
    keep (λ p. depends_on id p.depends_on_process_id && p.enabled) s.processes

abbrev pub is_active_state : WorkspaceState → Bool
is_active_state active = true
is_active_state _ = false

-- The join with `workspaces` under the condition `w.state = 'active'`.
unfoldable pub in_active_workspace : String → Store → Bool
in_active_workspace workspace_id s =
    any (λ w. same w.id workspace_id && is_active_state w.state) s.workspaces

abbrev pub is_cron : ScheduleType → Bool
is_cron cron = true
is_cron _ = false

abbrev pub is_fixed_delay : ScheduleType → Bool
is_fixed_delay fixed_delay = true
is_fixed_delay _ = false

-- `ListEnabledCronProcesses`.
unfoldable pub list_enabled_cron_processes : Store → List Process
unfolding in_active_workspace
list_enabled_cron_processes s =
    keep (λ p. p.enabled && is_cron p.schedule_type && in_active_workspace p.workspace_id s)
      s.processes

-- `ListEnabledFixedDelayProcesses`.
unfoldable pub list_enabled_fixed_delay_processes : Store → List Process
unfolding in_active_workspace
list_enabled_fixed_delay_processes s =
    keep (λ p. p.enabled && is_fixed_delay p.schedule_type && in_active_workspace p.workspace_id s)
      s.processes

-- `SetProcessEnabled`.
unfoldable pub set_process_enabled : String → String → Bool → Store → Option Store
set_process_enabled id workspace_id enabled s = some (record s {
  processes =
      update_where (λ p. same p.id id && same p.workspace_id workspace_id)
        (λ p. record p { enabled = enabled }) s.processes;
})
