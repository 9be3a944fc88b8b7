-- ===== src/Store/Attempts.antt =====
-- internal/db/run_attempts.sql.go and internal/db/run_output.sql.go.
use croncontrol.Prelude.{
  ℤ, Option, none, some, [], ◌∷◌, ◌++◌, String, same, any, update_where, if◌then◌else◌,
}
use croncontrol.Store.Tables.{Bytes, Message, Stream, Store}

-- `CreateRunAttempt`; `none` is a violated primary key.
unfoldable pub create_run_attempt : String → String → ℤ → ℤ → Store → Option Store
create_run_attempt id run_id attempt_number started_at s =
    if any (λ a. same a.id id) s.run_attempts
    then none
    else some (record s {
      run_attempts =
          s.run_attempts
          ++ record {
            id = id;
            run_id = run_id;
            attempt_number = attempt_number;
            started_at = some started_at;
            finished_at = none;
            duration_ms = none;
            exit_code = none;
            error_message = none;
          }
            ∷ [];
    })

-- `FinishRunAttempt`.
unfoldable pub finish_run_attempt :
    String → ℤ → ℤ → Option ℤ → Option Message → Store → Option Store
finish_run_attempt id finished_at duration_ms exit_code error_message s = some (record s {
  run_attempts =
      update_where (λ a. same a.id id)
        (λ a. record a {
          finished_at = some finished_at;
          duration_ms = some duration_ms;
          exit_code = exit_code;
          error_message = error_message;
        })
        s.run_attempts;
})

-- `AppendRunOutput`; `none` is a violated primary key.
unfoldable pub append_run_output : String → String → Stream → Bytes → Store → Option Store
append_run_output id run_id stream content s =
    if any (λ o. same o.id id) s.run_output
    then none
    else some (record s {
      run_output =
          s.run_output
          ++ record { id = id; run_id = run_id; stream = stream; content = content } ∷ [];
    })
