-- ===== src/PrintJobs/Gateway.antt =====
-- `PrinterGateway.dispatch` of app/workers/print_jobs.py. The printer's web service is outside the
-- program: what it answers is a value of `Answer`.
use naicha_backend.Exec.{Result, err, ok}
use naicha_backend.Models.Rows.{JobFailure, client_error, server_error, timed_out, transport_error}
use naicha_backend.Prelude.{Bool, if◌then◌else◌, leb, ltb, not, ℕ, ◌&&◌}

pub data Answer : Type 0 where
  timeout transport_failure other_exception : Answer
  answered : ℕ → Answer

pub data DispatchError : Type 0 where
  retryable non_retryable : JobFailure → DispatchError
  unexpected : DispatchError

-- `dispatch`; without a configured address it only logs.
unfoldable pub dispatch : Bool → Answer → Result DispatchError (Unit {0})
dispatch is_configured answer = if not is_configured then ok tt else elim answer [
  | timeout ↦ err (retryable timed_out)
  | transport_failure ↦ err (retryable transport_error)
  | other_exception ↦ err unexpected
  | answered status ↦
      if leb 500 status && ltb status 600
      then err (retryable (server_error status))
      else if leb 400 status
      then err (non_retryable (client_error status))
      else ok tt
]
