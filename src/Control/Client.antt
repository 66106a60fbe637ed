-- ===== src/Control/Client.antt =====
-- Finite runs for products: `RuntimeClient` of src/distributed_runtime/control/client.py. The
-- identifier that `uuid4` would make is an argument; `wait` is modelled with the reads of the
-- run's row that its polls make, in order.
use Prim.Native.String.{◌++◌}
use ptf.Prelude.{ℕ, String, Option, none, some, List, [], ◌∷◌}
use ptf.Core.Enums.{RunStatus}
use ptf.Core.Json.{JsonFields}
use ptf.Core.Errors.{Result, ok, err, timeout_error}
use ptf.State.Tx.{Tx, pure, ◌>>=◌}
use ptf.State.Finite.Runs.{StoredRun, pending_run, submit_run, get_run, transition_run}

-- `class SubmittedRun`
pub record SubmittedRun : Type 0 where
  pub run_id : String
  pub status : RunStatus

-- the fields of a `RuntimeClient`
pub record RuntimeClient : Type 0 where
  pub application : String
  pub planner_revision : String
  pub execution_revision : String

unfoldable pub submit : RuntimeClient → ℕ → String → String → String → JsonFields → Tx SubmittedRun
submit client now run_id workload version input = do
  stored ← submit_run (
      pending_run now run_id (client.application ++ ("." ++ workload)) workload version
        client.planner_revision client.execution_revision input)
  pure (record { run_id = stored.run_id; status = stored.status })

unfoldable pub get : String → Tx (Option StoredRun)
get run_id = get_run run_id

-- `run is not None and run.status in terminal`, with the status
abbrev pub terminal_status : Option StoredRun → Option RunStatus
terminal_status none = none
terminal_status (some run) = ended run.status
  where
    ended : RunStatus → Option RunStatus
    ended RunStatus.succeeded = some RunStatus.succeeded
    ended RunStatus.failed = some RunStatus.failed
    ended RunStatus.cancelled = some RunStatus.cancelled
    ended _ = none

-- `wait`; the list holds one read for each poll that the timeout leaves time for
unfoldable pub wait : List (Option StoredRun) → Result RunStatus
wait [] = err timeout_error
wait (run ∷ runs) = elim (terminal_status run) [ some s ↦ ok s | none ↦ wait runs ]

unfoldable pub cancel : String → Tx (Unit {0})
cancel run_id = transition_run run_id RunStatus.cancelled
