-- ===== src/Finite/Context.antt =====
-- `ExecutionContext` of src/distributed_runtime/finite/contracts.py, as far as a worker fills it in.
use ptf.Prelude.{ℕ, String, Option, leb}
use ptf.Core.Errors.{Result, ok, require, value_error, ◌>>◌}
use ptf.Core.Lifecycle.{Deadline, CancellationSource, new_source}
use ptf.Core.Name.{require_contract_name}

-- `class ExecutionContext`, as far as a worker fills it in
pub record ExecutionContext : Type 0 where
  pub run_id : String
  pub execution_id : String
  pub attempt : ℕ
  pub idempotency_key : String
  pub cancellation : CancellationSource
  pub deadline : Option Deadline

-- `ExecutionContext(...)`, with the tests of `__post_init__`
unfoldable pub execution_context :
    String → String → ℕ → String → Option Deadline → Result ExecutionContext
execution_context run_id id attempt key deadline = do
  require (leb 1 attempt) (value_error "attempt must be a positive integer")
  require_contract_name "idempotency_key" key
  ok (record {
    run_id = run_id;
    execution_id = id;
    attempt = attempt;
    idempotency_key = key;
    cancellation = new_source;
    deadline = deadline;
  })
