-- ===== src/State/Continuous/Deployments.antt =====
-- Deployments: `create_deployment`, `transition_deployment`, `get_deployment`, `list_deployments` of
-- state/continuous.py.
use ptf.Prelude.{
  String, Bool, true, ◌==◌, Option, none, some, List, [], ◌∷◌, ◌++◌, map, nat_eq, if◌then◌else◌,
}
use ptf.Prelude.Table.{find_where, update_where, count_where, exists_where, select_where, order_by}
use ptf.Core.Enums.{DeploymentStatus}
use ptf.Core.Json.{JsonFields}
use ptf.Core.Errors.{lookup_error, assertion_error}
use ptf.State.Db.{Db, DeploymentRow}
use ptf.State.Tx.{Tx, pure, query, transaction, or_raise, raise_if, ◌>>=◌, ◌>>◌}

-- `class StoredDeployment`
pub record StoredDeployment : Type 0 where
  pub deployment_id : String
  pub workload_id : String
  pub workload_version : String
  pub status : DeploymentStatus
  pub config : JsonFields

-- `_deployment_from_row`
abbrev pub deployment_from_row : DeploymentRow → StoredDeployment
deployment_from_row r = record {
  deployment_id = r.deployment_id;
  workload_id = r.workload_id;
  workload_version = r.workload_version;
  status = r.status;
  config = r.config;
}

abbrev pub has_deployment_id : String → DeploymentRow → Bool
has_deployment_id id r = r.deployment_id == id

abbrev fields_or_none : Option JsonFields → JsonFields
fields_or_none none = JsonFields.end
fields_or_none (some f) = f

abbrev pub pending_deployment : String → String → String → Option JsonFields → DeploymentRow
pending_deployment id workload version config = record {
  deployment_id = id;
  workload_id = workload;
  workload_version = version;
  status = DeploymentStatus.pending;
  config = fields_or_none config;
}

-- `INSERT INTO continuous_deployments ... ON CONFLICT (deployment_id) DO NOTHING`
unfoldable pub insert_deployment : DeploymentRow → Db → Db
insert_deployment row db = record db {
  deployments =
      if exists_where (has_deployment_id row.deployment_id) db.deployments
      then db.deployments
      else db.deployments ++ row ∷ [];
}

unfoldable pub create_deployment :
    String → String → String → Option JsonFields → Tx StoredDeployment
unfolding insert_deployment
create_deployment id workload version config = transaction (do
  (λ db. pure tt (insert_deployment (pending_deployment id workload version config) db))
  found ← query (λ db. find_where (has_deployment_id id) db.deployments)
  r ← or_raise found assertion_error
  pure (deployment_from_row r))

abbrev pub set_deployment_status : DeploymentStatus → DeploymentRow → DeploymentRow
set_deployment_status status r = record r { status = status }

unfoldable pub transition_deployment : String → DeploymentStatus → Tx (Unit {0})
transition_deployment id status = do
  changed ← query (λ db. count_where (has_deployment_id id) db.deployments)
  (λ db. pure tt (record db {
    deployments = update_where (has_deployment_id id) (set_deployment_status status) db.deployments;
  }))
  raise_if (nat_eq changed 0) (lookup_error "unknown deployment")

abbrev map_deployment : Option DeploymentRow → Option StoredDeployment
map_deployment none = none
map_deployment (some r) = some (deployment_from_row r)

unfoldable pub get_deployment : String → Tx (Option StoredDeployment)
get_deployment id = query (λ db. map_deployment (find_where (has_deployment_id id) db.deployments))

-- the test `same` is the equality of statuses
unfoldable pub list_deployments :
    (String → String → Bool)
    → (DeploymentStatus → DeploymentStatus → Bool)
    → Option (List DeploymentStatus)
    → Tx (List StoredDeployment)
list_deployments collation same statuses = query (λ db. map deployment_from_row (
    order_by (λ a b. collation a.deployment_id b.deployment_id)
      (select_where
        (λ r. elim statuses [ none ↦ true | some wanted ↦ exists_where (same r.status) wanted ])
        db.deployments)))
