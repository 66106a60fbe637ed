-- ===== src/Control/Admin.antt =====
-- Deployments: `ContinuousAdmin` of src/distributed_runtime/control/admin.py. The identifier that
-- `uuid4` would make is an argument.
use ptf.Prelude.{String, Bool, Option, none, some, List, [], ◌∷◌}
use ptf.Core.Enums.{DeploymentStatus}
use ptf.Core.Json.{JsonFields}
use ptf.Core.Errors.{lookup_error}
use ptf.State.Tx.{Tx, pure, or_raise, ◌>>=◌, ◌>>◌}
use ptf.State.Continuous.Deployments.{
  StoredDeployment, create_deployment, transition_deployment, get_deployment,
}
use ptf.State.Continuous.Sync.{StoredPartition, partitions}
use ptf.State.Continuous.Lease.{release_partition}

-- `class DeploymentView`
pub record DeploymentView : Type 0 where
  pub deployment : StoredDeployment
  pub partitions : List StoredPartition

unfoldable pub deploy : String → String → String → Option JsonFields → Tx StoredDeployment
deploy id workload version config = do
  deployment ← create_deployment id workload version config
  transition_deployment id DeploymentStatus.active
  pure deployment

-- the body of the loop in `drain`
abbrev pub release_owned : String → StoredPartition → Option String → Tx (Unit {0})
release_owned d p none = pure tt
release_owned d p (some owner) = do _ ← release_partition d p.partition_id p.fencing_token; pure tt

unfoldable pub release_all : String → List StoredPartition → Tx (Unit {0})
release_all d [] = pure tt
release_all d (p ∷ ps) = do release_owned d p p.owner_id; release_all d ps

unfoldable pub drain : (String → String → Bool) → String → Tx (Unit {0})
unfolding release_all
drain collation d = do
  transition_deployment d DeploymentStatus.draining
  owned ← partitions collation d
  release_all d owned

unfoldable pub stop : (String → String → Bool) → String → Tx (Unit {0})
unfolding drain
stop collation d = do drain collation d; transition_deployment d DeploymentStatus.stopped

unfoldable pub view : (String → String → Bool) → String → Tx DeploymentView
view collation d = do
  found ← get_deployment d
  deployment ← or_raise found (lookup_error "unknown deployment")
  ps ← partitions collation d
  pure (record { deployment = deployment; partitions = ps })
