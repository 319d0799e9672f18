-- ===== src/EnvOps/Deploy.antt =====
-- The deploy steps of service/envsvc.go: one goroutine for each instance, and `wg.Wait()` for all.
-- The goroutines take their turns in an order that the Go scheduler chooses.
use schedulx.Prelude.{ℕ, String, List, [], ◌∷◌, Option, none, some}
use schedulx.Effect.{Error, Exec, pure, raise, gets, ◌>>=◌, ◌>>◌, for_each}
use schedulx.Types.{InstanceInfo, InstanceAuth, InstanceStatus}
use schedulx.Env.{Env}
use schedulx.World.{Site, on_instances, on_cloud}
use schedulx.Repo.Instances.{up_insert_instance_batch_by_cluster}
use schedulx.EnvOps.Verdict.{deploy_before_download_init_single, exec_cmd_single}
use schedulx.EnvOps.Jobs.{call_back_svc}

-- `if err == nil && e != nil { err = e }`
unfoldable pub first_error : Option Error → Option Error → Option Error
first_error (some x) y = some x
first_error none y = y

unfoldable pub return_error : {S : Type 0} → Option Error → Exec S (Unit {0})
return_error none = pure tt
return_error (some x) = raise x

module _ (e : Env) where
  -- `DeployBeforeDownloadInitSingle` with its callback; the caller drops the error.
  unfoldable pub before_download_one :
      ℕ → String → Option InstanceAuth → InstanceInfo → Exec (Site e) (Unit {0})
  before_download_one task_id cmd auth inst = do
    v ← on_cloud (deploy_before_download_init_single e cmd inst auth)
    call_back_svc e task_id inst v

  unfoldable pub deploy_before_download_init_async :
      ℕ → ℕ → String → List InstanceInfo → Option InstanceAuth → Exec (Site e) (Unit {0})
  deploy_before_download_init_async service_cluster_id task_id cmd instances auth = do
    on_instances (up_insert_instance_batch_by_cluster e instances task_id service_cluster_id)
    order ← gets (λ s. e.remote.arranged instances s.cloud)
    for_each order (before_download_one task_id cmd auth)

  -- `ExecCmdWithUpdateInstanceStatus`
  unfoldable pub exec_cmd_with_update :
      ℕ
      → String
      → Option InstanceAuth
      → InstanceStatus
      → InstanceInfo
      → Exec (Site e) (Option Error)
  exec_cmd_with_update task_id cmd auth status inst = do
    v ← on_cloud (exec_cmd_single e cmd inst auth status)
    call_back_svc e task_id inst v
    pure v.returned

  -- The goroutines in their order, with the shared `err`.
  unfoldable pub deploy_each :
      ℕ
      → String
      → Option InstanceAuth
      → InstanceStatus
      → List InstanceInfo
      → Option Error
      → Exec (Site e) (Option Error)
  deploy_each task_id cmd auth status [] shared = pure shared
  deploy_each task_id cmd auth status (inst ∷ l) shared = do
    x ← exec_cmd_with_update task_id cmd auth status inst
    deploy_each task_id cmd auth status l (first_error shared x)

  unfoldable pub do_deploy :
      ℕ
      → String
      → List InstanceInfo
      → Option InstanceAuth
      → InstanceStatus
      → Exec (Site e) (Unit {0})
  do_deploy task_id cmd instances auth status = do
    order ← gets (λ s. e.remote.arranged instances s.cloud)
    problem ← deploy_each task_id cmd auth status order none
    return_error problem
