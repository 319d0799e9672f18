-- ===== src/Instr/Shrink.antt =====
-- `bridgXShrinkAction`
use schedulx.Prelude.{ℕ, List, Option, none, some, map, length, if◌then◌else◌}
use schedulx.Effect.{Result, ok, err, Exec, pure, raise, panic, ◌>>=◌, attempt}
use schedulx.Types.{Instance, bridgx_shrink_init, bridgx_shrink_succ}
use schedulx.Env.{Env}
use schedulx.World.{Site, on_instances}
use schedulx.Repo.Instances.{info_of, not_deleted_insts_with_limit}
use schedulx.Bridgx
use schedulx.Bridgx.{BridgxReq, BridgxResp}
use schedulx.Instr.Request.{InstrResp, no_resp, no_instances, with_step}

-- The request with the instances that were fetched: all of them are counted.
unfoldable pub with_instances : BridgxReq → List Instance → BridgxReq
with_instances req insts = record req {
  inst_group = some (record { task_id = req.task_id; instance_list = map info_of insts });
  count = length insts;
}

module _ (e : Env) where
  -- The request goes without instances: they are fetched.
  unfoldable pub fetch_instances : BridgxReq → ℕ → Exec (Site e) BridgxReq
  unfolding with_instances no_instances
  fetch_instances req service_cluster_id =
      if no_instances req.inst_group
      then (do
        insts ← on_instances (not_deleted_insts_with_limit e service_cluster_id req.count)
        pure (with_instances req insts))
      else pure req

  unfoldable pub shrink_fetched : Result BridgxReq → Exec (Site e) (Result (BridgxReq × BridgxResp))
  shrink_fetched (err x) = pure (err x)
  shrink_fetched (ok req) = do
    started ← Bridgx.exec_act e req Bridgx.shrink
    let req' = record req { task_id = started.task_id }
    polled ← Bridgx.exec_act e req' Bridgx.pool_query_shrink
    pure (ok (req', polled))

  -- The error of the fetch is bound to a new `err` inside the `if`, which the deferred function does
  -- not read: it is handed on as a value, past the deferred function.
  unfoldable pub shrink_body : BridgxReq → ℕ → Exec (Site e) (Result (BridgxReq × BridgxResp))
  unfolding fetch_instances shrink_fetched
  shrink_body req service_cluster_id =
      attempt (fetch_instances req service_cluster_id) >>= shrink_fetched

  unfoldable pub shrunk : Result (BridgxReq × BridgxResp) → Exec (Site e) (BridgxReq × InstrResp)
  shrunk (err x) = raise x
  shrunk (ok (req, resp)) = pure (req, record no_resp { bridgx_resp = some resp })

  -- A nil request is dereferenced.
  unfoldable pub bridgx_shrink_action :
      ℕ → Option BridgxReq → ℕ → Exec (Site e) (BridgxReq × InstrResp)
  unfolding shrink_body shrunk
  bridgx_shrink_action task_id none service_cluster_id =
      with_step e task_id bridgx_shrink_init bridgx_shrink_succ panic
  bridgx_shrink_action task_id (some req) service_cluster_id =
      with_step e task_id bridgx_shrink_init bridgx_shrink_succ (shrink_body req service_cluster_id)
      >>= shrunk
