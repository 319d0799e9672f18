-- ===== src/Instr/Expand.antt =====
-- `bridgXExpandAction`
use schedulx.Prelude.{ℕ, ◌==◌, String, none, some, if◌then◌else◌}
use schedulx.Effect.{
  new_error, Result, ok, err, Outcome, returns, fails, panics, crashes, Exec, pure, raise, panic,
  ◌>>=◌, ◌>>◌, attempt, ignore, on_exit,
}
use schedulx.Types.{bridgx_expand_init, bridgx_expand_succ}
use schedulx.Env.{Env}
use schedulx.World.{Site}
use schedulx.Repo.Tasks.{update_task_step}
use schedulx.Bridgx
use schedulx.Bridgx.{BridgxReq, BridgxResp, empty_resp}
use schedulx.Instr.Request.{InstrResp, no_resp, no_instances}

abbrev request : BridgxReq
request = record { count = 0; cluster_name = ""; task_id = 0; inst_group = none }

module _ (e : Env) where
  -- The task and its instances, and then what the query for the login gave.
  unfoldable pub expand_body : ℕ → String → Exec (Site e) (BridgxResp × Result BridgxResp)
  expand_body count cluster_name = do
    created ←
        Bridgx.exec_act e (record request { count = count; cluster_name = cluster_name })
          Bridgx.expand
    if created.task_id == 0 then raise (new_error "bridgx expand resp.taskid is 0") else do
      polled ←
          Bridgx.exec_act e (record request { task_id = created.task_id }) Bridgx.pool_query_expand
      if no_instances polled.inst_group then raise (new_error "no instances found!") else do
        login ←
            attempt (
              Bridgx.exec_act e (record request { cluster_name = cluster_name }) Bridgx.get_cluster)
        pure (record created { inst_group = polled.inst_group }, login)

  -- The step of success, unless `err` is set: also by the last query, whose error is not checked.
  unfoldable pub mark_expanded :
      ℕ → Outcome (BridgxResp × Result BridgxResp) → Exec (Site e) (Unit {0})
  mark_expanded task_id (returns (resp, ok login)) =
      ignore (update_task_step e task_id bridgx_expand_succ "")
  mark_expanded task_id (returns (resp, err x)) = pure tt
  mark_expanded task_id (fails x) = pure tt
  mark_expanded task_id panics = ignore (update_task_step e task_id bridgx_expand_succ "")
  mark_expanded task_id crashes = pure tt

  -- After an error of the last query its nil answer is dereferenced.
  unfoldable pub with_login : BridgxResp × Result BridgxResp → Exec (Site e) InstrResp
  with_login (resp, ok login) =
      pure (record no_resp { bridgx_resp = some (record resp { auth = login.auth }) })
  with_login (resp, err x) = panic

  unfoldable pub bridgx_expand_action : ℕ → ℕ → String → Exec (Site e) InstrResp
  unfolding expand_body mark_expanded with_login
  bridgx_expand_action task_id count cluster_name = do
    ignore (update_task_step e task_id bridgx_expand_init "")
    answer ← on_exit (mark_expanded task_id) (expand_body count cluster_name)
    with_login answer
