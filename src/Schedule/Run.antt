-- ===== src/Schedule/Run.antt =====
-- `doInstr`, the loop over the instructions, and the three actions around it.
use Prim.Native.String.{◌++◌}
use schedulx.Prelude.{ℕ, List, [], ◌∷◌, Option, none, some}
use schedulx.Effect.{
  new_error, sys_panic, Outcome, returns, fails, panics, crashes, message, Exec, pure, raise, panic,
  ◌>>=◌, ◌>>◌, ignore, on_exit, goroutine,
}
use schedulx.Types.{
  success, fail, InstanceGroup, Action, bridgx_expand, bridgx_shrink, node_act_init_base,
  node_act_init_svc, mount_slb, umount_slb, mount_nginx, umount_nginx, node_act_before_download,
  node_act_download, node_act_before_deploy, node_act_deploy, node_act_after_deploy, other_action,
  nodeact_field, bridgx_field,
}
use schedulx.Db
use schedulx.Env.{Env}
use schedulx.World.{World, on_site, on_instructions}
use schedulx.Repo.Tasks.{update_task_status, update_task_relation_task_id}
use schedulx.Bridgx.{BridgxResp}
use schedulx.NodeAct.{NodeActResp}
use schedulx.Instr.{InstrReq, InstrResp}
use schedulx.Instr.Deploy.{with_nodes}
use schedulx.Instr.Exec.{Answer, exec_act}

-- The request with the instances of a response; the login stays.
abbrev pub with_group : InstrReq → Option InstanceGroup → InstrReq
with_group req g = record req { node_act_req = record req.node_act_req { inst_group = g } }

-- A field of the response, or of the request, behind a nil pointer.
unfoldable pub not_nil : {S A : Type 0} → Option A → Exec S A
not_nil none = panic
not_nil (some a) = pure a

abbrev pub bridgx_of : Option InstrResp → Option BridgxResp
bridgx_of none = none
bridgx_of (some r) = r.bridgx_resp

abbrev pub nodes_of : Option InstrResp → Option NodeActResp
nodes_of none = none
nodes_of (some r) = r.node_act_resp

module _ (e : Env) where
  -- The `switch` of `doInstr`: what goes into the request for the next round.
  unfoldable pub carry : Action → Answer → Exec (World e) InstrReq
  unfolding not_nil
  carry bridgx_expand (req, resp) = do
    b ← not_nil (bridgx_of resp)
    on_site (update_task_relation_task_id e req.schedule_task_id bridgx_field b.task_id)
    pure (with_nodes req (record { inst_group = b.inst_group; auth = b.auth }))
  carry node_act_init_base (req, resp) = do
    n ← not_nil (nodes_of resp)
    g ← not_nil n.inst_group
    on_site (update_task_relation_task_id e req.schedule_task_id nodeact_field g.task_id)
    pure (with_group req n.inst_group)
  carry node_act_init_svc (req, resp) = do
    n ← not_nil (nodes_of resp)
    pure (with_group req n.inst_group)
  carry mount_slb (req, resp) = pure req
  carry umount_slb (req, resp) = do
    n ← not_nil (nodes_of resp)
    b ← not_nil req.bridgx_req
    pure (record req { bridgx_req = some (record b { inst_group = n.inst_group }) })
  carry bridgx_shrink (req, resp) = pure req
  carry mount_nginx (req, resp) = pure req
  carry umount_nginx (req, resp) = pure req
  carry node_act_before_download (req, resp) = do
    n ← not_nil (nodes_of resp)
    pure (with_nodes req n)
  carry node_act_download (req, resp) = pure req
  carry node_act_before_deploy (req, resp) = pure req
  carry node_act_deploy (req, resp) = pure req
  carry node_act_after_deploy (req, resp) = pure req
  carry (other_action name) (req, resp) = raise (new_error ("instr.action invalid:" ++ name))

  unfoldable pub do_instr : InstrReq → Exec (World e) InstrReq
  do_instr req = do
    instruction ← on_instructions (Db.get e.instructions req.instr_id)
    answer ← exec_act e (record req { instruction = instruction }) instruction.instr_action
    carry instruction.instr_action answer

  -- The loop over the instructions, up to the first error.
  unfoldable pub run_group : List ℕ → InstrReq → Exec (World e) (Unit {0})
  unfolding ◌>>=◌
  run_group [] req = pure tt
  run_group (id ∷ ids) req = do_instr (record req { instr_id = id }) >>= λ req'. run_group ids req'

  -- The deferred function of the goroutine, where nothing recovers: after a panic `asyncErr` is nil.
  unfoldable pub final_status : ℕ → Outcome (Unit {0}) → Exec (World e) (Unit {0})
  final_status task_id (returns a) = ignore (on_site (update_task_status e task_id success ""))
  final_status task_id (fails x) = ignore (on_site (update_task_status e task_id fail (message x)))
  final_status task_id panics = ignore (on_site (update_task_status e task_id success ""))
  final_status task_id crashes = pure tt

  -- The goroutine of `expandAction` and `shrinkAction`.
  unfoldable pub background : ℕ → List ℕ → InstrReq → Exec (World e) (Unit {0})
  background task_id ids req = goroutine (on_exit (final_status task_id) (run_group ids req))

  -- The deferred function of `deployAction`, with `recover()`.
  unfoldable pub recovered_status : ℕ → Outcome (Unit {0}) → Exec (World e) (Unit {0})
  recovered_status task_id (returns a) = ignore (on_site (update_task_status e task_id success ""))
  recovered_status task_id (fails x) =
      ignore (on_site (update_task_status e task_id fail (message x)))
  recovered_status task_id panics =
      ignore (on_site (update_task_status e task_id fail (message sys_panic)))
  recovered_status task_id crashes = pure tt
