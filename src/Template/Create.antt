-- ===== src/Template/Create.antt =====
-- `createAction`, `createInstanceTemplate` and `createContainerTemplate` of service/templatesvc.go.
use text.Mathlib.Text.{◌==◌ as str_eq}
use schedulx.Prelude.{ℕ, String, if◌then◌else◌, List, [], ◌∷◌, ◌++◌, some}
use schedulx.Effect.{Result, ok, err, Exec, pure, ◌>>=◌, ◌>>◌, attempt}
use schedulx.Env.{Env}
use schedulx.World.{World}
use schedulx.Schedule.Run.{not_nil}
use schedulx.Template.Request.{
  DeployInfo, TmplExpandReq, TmplExpandResp, deploy_tmpl_id, ExpandStep, step_tmpl_info,
  step_base_env, step_service_env, step_mount, expand_steps, DeployStep, deploy_steps,
}
use schedulx.Template.Tables.{transaction, settle}
use schedulx.Template.Instructions.{create_deploy_instr}
use schedulx.Template.Steps.{
  Locals, later_step, create_expand_tmpl, for_steps, write_groups, no_locals,
  service_bind_bridgx_cluster, create_instance_deploy_tmpl, update_tmpl_instr_group,
}

module _ (e : Env) where
  unfoldable pub create_step : TmplExpandReq → String → ExpandStep → Locals → Exec (World e) Locals
  unfolding not_nil later_step create_expand_tmpl
  create_step req service_name step_tmpl_info v = do
    info ← not_nil req.tmpl_info
    tmpls ← create_expand_tmpl e info service_name
    later_step e req service_name step_tmpl_info (record v { tmpls = some tmpls })
  create_step req service_name step_base_env v = later_step e req service_name step_base_env v
  create_step req service_name step_service_env v = later_step e req service_name step_service_env v
  create_step req service_name step_mount v = later_step e req service_name step_mount v

  unfoldable pub create_container_template : TmplExpandReq → Exec (World e) TmplExpandResp
  unfolding transaction service_bind_bridgx_cluster for_steps create_step write_groups
  create_container_template req = transaction do
    cluster ← service_bind_bridgx_cluster e req
    v ← for_steps e (create_step req cluster.service_name) req.end_step expand_steps no_locals
    write_groups e v

  -- The loop over `instanceDeploySteps`: the first error ends it.
  unfoldable pub create_deploy_instrs :
      DeployInfo → ℕ → List DeployStep → List ℕ → Exec (World e) (List ℕ)
  unfolding create_deploy_instr
  create_deploy_instrs d t [] ids = pure ids
  create_deploy_instrs d t (step ∷ steps) ids = do
    n ← create_deploy_instr e step d t
    create_deploy_instrs d t steps (ids ++ n ∷ [])

  -- The error of the loop is in an `err` of its own: the deferred function does not see it.
  unfoldable pub fill_deploy_tmpl :
      DeployInfo → ℕ → Result (List ℕ) → Exec (World e) (Result TmplExpandResp)
  unfolding update_tmpl_instr_group
  fill_deploy_tmpl d t (err x) = pure (err x)
  fill_deploy_tmpl d t (ok ids) = do update_tmpl_instr_group e t ids 0; pure (ok (deploy_tmpl_id t))

  -- What `createInstanceTemplate` does before its deferred function runs.
  unfoldable pub instance_body : TmplExpandReq → Exec (World e) (Result TmplExpandResp)
  unfolding service_bind_bridgx_cluster not_nil create_instance_deploy_tmpl create_deploy_instrs
      fill_deploy_tmpl
  instance_body req = do
    cluster ← service_bind_bridgx_cluster e req
    info ← not_nil req.tmpl_info
    t ← create_instance_deploy_tmpl e info req.deploy_info cluster.service_name
    d ← not_nil req.deploy_info
    ids ← attempt (create_deploy_instrs d t deploy_steps [])
    fill_deploy_tmpl d t ids

  unfoldable pub create_instance_template : TmplExpandReq → Exec (World e) TmplExpandResp
  unfolding transaction instance_body settle
  create_instance_template req = transaction (instance_body req) >>= settle

  unfoldable pub create_action : TmplExpandReq → Exec (World e) TmplExpandResp
  unfolding not_nil create_instance_template create_container_template
  create_action req = do
    info ← not_nil req.tmpl_info
    if str_eq info.deploy_mode "instance"
        then create_instance_template req
        else create_container_template req
