-- ===== src/Schedule/Start.antt =====
-- `expandAction`, `shrinkAction` and `deployAction`: the template, the task, its instructions, and
-- the goroutine that runs them. The goroutine is handed back, and runs after the caller has returned.
use schedulx.Prelude.{ℕ, ◌==◌, ◌&&◌, String, Bool, true, false, List, Option, none, some}
use schedulx.Effect.{
  new_error, ok, err, Outcome, returns, fails, panics, crashes, message, Exec, pure, raise, ◌>>=◌,
  ignore, on_exit, recovering,
}
use schedulx.Types.{
  fail, ScheduleType, type_shrink, type_expand, type_deploy, ScheduleTemplate, Instruction,
  other_action,
}
use schedulx.Db
use schedulx.Env.{Env}
use schedulx.World.{World, on_site, on_templates}
use schedulx.Repo.Tasks.{create_task, update_task_status}
use schedulx.Bridgx.{BridgxReq}
use schedulx.Instr.{NodeActReq, InstrReq}
use schedulx.Schedule.Run.{run_group, background, recovered_status}

-- `ServiceExpandSvcReq`, `ServiceShrinkSvcReq` and `ServiceDeploySvcReq`; the user's name comes with
-- the context, and `task_info` is the request as JSON.
pub record StartReq : Type 0 where
  pub service_cluster_id : ℕ
  pub count : ℕ
  pub exec_type : String
  pub user_name : String
  pub download_file_url : String
  pub rollback : Bool
  pub task_info : String

-- A task that was created, and what its goroutine is to run.
pub record Launch : Type 0 where
  pub task_id : ℕ
  pub instr_group : List ℕ
  pub request : InstrReq

abbrev pub same_type : ScheduleType → ScheduleType → Bool
same_type type_shrink type_shrink = true
same_type type_expand type_expand = true
same_type type_deploy type_deploy = true
same_type _ _ = false

-- The pointer of the request that no instruction has been written to yet.
abbrev pub no_instruction : Instruction
no_instruction = record {
  id = 0;
  cmd = "";
  params = "";
  instr_action = other_action "";
  tmpl_id = 0;
  is_deleted = 0;
}

abbrev pub no_nodes : NodeActReq
no_nodes = record {
  inst_group = none;
  task_id = 0;
  service_cluster_id = 0;
  download_file_url = "";
  instance_count = 0;
  auth = none;
  umount_inst_cnt = none;
}

module _ (task_id : ℕ) (tmpl : ScheduleTemplate) where
  abbrev base_request : Option BridgxReq → NodeActReq → InstrReq
  base_request bridgx_req node_act_req = record {
    service_name = tmpl.service_name;
    service_cluster_id = tmpl.service_cluster_id;
    schedule_task_id = task_id;
    instr_id = 0;
    instruction = no_instruction;
    bridgx_req = bridgx_req;
    node_act_req = node_act_req;
  }

  abbrev cluster_request : StartReq → BridgxReq
  cluster_request req = record {
    count = req.count;
    cluster_name = tmpl.bridgx_clusname;
    task_id = 0;
    inst_group = none;
  }

  unfoldable pub expand_request : StartReq → InstrReq
  expand_request req = base_request (some (cluster_request req)) no_nodes

  unfoldable pub shrink_request : StartReq → InstrReq
  shrink_request req =
      base_request (some (cluster_request req))
        (record no_nodes { umount_inst_cnt = some req.count })

  unfoldable pub deploy_request : StartReq → InstrReq
  deploy_request req = base_request none (record no_nodes {
    task_id = task_id;
    service_cluster_id = req.service_cluster_id;
    download_file_url = req.download_file_url;
    instance_count = req.count;
  })

module _ (e : Env) where
  -- `GetSchedTmplBySvcClusterId`; gorm leaves out the rows that are deleted softly.
  unfoldable pub get_sched_tmpl_by_svc_cluster_id :
      ℕ → ScheduleType → Exec (World e) ScheduleTemplate
  get_sched_tmpl_by_svc_cluster_id cluster_id schedule_type = on_templates (
      Db.query_first e.templates (λ r.
        r.service_cluster_id == cluster_id
        && same_type r.schedule_type schedule_type
        && r.is_deleted == 0))

  -- The deferred function of the three actions.
  unfoldable pub fail_task : {A : Type 0} → ℕ → Outcome A → Exec (World e) (Unit {0})
  fail_task task_id (returns a) = pure tt
  fail_task task_id (fails x) = ignore (on_site (update_task_status e task_id fail (message x)))
  fail_task task_id panics = pure tt
  fail_task task_id crashes = pure tt

  -- The ids of the instructions, with the error that the caller puts in place of the decoder's.
  unfoldable pub decode_group : String → String → Exec (World e) (List ℕ)
  decode_group problem stored = elim (e.ids_json.decode stored) [
    | ok ids ↦ pure ids
    | err x ↦ raise (new_error problem)
  ]

  unfoldable pub launch : String → ScheduleTemplate → (ℕ → InstrReq) → ℕ → Exec (World e) Launch
  unfolding fail_task decode_group
  launch problem tmpl request task_id = on_exit (fail_task task_id) do
    ids ← decode_group problem tmpl.instr_group
    pure (record { task_id = task_id; instr_group = ids; request = request task_id })

  unfoldable pub expand_action : StartReq → Exec (World e) Launch
  unfolding launch get_sched_tmpl_by_svc_cluster_id
  expand_action req = do
    tmpl ← get_sched_tmpl_by_svc_cluster_id req.service_cluster_id type_expand
    task_id ← on_site (create_task e tmpl.id req.count req.user_name req.exec_type "" false)
    launch "instr_group unmarshal exception" tmpl (λ t. expand_request t tmpl req) task_id

  unfoldable pub shrink_action : StartReq → Exec (World e) Launch
  unfolding launch get_sched_tmpl_by_svc_cluster_id
  shrink_action req = do
    tmpl ← get_sched_tmpl_by_svc_cluster_id req.service_cluster_id type_shrink
    task_id ← on_site (create_task e tmpl.id req.count req.user_name req.exec_type "" false)
    launch "schedule_template.instr_group Unmarshal exception" tmpl (λ t. shrink_request t tmpl req)
        task_id

  unfoldable pub deploy_action : StartReq → Exec (World e) Launch
  unfolding launch get_sched_tmpl_by_svc_cluster_id
  deploy_action req = do
    tmpl ← get_sched_tmpl_by_svc_cluster_id req.service_cluster_id type_deploy
    task_id ←
        on_site
          (create_task e tmpl.id req.count req.user_name req.exec_type req.task_info req.rollback)
    launch "schedule_template.instr_group Unmarshal exception" tmpl (λ t. deploy_request t tmpl req)
        task_id

  -- The goroutine of `deployAction`: `recover()` turns a panic into `config.ErrSysPanic`.
  unfoldable pub background_deploy : ℕ → List ℕ → InstrReq → Exec (World e) (Unit {0})
  background_deploy task_id ids req =
      recovering (on_exit (recovered_status e task_id) (run_group e ids req))

  unfoldable pub run_expand : Launch → Exec (World e) (Unit {0})
  run_expand l = background e l.task_id l.instr_group l.request

  unfoldable pub run_deploy : Launch → Exec (World e) (Unit {0})
  unfolding background_deploy
  run_deploy l = background_deploy l.task_id l.instr_group l.request
