-- ===== src/Schedule/Begun.antt =====
-- expandAction, shrinkAction and deployAction of service/schedulesvc.go from their first query to their
-- end.
use schedulx.Bridgx.{BridgxReq}
use std.Path.{subst}
use schedulx.Prelude.{
  ℕ, ◌≡◌, refl, sym, ap, String, ◌==◌, ◌&&◌, Bool, true, false, if◌then◌else◌, List, [], ◌∷◌, ◌++◌,
  select, none, ◌⊎◌, inl, inr, select-ext, some, Option,
}
use schedulx.Effect.{
  new_error, Result, ok, err, Exec, Outcome, returns, fails, panics, crashes, outcome, continue,
  ◌>>=◌, call, zoom, gets,
}
use schedulx.Types.{
  Task, running, rolling_back, step_init, ScheduleTemplate, ScheduleType, type_expand, type_shrink,
  type_deploy, fail,
}
use schedulx.Db
use schedulx.Db.Interface.{Inserted, Read, head_of}
use schedulx.Env.{Env}
use schedulx.World.{World, on_site}
use schedulx.Repo.Tasks.{create_task, now}
use schedulx.Instr.{InstrReq, NodeActReq}
use schedulx.Schedule.Start.{
  StartReq, Launch, launch, get_sched_tmpl_by_svc_cluster_id, same_type, expand_action,
  shrink_action, deploy_action, expand_request, shrink_request, deploy_request, no_instruction,
  no_nodes,
}
use schedulx.Schedule.Final.{StatusWritten}
use schedulx.Schedule.Launched.{Launched, launch-Launched}

-- The templates of a type.
abbrev pub of_type : ScheduleType → ScheduleType → Bool
of_type type_shrink type_shrink = true
of_type type_shrink type_expand = false
of_type type_shrink type_deploy = false
of_type type_expand type_shrink = false
of_type type_expand type_expand = true
of_type type_expand type_deploy = false
of_type type_deploy type_shrink = false
of_type type_deploy type_expand = false
of_type type_deploy type_deploy = true

same_type-of_type : (x y : ScheduleType) → same_type x y ≡ of_type x y
same_type-of_type type_shrink type_shrink = refl
same_type-of_type type_shrink type_expand = refl
same_type-of_type type_shrink type_deploy = refl
same_type-of_type type_expand type_shrink = refl
same_type-of_type type_expand type_expand = refl
same_type-of_type type_expand type_deploy = refl
same_type-of_type type_deploy type_shrink = refl
same_type-of_type type_deploy type_expand = refl
same_type-of_type type_deploy type_deploy = refl

-- What the three actions do not share.
pub record Kind : Type 0 where
  pub type : ScheduleType
  pub problem : String
  pub task_info : String
  pub rollback : Bool
  pub request : ScheduleTemplate → ℕ → InstrReq

module _ (e : Env) (kind : Kind) (req : StartReq) where
  abbrev pub sought : ScheduleTemplate → Bool
  sought r =
      r.service_cluster_id == req.service_cluster_id
      && of_type r.schedule_type kind.type
      && r.is_deleted == 0

  select-same_type :
      (l : List ScheduleTemplate)
      → select
          (λ r.
            r.service_cluster_id == req.service_cluster_id
            && same_type r.schedule_type kind.type
            && r.is_deleted == 0)
          l
        ≡ select sought l
  select-same_type l = select-ext _ _ l λ r.
      ap (λ b. r.service_cluster_id == req.service_cluster_id && b && r.is_deleted == 0)
        (same_type-of_type r.schedule_type kind.type)

  -- The task with the number `n` for the template `r`.
  abbrev pub new_task : ScheduleTemplate → ℕ → ℕ → Task
  new_task r time n = record {
    id = n;
    sched_tmpl_id = r.id;
    operator = req.user_name;
    relation_task_id = "";
    task_status = if kind.rollback then rolling_back else running;
    task_step = step_init;
    inst_cnt = req.count;
    exec_type = req.exec_type;
    msg = "";
    task_info = kind.task_info;
    begin_at = time;
    finish_at = none;
  }

  -- The template is found and its task `n` entered behind the others.
  pub record Entered (w : World e) (r : ScheduleTemplate) (n : ℕ) (w1 : World e) : Type 0 where
    pub found : head_of (select sought (e.templates.rows w.templates)) ≡ ok r
    pub tasks :
        e.tasks.rows w1.site.tasks
        ≡ e.tasks.rows w.site.tasks ++ new_task r (e.remote.clock w.site.cloud) n ∷ []

  -- What an outcome of the action means.
  abbrev pub Begun : World e → Outcome Launch × World e → Type 0
  Begun w (returns l, w') =
      (r : ScheduleTemplate) × Entered w r l.task_id w'
      × (e.ids_json.decode r.instr_group ≡ ok l.instr_group)
      × (l.request ≡ kind.request r l.task_id)
  Begun w (fails x, w') =
      (e.tasks.rows w'.site.tasks ≡ e.tasks.rows w.site.tasks)
      ⊎ ((r : ScheduleTemplate) × (n : ℕ) × (w1 : World e) × Entered w r n w1
          × (x ≡ new_error kind.problem)
          × StatusWritten e n fail kind.problem w1 w')
  Begun w (panics, w') = ⊥
  Begun w (crashes, w') = ⊥

  decided-Begun :
      (w w1 : World e) (r : ScheduleTemplate) (n : ℕ) (d : Result (List ℕ))
      → e.ids_json.decode r.instr_group ≡ d
      → Entered w r n w1
      → (o : Outcome Launch × World e) → Launched e kind.problem (kind.request r) n d w1 o
      → Begun w o
  decided-Begun w w1 r n (ok ids) g k (o, w') (h, s) =
      subst (λ q. Begun w (q, w')) (sym h) (r, subst (λ v. Entered w r n v) (sym s) k, g, refl)
  decided-Begun w w1 r n (err x) g k (o, w') (h, s) =
      subst (λ q. Begun w (q, w')) (sym h) (inr (r, n, w1, k, refl, s))

  abbrev create : ScheduleTemplate → Exec (World e) ℕ
  create r =
      on_site
        (create_task e r.id req.count req.user_name req.exec_type kind.task_info kind.rollback)

  abbrev run : Exec (World e) Launch
  run = get_sched_tmpl_by_svc_cluster_id e req.service_cluster_id kind.type >>= λ tmpl.
      create tmpl >>= λ n. launch e kind.problem tmpl (kind.request tmpl) n

  abbrev carried : ScheduleTemplate → ℕ → Exec (World e) Launch
  carried r n = launch e kind.problem r (kind.request r) n

  -- After the statement that enters the task.
  entered-Begun :
      (w : World e) (r : ScheduleTemplate) (t : e.templates.Store) (q : Result ℕ)
      (s : e.tasks.Store)
      → head_of (select sought (e.templates.rows w.templates)) ≡ ok r
      → Inserted
          (λ (k : Task). k.id)
          (λ n k. record k { id = n })
          (e.tasks.rows w.site.tasks)
          (new_task r (e.remote.clock w.site.cloud) 0)
          q
          (e.tasks.rows s)
      → Begun w (
          continue
            (outcome q)
            (carried r)
            (record w { templates = t; site = record w.site { tasks = s } }))
  entered-Begun w r t (err x) s h k = inl k
  entered-Begun w r t (ok n) s h k =
      let w1 : World e = record w { templates = t; site = record w.site { tasks = s } } in
      decided-Begun w w1 r n (e.ids_json.decode r.instr_group) refl
        (record { found = h; tasks = k.0 }) _
        (launch-Launched e kind.problem r (kind.request r) n w1)

  -- After the query of the template.
  found-Begun :
      (w : World e) (q : Result ScheduleTemplate) (t : e.templates.Store)
      → Read (head_of (select sought (e.templates.rows w.templates))) q
      → Begun w (continue (outcome q) (λ r. create r >>= carried r) (record w { templates = t }))
  unfolding create_task now gets Db.create zoom call ◌>>=◌
  found-Begun w (err x) t h = inl refl
  found-Begun w (ok r) t h =
      let row = new_task r (e.remote.clock w.site.cloud) 0 in
      entered-Begun w r t _ _ h (e.tasks.insert_law row w.site.tasks)

  run-Begun : (w : World e) → Begun w (run w)
  unfolding get_sched_tmpl_by_svc_cluster_id Db.query_first zoom call ◌>>=◌
  run-Begun w =
      let p = λ (r : ScheduleTemplate).
        r.service_cluster_id == req.service_cluster_id
        && same_type r.schedule_type kind.type
        && r.is_deleted == 0 in
      found-Begun w _ _ (
        subst (λ l. Read (head_of l) (e.templates.first p w.templates).0)
          (select-same_type (e.templates.rows w.templates)) (e.templates.first_law p w.templates).0)

-- The request that the instructions of a task begin with.
abbrev pub first_request : ScheduleTemplate → ℕ → Option BridgxReq → NodeActReq → InstrReq
first_request r n bridgx_req node_act_req = record {
  service_name = r.service_name;
  service_cluster_id = r.service_cluster_id;
  schedule_task_id = n;
  instr_id = 0;
  instruction = no_instruction;
  bridgx_req = bridgx_req;
  node_act_req = node_act_req;
}

abbrev pub machines : StartReq → ScheduleTemplate → Option BridgxReq
machines req r =
    some (record {
      count = req.count;
      cluster_name = r.bridgx_clusname;
      task_id = 0;
      inst_group = none;
    })

-- An expansion, a shrinking and a deployment.
abbrev pub expansion : StartReq → Kind
expansion req = record {
  type = type_expand;
  problem = "instr_group unmarshal exception";
  task_info = "";
  rollback = false;
  request = λ r n. first_request r n (machines req r) no_nodes;
}

abbrev pub shrinking : StartReq → Kind
shrinking req = record {
  type = type_shrink;
  problem = "schedule_template.instr_group Unmarshal exception";
  task_info = "";
  rollback = false;
  request = λ r n.
      first_request r n (machines req r) (record no_nodes { umount_inst_cnt = some req.count });
}

abbrev pub deployment : StartReq → Kind
deployment req = record {
  type = type_deploy;
  problem = "schedule_template.instr_group Unmarshal exception";
  task_info = req.task_info;
  rollback = req.rollback;
  request = λ r n. first_request r n none (record no_nodes {
    task_id = n;
    service_cluster_id = req.service_cluster_id;
    download_file_url = req.download_file_url;
    instance_count = req.count;
  });
}

-- An expansion, a shrinking and a deployment, each for the template of its own type that the cluster has
-- and that is not deleted. If the action answers, one new task is entered behind the others, for this
-- template and in the name of the user, and the answer has its number and the instructions of the
-- template and the request of its kind. If it fails, the tasks are as before, or the group of the template is not readable, and then
-- the task is entered and the statement sent that writes the failure with the action's own message to its
-- row. It does not panic and not crash.
pub actions-Begun :
    (e : Env) (req : StartReq) (w : World e)
    → Begun e (expansion req) req w (expand_action e req w)
      × Begun e (shrinking req) req w (shrink_action e req w)
      × Begun e (deployment req) req w (deploy_action e req w)
unfolding expand_action shrink_action deploy_action expand_request shrink_request deploy_request
actions-Begun e req w = (
  run-Begun e (expansion req) req w,
  run-Begun e (shrinking req) req w,
  run-Begun e (deployment req) req w,
)
