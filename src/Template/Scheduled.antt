-- ===== src/Template/Scheduled.antt =====
-- What the scheduler runs for a template that `createContainerTemplate` made.
use schedulx.Instr.{InstrReq}
use schedulx.Repo.Tasks.{create_task, now}
use std.Path.{subst}
use schedulx.Prelude.{
  ℕ, ◌≡◌, refl, String, ◌==◌, ◌&&◌, Bool, true, List, [], ◌++◌, select, arith, some, reverse, map,
  none, false, ap, ◌∙◌,
}
use schedulx.Effect.{
  new_error, Exec, pure, raise, ◌>>=◌, Result, ok, err, returns, zoom, call, Outcome, gets, on_exit,
}
use schedulx.Types.{
  ScheduleTemplate, Instruction, ScheduleType, type_expand, type_shrink, Task, running, step_init,
}
use schedulx.Db
use schedulx.Db.Interface.{head_of}
use schedulx.Env.{Env}
use schedulx.World.{World, on_site}
use schedulx.Schedule.Start.{
  same_type, get_sched_tmpl_by_svc_cluster_id, decode_group, StartReq, Launch, launch,
  expand_action, shrink_action, fail_task, expand_request, shrink_request,
}
use schedulx.Template.Request.{TmpInfo, TmplExpandReq, tmpl_id, expand_steps}
use schedulx.Template.Steps.{expand_tmpl, shrink_tmpl, set_group}
use schedulx.Template.Create.{create_container_template}
use schedulx.Template.Spec.{action_of, steps_until, ids_of, actions_of, undo_all}
use schedulx.Template.Added.{select-append}
use schedulx.Template.Paired.{Paired, Created, create_container-Created}
use schedulx.Template.Shown.{RoundTrips, Reads}

module _ (e : Env) where
  -- The rows that the scheduler looks for.
  abbrev pub sought : ℕ → ScheduleType → ScheduleTemplate → Bool
  sought cluster_id type r =
      r.service_cluster_id == cluster_id && same_type r.schedule_type type && r.is_deleted == 0

  -- The database enters every task that it is given.
  abbrev pub EntersTasks : Type 0
  EntersTasks = (k : Task) (s : e.tasks.Store) → (n : ℕ) × ((e.tasks.insert k s).0 ≡ ok n)

  -- An action of the scheduler starts a task with the instructions of the ids, and has its number.
  pub record Starts (ids : List ℕ) (o : Outcome Launch) : Type 0 where
    pub launch : Launch
    pub starts : o ≡ returns launch
    pub instructions : launch.instr_group ≡ ids
    pub same_task : launch.request.schedule_task_id ≡ launch.task_id

  abbrev launch_of : (ℕ → InstrReq) → ℕ → List ℕ → Launch
  launch_of request n l = record { task_id = n; instr_group = l; request = request n }

  -- What an expansion and a shrinking of the cluster start with.
  pub record Scheduled (req : TmplExpandReq) (start : StartReq) (t : ℕ) (w w' : World e)
      : Type 0 where
    pub r : ℕ
    pub added : List Instruction
    pub rows : e.instructions.rows w'.instructions ≡ e.instructions.rows w.instructions ++ added
    pub expands : Starts (ids_of t added) (expand_action e start w').0
    pub shrinks : Starts (reverse (ids_of r added)) (shrink_action e start w').0
    pub done : actions_of t added ≡ map action_of (steps_until req.end_step expand_steps)
    pub undone : actions_of r added ≡ undo_all (actions_of t added)

  module _ (reads : Reads e) (enters : EntersTasks) (ids : RoundTrips e.ids_json) where
    decoded :
        (problem : String) (request : ℕ → InstrReq) (n : ℕ) (w : World e) (x : Result (List ℕ))
        (l : List ℕ)
        → x ≡ ok l
        → (on_exit
            (fail_task e n)
            ((elim x [ ok ids ↦ pure ids | err y ↦ raise (new_error problem) ]) >>= λ ids.
              pure (launch_of request n ids))
            w).0
          ≡ returns (launch_of request n l)
    unfolding on_exit fail_task pure ◌>>=◌
    decoded problem request n w x l h = rw h refl

    launched :
        (problem : String) (tmpl : ScheduleTemplate) (request : ℕ → InstrReq) (n : ℕ) (w : World e)
        (l : List ℕ)
        → tmpl.instr_group ≡ e.ids_json.encode l
        → (launch e problem tmpl request n w).0 ≡ returns (launch_of request n l)
    unfolding launch decode_group
    launched problem tmpl request n w l h =
        decoded problem request n w (e.ids_json.decode tmpl.instr_group) l
          (ap e.ids_json.decode h ∙ (ids l).0)

    found_first :
        (n : ℕ) (type : ScheduleType) (w : World e) (r : ScheduleTemplate)
        → head_of (select (sought n type) (e.templates.rows w.templates)) ≡ ok r
        → (get_sched_tmpl_by_svc_cluster_id e n type w).0 ≡ returns r
    unfolding get_sched_tmpl_by_svc_cluster_id Db.query_first zoom call
    found_first n type w r h = rw (reads.tmpl (sought n type) w.templates, h) refl

    created :
        (tmpl count : ℕ) (operator exec_type : String) (w : World e)
        → (n : ℕ) × ((on_site (create_task e tmpl count operator exec_type "" false) w).0
            ≡ returns n)
    unfolding create_task now gets Db.create zoom call ◌>>=◌
    created tmpl count operator exec_type w =
        let row : Task = record {
          id = 0;
          sched_tmpl_id = tmpl;
          operator = operator;
          relation_task_id = "";
          task_status = running;
          task_step = step_init;
          inst_cnt = count;
          exec_type = exec_type;
          msg = "";
          task_info = "";
          begin_at = e.remote.clock w.site.cloud;
          finish_at = none;
        } in
        let (n, h) = enters row w.site.tasks in (n, rw h refl)

    -- The three parts of an action: the template, the task, and its instructions.
    starting :
        (problem : String) (request : ScheduleTemplate → ℕ → InstrReq)
        (find : Exec (World e) ScheduleTemplate) (create : ScheduleTemplate → Exec (World e) ℕ)
        (r : ScheduleTemplate) (l : List ℕ) (w : World e)
        → (find w).0 ≡ returns r
        → ((w1 : World e) → (n : ℕ) × ((create r w1).0 ≡ returns n))
        → ((n : ℕ) → (request r n).schedule_task_id ≡ n)
        → r.instr_group ≡ e.ids_json.encode l
        → Starts l
            ((find >>= λ tmpl. create tmpl >>= λ n. launch e problem tmpl (request tmpl) n) w).0
    unfolding ◌>>=◌
    starting problem request find create r l w h c same g =
        let (n, k) = c (find w).1 in
        record {
          launch = record { task_id = n; instr_group = l; request = request r n };
          starts = rw (h, k) (launched problem r (request r) n _ l g);
          instructions = refl;
          same_task = same n;
        }

    Paired-Scheduled :
        (req : TmplExpandReq) (info : TmpInfo) (start : StartReq) (t : ℕ) (w w' : World e)
        → start.service_cluster_id ≡ info.service_cluster_id
        → select (sought info.service_cluster_id type_expand) (e.templates.rows w.templates) ≡ []
        → select (sought info.service_cluster_id type_shrink) (e.templates.rows w.templates) ≡ []
        → (p : Paired e req w t w') → p.info ≡ info
        → Scheduled req start t w w'
    unfolding expand_action shrink_action expand_request shrink_request
    Paired-Scheduled req info start t w w' c a b p h =
        let n = info.service_cluster_id in
        let itself : (n == n) ≡ true = ground arith in
        let old = e.templates.rows w.templates in
        let expansion = expand_tmpl p.info p.cluster.service_name in
        let x = set_group e (ids_of t p.added) p.r (record expansion { id = t }) in
        let y =
          set_group e (reverse (ids_of p.r p.added)) t
            (record (shrink_tmpl expansion t) { id = p.r }) in
        record {
          r = p.r;
          added = p.added;
          rows = p.instructions;
          expands =
              starting "instr_group unmarshal exception" (λ r k. expand_request k r start) _ _ x
                (ids_of t p.added) w'
                (found_first start.service_cluster_id type_expand w' x (
                  rw (c, p.templates, select-append (sought n type_expand) old, a, h, itself) refl))
                (created _ start.count start.user_name start.exec_type) (λ k. refl) refl;
          shrinks =
              starting "schedule_template.instr_group Unmarshal exception"
                (λ r k. shrink_request k r start) _ _ y (reverse (ids_of p.r p.added)) w'
                (found_first start.service_cluster_id type_shrink w' y (
                  rw (c, p.templates, select-append (sought n type_shrink) old, b, h, itself) refl))
                (created _ start.count start.user_name start.exec_type) (λ k. refl) refl;
          done = p.done;
          undone = p.undone;
        }

-- Where JSON gives back what was written, reads and the entering of tasks do not fail, and the cluster had
-- no template: once a template for containers is created, an expansion of the cluster starts a task with
-- the instructions of the steps up to the last that was asked for, and a shrinking one with those that
-- undo them, in the opposite order.
pub create_container_template-Scheduled :
    (e : Env) (req : TmplExpandReq) (info : TmpInfo) (start : StartReq) (t : ℕ) (w w' : World e)
    → (reads : Reads e) → (enters : EntersTasks e) → (ids : RoundTrips e.ids_json)
    → req.tmpl_info ≡ some info
    → start.service_cluster_id ≡ info.service_cluster_id
    → select (sought e info.service_cluster_id type_expand) (e.templates.rows w.templates) ≡ []
    → select (sought e info.service_cluster_id type_shrink) (e.templates.rows w.templates) ≡ []
    → create_container_template e req w ≡ (returns (tmpl_id t), w')
    → Scheduled e req start t w w'
create_container_template-Scheduled e req info start t w w' reads enters ids given c a b h =
    let p = subst (Created e req w) h (create_container-Created e req w) in
    Paired-Scheduled e reads enters ids req info start t w w' c a b p (cc (p.given, given))
