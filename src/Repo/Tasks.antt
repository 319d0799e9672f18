-- ===== src/Repo/Tasks.antt =====
-- repository/taskrepo.go: `TaskRepo`. An update of a task is by its id, and the number of rows
-- affected is checked after the write.
use schedulx.Prelude.{
  ℕ, String, Bool, ◌==◌, ◌&&◌, if◌then◌else◌, List, [], ◌∷◌, ◌||◌, true, false, none, some,
}
use text.Mathlib.Text.{◌==◌ as str_eq}
use schedulx.Effect.{rows_affected_invalid, Exec, pure, raise, gets, call, ◌>>=◌}
use schedulx.Types.{
  Task, TaskStatus, running, rolling_back, success, TaskStep, step_init, RelationTaskId,
  RelationField, nodeact_field, bridgx_field,
}
use schedulx.Db
use schedulx.Env.{Env}
use schedulx.World.{Site, on_tasks, on_cloud}
use schedulx.Tool.Text.{sub_str}

-- `task_status IN (…)`
abbrev pub same_status : TaskStatus → TaskStatus → Bool
same_status TaskStatus.init TaskStatus.init = true
same_status running running = true
same_status rolling_back rolling_back = true
same_status success success = true
same_status TaskStatus.fail TaskStatus.fail = true
same_status _ _ = false

abbrev pub status_in : List TaskStatus → TaskStatus → Bool
status_in [] s = false
status_in (t ∷ l) s = same_status t s || status_in l s

abbrev pub id_in : List ℕ → ℕ → Bool
id_in [] n = false
id_in (m ∷ l) n = m == n || id_in l n

module _ (e : Env) where
  -- `time.Now()`
  unfoldable pub now : Exec (Site e) ℕ
  now = on_cloud (gets e.remote.clock)

  -- `if rowEffected != 1 { return config.ErrRowsAffectedInvalid }`
  unfoldable pub one_row : ℕ → Exec (Site e) (Unit {0})
  one_row n = if n == 1 then pure tt else raise rows_affected_invalid

  unfoldable pub create_task : ℕ → ℕ → String → String → String → Bool → Exec (Site e) ℕ
  create_task sched_tmpl_id inst_cnt operator exec_type task_info is_rollback = do
    begin_at ← now
    on_tasks (
        Db.create e.tasks (record {
          id = 0;
          sched_tmpl_id = sched_tmpl_id;
          operator = operator;
          relation_task_id = "";
          task_status = if is_rollback then rolling_back else running;
          task_step = step_init;
          inst_cnt = inst_cnt;
          exec_type = exec_type;
          msg = "";
          task_info = task_info;
          begin_at = begin_at;
          finish_at = none;
        }))

  unfoldable pub set_status : TaskStatus → String → ℕ → Task → Task
  set_status status msg time r = record r {
    task_status = status;
    finish_at = some time;
    msg = sub_str msg 100;
  }

  unfoldable pub set_step : TaskStep → String → ℕ → Task → Task
  set_step step msg time r = record r {
    task_step = step;
    finish_at = some time;
    msg = sub_str msg 100;
  }

  unfoldable pub update_task_status : ℕ → TaskStatus → String → Exec (Site e) (Unit {0})
  update_task_status task_id status msg = do
    time ← now
    n ← on_tasks (Db.updates e.tasks (λ r. r.id == task_id) (set_status status msg time))
    one_row n

  unfoldable pub update_task_step : ℕ → TaskStep → String → Exec (Site e) (Unit {0})
  update_task_step task_id step msg = do
    time ← now
    n ← on_tasks (Db.updates e.tasks (λ r. r.id == task_id) (set_step step msg time))
    one_row n

  unfoldable pub get_task : ℕ → Exec (Site e) Task
  get_task task_id = on_tasks (Db.get e.tasks task_id)

  abbrev pub no_relation : RelationTaskId
  no_relation = record { node_act_task_id = 0; bridgx_task_id = 0 }

  -- An empty column is the pair of zeros; any other text is decoded.
  unfoldable pub relation_of : String → Exec (Site e) RelationTaskId
  relation_of stored =
      if str_eq stored "" then pure no_relation else call (λ s. (e.relation_json.decode stored, s))

  unfoldable pub set_relation : RelationField → ℕ → RelationTaskId → RelationTaskId
  set_relation bridgx_field n r = record r { bridgx_task_id = n }
  set_relation nodeact_field n r = record r { node_act_task_id = n }

  unfoldable pub update_task_relation_task_id : ℕ → RelationField → ℕ → Exec (Site e) (Unit {0})
  update_task_relation_task_id task_id field relation_task_id = do
    obj ← on_tasks (Db.get e.tasks task_id)
    rtd ← relation_of obj.relation_task_id
    let value = e.relation_json.encode (set_relation field relation_task_id rtd)
    n ←
        on_tasks
          (Db.updates e.tasks (λ r. r.id == task_id) (λ r. record r { relation_task_id = value }))
    one_row n

  unfoldable pub get_bridgx_task_id : ℕ → Exec (Site e) ℕ
  get_bridgx_task_id task_id = do
    task ← get_task task_id
    ids ← call (λ s. (e.relation_json.decode task.relation_task_id, s))
    pure ids.bridgx_task_id

  unfoldable pub get_last_expand_succ_task : ℕ → Exec (Site e) Task
  get_last_expand_succ_task tmpl_id =
      on_tasks (
        Db.query_last e.tasks
          (λ r. r.sched_tmpl_id == tmpl_id && same_status r.task_status success))

  unfoldable pub count_by_cond : List ℕ → List TaskStatus → Exec (Site e) ℕ
  count_by_cond tmpl_ids status =
      on_tasks
        (Db.count e.tasks (λ r. id_in tmpl_ids r.sched_tmpl_id && status_in status r.task_status))
