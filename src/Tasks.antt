-- ===== src/Tasks.antt =====
-- service/tasksvc.go: `TaskService`.
pub mod Rate
pub mod Running
pub mod Info
pub mod Unfinished
use schedulx.Prelude.{
  ℕ, ◌+◌, ◌/◌, ◌==◌, ◌||◌, ltb, String, List, [], ◌∷◌, map, Option, none, some, length,
  if◌then◌else◌,
}
use schedulx.Effect.{Exec, pure, panic, ◌>>=◌, ◌>>◌}
use schedulx.Types.{Instance, InstanceInfo, InstanceStatus, failed}
use schedulx.Db
use schedulx.Env.{Env}
use schedulx.World.{Site, on_instances}
use schedulx.Repo.Instances.{
  same_instance_status, info_of, insts_query_by_task_id, insts_query_by_page,
}

-- `types.TaskDescribe`, without the time
pub record TaskDescribe : Type 0 where
  pub total_num : ℕ
  pub success_num : ℕ
  pub fail_num : ℕ
  pub success_rate : String

-- The loop over the instances, with `successNum` and `failNum`.
unfoldable pub tally : InstanceStatus → List Instance → ℕ × ℕ → ℕ × ℕ
tally status [] counts = counts
tally status (r ∷ l) (ok_num, fail_num) = tally status l (
    if same_instance_status r.instance_status status
    then (ok_num + 1, fail_num)
    else if same_instance_status r.instance_status failed
    then (ok_num, fail_num + 1)
    else (ok_num, fail_num))

module _ (e : Env) where
  -- `db.Get(insts[0].Id, row)`, when there is one
  unfoldable pub found_time : List Instance → Exec (Site e) (Unit {0})
  found_time [] = pure tt
  found_time (r ∷ l) = on_instances (Db.get e.instances r.id) >>= λ _. pure tt

  -- The quotient is one of integers, and a division by zero panics.
  unfoldable pub described : ℕ → ℕ × ℕ → Exec (Site e) TaskDescribe
  described total (success_num, fail_num) =
      if total == 0
      then panic
      else pure (record {
        total_num = total;
        success_num = success_num;
        fail_num = fail_num;
        success_rate = e.remote.format_float (success_num / total);
      })

  unfoldable pub describe : ℕ → InstanceStatus → Exec (Site e) TaskDescribe
  unfolding tally found_time described
  describe task_id status = do
    insts ← on_instances (insts_query_by_task_id e task_id none)
    found_time insts
    described (length insts) (tally status insts (0, 0))

  -- A page of the instances of a task in a status, and the number of them all.
  unfoldable pub instances : ℕ → InstanceStatus → ℕ → ℕ → Exec (Site e) (ℕ × List InstanceInfo)
  instances task_id status page_number page_size = do
    answer ← on_instances (insts_query_by_page e task_id (some status) page_size page_number)
    pure (answer.1, map info_of answer.0)

  -- The page and its size after the defaults.
  unfoldable pub page_or_first : ℕ → ℕ
  page_or_first page = if page == 0 then 1 else page

  unfoldable pub size_or_limit : ℕ → ℕ
  size_or_limit size = if size == 0 || ltb 500 size then 500 else size

  -- `InstInfoResp` is an instance with its status.
  unfoldable pub instance_list :
      ℕ → ℕ → ℕ → Option InstanceStatus → Exec (Site e) (ℕ × List (InstanceInfo × InstanceStatus))
  unfolding page_or_first size_or_limit
  instance_list page page_size task_id status = do
    answer ←
        on_instances
          (insts_query_by_page e task_id status (size_or_limit page_size) (page_or_first page))
    pure (answer.1, map (λ r. (info_of r, r.instance_status)) answer.0)
