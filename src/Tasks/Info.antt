-- ===== src/Tasks/Info.antt =====
-- `Info` of service/tasksvc.go, and the texts of api/types/task.go for a status and a step.
use schedulx.Prelude.{ℕ, String}
use schedulx.Effect.{Exec, pure, ◌>>=◌}
use schedulx.Types.{
  TaskStatus, running, rolling_back, success, TaskStep, step_init, bridgx_expand_init,
  bridgx_shrink_init, bridgx_expand_succ, bridgx_shrink_succ, base_env_init, base_env_succ,
  svc_env_init, svc_env_succ, mount_init, umount_init, mount_succ, umount_succ,
  deploy_before_download_init, deploy_before_download_succ, deploy_before_download_fail,
  deploy_download_init, deploy_download_succ, deploy_download_fail, deploy_before_deploy_init,
  deploy_before_deploy_succ, deploy_before_deploy_fail, deploy_deploy_init, deploy_deploy_succ,
  deploy_deploy_fail, deploy_after_deploy_init, deploy_after_deploy_succ, deploy_after_deploy_fail,
}
use schedulx.Env.{Env}
use schedulx.World.{Site}
use schedulx.Repo.Tasks.{get_task}

-- `TaskStatusDesc`
unfoldable pub task_status_desc : TaskStatus → String
task_status_desc TaskStatus.init = "已创建"
task_status_desc running = "进行中"
task_status_desc rolling_back = "回滚中"
task_status_desc success = "成功"
task_status_desc TaskStatus.fail = "失败"

-- `TaskStepDesc`
unfoldable pub task_step_desc : TaskStep → String
task_step_desc step_init = "待执行"
task_step_desc bridgx_expand_init = "计算资源扩容"
task_step_desc bridgx_shrink_init = "计算资源缩容"
task_step_desc bridgx_expand_succ = "计算资源已获取"
task_step_desc bridgx_shrink_succ = "计算资源已缩容"
task_step_desc base_env_init = "基础环境搭建"
task_step_desc base_env_succ = "基础环境搭建成功"
task_step_desc svc_env_init = "服务搭建"
task_step_desc svc_env_succ = "服务搭建成功"
task_step_desc mount_init = "执行实例挂载"
task_step_desc umount_init = "执行实例卸载"
task_step_desc mount_succ = "实例挂载成功"
task_step_desc umount_succ = "实例卸载成功"
task_step_desc deploy_before_download_init = "环境初始化中"
task_step_desc deploy_before_download_succ = "环境初始化成功"
task_step_desc deploy_before_download_fail = "环境初始化失败"
task_step_desc deploy_download_init = "下载中"
task_step_desc deploy_download_succ = "下载成功"
task_step_desc deploy_download_fail = "下载失败"
task_step_desc deploy_before_deploy_init = "部署前置任务执行中"
task_step_desc deploy_before_deploy_succ = "部署前置任务执行成功"
task_step_desc deploy_before_deploy_fail = "部署前置任务执行失败"
task_step_desc deploy_deploy_init = "部署中"
task_step_desc deploy_deploy_succ = "部署成功"
task_step_desc deploy_deploy_fail = "部署失败"
task_step_desc deploy_after_deploy_init = "部署后置任务执行中"
task_step_desc deploy_after_deploy_succ = "部署后置任务执行成功"
task_step_desc deploy_after_deploy_fail = "部署后置任务执行失败"

-- `types.TaskInfo`
pub record TaskInfo : Type 0 where
  pub task_status : TaskStatus
  pub task_status_desc : String
  pub task_step : TaskStep
  pub task_step_desc : String
  pub inst_cnt : ℕ
  pub msg : String
  pub operator : String
  pub exec_type : String

unfoldable pub info : (e : Env) → ℕ → Exec (Site e) TaskInfo
unfolding task_status_desc task_step_desc
info e task_id = do
  task ← get_task e task_id
  pure (record {
    task_status = task.task_status;
    task_status_desc = task_status_desc task.task_status;
    task_step = task.task_step;
    task_step_desc = task_step_desc task.task_step;
    inst_cnt = task.inst_cnt;
    msg = task.msg;
    operator = task.operator;
    exec_type = task.exec_type;
  })
