-- ===== src/Types/Status.antt =====
-- The constants of api/types/task.go, api/types/instance.go, api/types/instrrecord.go and
-- register/constant: each family of string constants is an enumeration.
use schedulx.Prelude.{String}

-- `TaskStatus…`
pub data TaskStatus : Type 0 where
  init running rolling_back success fail : TaskStatus

-- `TaskStep…`
pub data TaskStep : Type 0 where
  step_init : TaskStep
  bridgx_expand_init bridgx_shrink_init bridgx_expand_succ bridgx_shrink_succ : TaskStep
  base_env_init base_env_succ svc_env_init svc_env_succ : TaskStep
  mount_init umount_init mount_succ umount_succ : TaskStep
  deploy_before_download_init deploy_before_download_succ deploy_before_download_fail : TaskStep
  deploy_download_init deploy_download_succ deploy_download_fail : TaskStep
  deploy_before_deploy_init deploy_before_deploy_succ deploy_before_deploy_fail : TaskStep
  deploy_deploy_init deploy_deploy_succ deploy_deploy_fail : TaskStep
  deploy_after_deploy_init deploy_after_deploy_succ deploy_after_deploy_fail : TaskStep

-- `InstanceStatus…`
pub data InstanceStatus : Type 0 where
  status_init base download before_deploy deploy after_deploy svc alb unalb failed deleted :
      InstanceStatus

-- `InstrRecStatus…`
pub data InstrRecStatus : Type 0 where
  rec_running rec_succ rec_fail : InstrRecStatus

-- `constant.ScheduleType…`
pub data ScheduleType : Type 0 where
  type_shrink type_expand type_deploy : ScheduleType

-- `types.Action`, as the fields of `InstrSvc` name its values; a stored instruction may hold another.
pub data Action : Type 0 where
  bridgx_expand bridgx_shrink node_act_init_base node_act_init_svc : Action
  mount_slb umount_slb mount_nginx umount_nginx : Action
  node_act_before_download node_act_download node_act_before_deploy : Action
  node_act_deploy node_act_after_deploy : Action
  other_action : String → Action

pub TaskStatus-discrete : Discrete TaskStatus
TaskStatus-discrete = hlevel

pub InstanceStatus-discrete : Discrete InstanceStatus
InstanceStatus-discrete = hlevel
