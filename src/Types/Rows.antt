-- ===== src/Types/Rows.antt =====
-- The rows of the tables, and the small structures of api/types. An int64 id or count is a natural
-- number: ids are given out by the database from 1, and 0 is the id of nothing.
use schedulx.Prelude.{ℕ, String, List, Option}
use schedulx.Types.Status.{
  TaskStatus, TaskStep, InstanceStatus, InstrRecStatus, ScheduleType, Action,
}

-- `db.Task`; the times are seconds of the clock.
pub record Task : Type 0 where
  pub id : ℕ
  pub sched_tmpl_id : ℕ
  pub operator : String
  pub relation_task_id : String
  pub task_status : TaskStatus
  pub task_step : TaskStep
  pub inst_cnt : ℕ
  pub exec_type : String
  pub msg : String
  pub task_info : String
  pub begin_at : ℕ
  pub finish_at : Option ℕ

-- `types.RelationTaskId`
pub record RelationTaskId : Type 0 where
  pub node_act_task_id : ℕ
  pub bridgx_task_id : ℕ

-- The two names of its fields that `UpdateTaskRelationTaskId` is called with.
pub data RelationField : Type 0 where
  nodeact_field bridgx_field : RelationField

-- `db.Instance`
pub record Instance : Type 0 where
  pub id : ℕ
  pub task_id : ℕ
  pub instance_id : String
  pub service_cluster_id : ℕ
  pub instance_status : InstanceStatus
  pub ip_inner : String
  pub ip_outer : String
  pub msg : String

-- `db.InstrRecord`
pub record InstrRecord : Type 0 where
  pub id : ℕ
  pub task_id : ℕ
  pub instr_status : InstrRecStatus
  pub msg : String
  pub instr_id : ℕ

-- `db.Instruction`
pub record Instruction : Type 0 where
  pub id : ℕ
  pub cmd : String
  pub params : String
  pub instr_action : Action
  pub tmpl_id : ℕ
  pub is_deleted : ℕ

-- `db.ScheduleTemplate`
pub record ScheduleTemplate : Type 0 where
  pub id : ℕ
  pub tmpl_name : String
  pub service_name : String
  pub service_cluster_id : ℕ
  pub bridgx_clusname : String
  pub deploy_mode : String
  pub description : String
  pub tmpl_attrs : String
  pub instr_group : String
  pub schedule_type : ScheduleType
  pub reverse_sched_tmpl_id : ℕ
  pub is_deleted : ℕ

-- `db.ServiceCluster`
pub record ServiceCluster : Type 0 where
  pub id : ℕ
  pub service_name : String
  pub cluster_name : String
  pub bridgx_cluster : String
  pub auto_decision : String

-- `db.Service`
pub record Service : Type 0 where
  pub id : ℕ
  pub service_name : String
  pub description : String
  pub language : String
  pub domain : String
  pub port : String
  pub git_repo : String
  pub is_deleted : ℕ

-- `types.InstanceInfo`
pub record InstanceInfo : Type 0 where
  pub ip_inner : String
  pub ip_outer : String
  pub instance_id : String

-- `types.InstanceAuth`
pub record InstanceAuth : Type 0 where
  pub user_name : String
  pub pwd : String

-- `nodeact.InstanceGroup`; a Go value of type `*InstanceGroup` is an `Option` of it.
pub record InstanceGroup : Type 0 where
  pub task_id : ℕ
  pub instance_list : List InstanceInfo
