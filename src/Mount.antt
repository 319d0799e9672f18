-- ===== src/Mount.antt =====
-- service/mountsvc.go: `MountService`, which puts instances behind a load balancer and takes them out.
pub mod Unmounted
use schedulx.Prelude.{ℕ, ltb, String, List, [], map, some, length, if◌then◌else◌}
use schedulx.Effect.{
  record_not_found, new_error, Result, ok, err, Exec, pure, raise, call, ◌>>=◌, ◌>>◌, attempt,
}
use schedulx.Types.{InstanceInfo, alb, unalb}
use schedulx.Env.{Env}
use schedulx.World.{Site, on_instances, on_cloud}
use schedulx.Repo.Instances.{batch_update_status, query_insts_to_umount}

-- `constant.ALIYUNAddServerGroupLenMax`
abbrev pub group_len_max : ℕ
group_len_max = 40

-- `ExposeMountSvcResp` and `ExposeUmountSvcResp`
pub record ExposeResp : Type 0 where
  pub task_id : ℕ
  pub instance_list : List InstanceInfo

-- A server of the load balancer is sent by its id and inner address.
abbrev pub server : InstanceInfo → String × String
server i = (i.instance_id, i.ip_inner)

abbrev pub inner_ip : InstanceInfo → String
inner_ip i = i.ip_inner

module _ (e : Env) where
  unfoldable pub mount : ℕ → List InstanceInfo → String → Exec (Site e) ExposeResp
  mount task_id instance_list v_group_id =
      if ltb (length instance_list) group_len_max
      then (do
        on_cloud (call (e.remote.create_servers v_group_id (map server instance_list)))
        on_instances (batch_update_status e (map inner_ip instance_list) task_id alb)
        pure (record { task_id = task_id; instance_list = instance_list }))
      else raise (new_error "too many instances")

  unfoldable pub umount_list : String → ℕ × List InstanceInfo → Exec (Site e) ExposeResp
  umount_list v_group_id (task_id, instance_list) =
      if ltb (length instance_list) group_len_max
      then (do
        on_cloud (call (e.remote.remove_servers v_group_id (map server instance_list)))
        on_instances (batch_update_status e (map inner_ip instance_list) task_id unalb)
        pure (record { task_id = task_id; instance_list = instance_list }))
      else raise (new_error "too many instances")

  -- No instance to take out is no error.
  unfoldable pub umount_found : String → Result (ℕ × List InstanceInfo) → Exec (Site e) ExposeResp
  unfolding umount_list
  umount_found v_group_id (ok found) = umount_list v_group_id found
  umount_found v_group_id (err record_not_found) = pure (record { task_id = 0; instance_list = [] })
  umount_found v_group_id (err x) = raise x

  unfoldable pub umount : ℕ → ℕ → String → Exec (Site e) ExposeResp
  unfolding umount_found
  umount service_cluster_id count v_group_id =
      attempt (on_instances (query_insts_to_umount e service_cluster_id (some alb) count))
      >>= umount_found v_group_id
