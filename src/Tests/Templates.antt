-- ===== src/Tests/Templates.antt =====
-- The properties of the template service at the small installation.
use schedulx.Schedule.Start.{StartReq}
use schedulx.Template.Update.{update_instance_template}
use schedulx.Template.Replaced.{Replaced, update_instance_template-Replaced}
use schedulx.Prelude.{◌≡◌, refl, [], ◌∷◌, some, true, false}
use schedulx.Types.{ServiceCluster}
use schedulx.World.{World}
use schedulx.Template.Request.{
  TmpInfo, TmplExpandReq, ServiceEnv, DeployInfo, tmpl_id, TmplUpdateReq,
}
use schedulx.Template.Create.{create_container_template, create_step}
use schedulx.Template.Info.{no_deploy_info}
use schedulx.Effect.{returns, pure, raise, call, zoom, ◌>>=◌, attempt}
use schedulx.Db
use schedulx.Env.{Env}
use schedulx.Schedule.Run.{not_nil}
use schedulx.Template.Request.{deploy_tmpl_id}
use schedulx.Template.Tables.{transaction, settle, single_row, update_tmpl}
use schedulx.Template.Instructions.{
  create_instr, deploy_instr, create_deploy_instr, create_bridgx_expand_instr,
  create_bridgx_shrink_instr, with_reverse, create_base_env_instr, create_service_env_instr,
  encrypt, create_mount_slb_instr, create_mount_instr, create_umount_slb_instr,
  is_alibaba_cloud_account_valid, only_blanks,
}
use schedulx.Template.Steps.{
  service_bind_bridgx_cluster, create_instance_deploy_tmpl, update_tmpl_instr_group, for_steps,
  later_step, add_step, append_ids, write_groups, create_expand_tmpl, create_shrink_tmpl,
}
use schedulx.Template.Create.{
  create_instance_template, instance_body, create_deploy_instrs, fill_deploy_tmpl,
}
use schedulx.Template.Info.{info_action}
use schedulx.Template.Halfway.{Settled, create_instance-Settled}
use schedulx.Template.Shown.{Reads, Laws, shown, info_action-create_instance_template}
use schedulx.Tests.Json.{
  texts_json, ids_json, attrs_json, download_json, texts_json-RoundTrips, ids_json-RoundTrips,
  attrs_json-RoundTrips, download_json-RoundTrips,
}
use schedulx.Template.Paired.{Created, create_container-Created}
use schedulx.Template.Request.{step_text}
use schedulx.Tool.Numbers.{reverse_int_slice, swaps, swap, item, put}
use schedulx.Template.Scheduled.{Scheduled, create_container_template-Scheduled, EntersTasks}
use schedulx.Tests.Site.{site_env, site, world}

abbrev pub cluster : ServiceCluster
cluster = record {
  id = 4;
  service_name = "web";
  cluster_name = "default";
  bridgx_cluster = "";
  auto_decision = "";
}

abbrev pub shop : World site_env
shop = record world { site = record site { clusters = cluster ∷ [] } }

abbrev pub env : ServiceEnv
env = record {
  image_storage_type = "hub";
  image_url = "web:1";
  port = 80;
  account = "root";
  password = "secret";
  cmd = "docker run";
  service_name = "";
}

abbrev evening : TmpInfo
evening = record {
  tmpl_name = "night";
  service_cluster_id = 4;
  describe = "";
  bridgx_clusname = "c";
  deploy_mode = "container";
}

abbrev pub order : TmplExpandReq
order = record {
  end_step = "mount";
  tmpl_info = some evening;
  base_env = some (record { is_container = true });
  service_env = some env;
  deploy_info = some (record no_deploy_info { deploy_cmd = "run"; deploy_file_name = "app" });
  mount = some (record { mount_type = "slb"; mount_value = "rsp-1" });
}

create_container-Created_example :
    Created site_env order shop (create_container_template site_env order shop)
create_container-Created_example = create_container-Created site_env order shop

create_instance-Settled_example :
    Settled site_env order shop (create_instance_template site_env order shop)
create_instance-Settled_example = create_instance-Settled site_env order shop

abbrev renewal : TmplUpdateReq
renewal = record { tmpl_expand_id = 1; parts = order }

update_instance_template-Replaced_example :
    Replaced site_env renewal shop (update_instance_template site_env renewal shop)
update_instance_template-Replaced_example = update_instance_template-Replaced site_env renewal shop

abbrev json_env : Env
json_env = record site_env {
  attrs_json = attrs_json;
  ids_json = ids_json;
  download_json = download_json;
  deploy_json = texts_json;
}

abbrev json_shop : World json_env
json_shop = record {
  site = record { tasks = []; instances = []; clusters = cluster ∷ []; cloud = 100; pending = [] };
  instructions = [];
  instr_records = [];
  templates = [];
  services = [];
}

json_env-Reads : Reads json_env
json_env-Reads = record { tmpl = λ p s. refl; instr = λ p s. refl }

json_env-Laws : Laws json_env
json_env-Laws = record {
  attrs = attrs_json-RoundTrips;
  ids = ids_json-RoundTrips;
  download = download_json-RoundTrips;
  deploy = texts_json-RoundTrips;
}

abbrev app : DeployInfo
app = record no_deploy_info { deploy_cmd = "run"; deploy_file_name = "app" }

abbrev night : TmpInfo
night = record {
  tmpl_name = "night";
  service_cluster_id = 4;
  describe = "";
  bridgx_clusname = "c";
  deploy_mode = "instance";
}

abbrev nightly : TmplExpandReq
nightly = record order { tmpl_info = some night; deploy_info = some app }

abbrev filed : World json_env
filed = (create_instance_template json_env nightly json_shop).1

created : create_instance_template json_env nightly json_shop ≡ (returns (deploy_tmpl_id 1), filed)
unfolding create_instance_template transaction instance_body service_bind_bridgx_cluster not_nil
    create_instance_deploy_tmpl create_deploy_instrs create_deploy_instr create_instr deploy_instr
    fill_deploy_tmpl update_tmpl_instr_group update_tmpl single_row settle pure raise call zoom
    ◌>>=◌ attempt Db.create Db.get Db.updates_by_id Db.updates
created = refl

info_action-create_instance_template_example :
    (info_action json_env 1 filed).0 ≡ returns (shown night app)
info_action-create_instance_template_example =
    info_action-create_instance_template json_env nightly json_shop filed 1 night app json_env-Reads
      json_env-Laws refl refl created

abbrev expanded : World json_env
expanded = (create_container_template json_env order json_shop).1

created_container :
    create_container_template json_env order json_shop ≡ (returns (tmpl_id 1), expanded)
unfolding create_container_template transaction service_bind_bridgx_cluster not_nil for_steps
    create_step later_step add_step append_ids write_groups create_expand_tmpl create_shrink_tmpl
    create_bridgx_expand_instr create_bridgx_shrink_instr with_reverse create_base_env_instr
    create_service_env_instr encrypt create_mount_slb_instr create_mount_instr
    create_umount_slb_instr is_alibaba_cloud_account_valid only_blanks step_text create_instr
    update_tmpl_instr_group update_tmpl single_row reverse_int_slice swaps swap item put pure raise
    call zoom ◌>>=◌ Db.create Db.get Db.updates_by_id Db.updates
created_container = refl

abbrev expansion : StartReq
expansion = record {
  service_cluster_id = 4;
  count = 2;
  exec_type = "manual";
  user_name = "root";
  download_file_url = "";
  rollback = false;
  task_info = "";
}

json_env-EntersTasks : EntersTasks json_env
json_env-EntersTasks k s = (_, refl)

create_container_template-Scheduled_example :
    Scheduled json_env order expansion 1 json_shop expanded
create_container_template-Scheduled_example =
    create_container_template-Scheduled json_env order evening expansion 1 json_shop expanded
      json_env-Reads json_env-EntersTasks ids_json-RoundTrips refl refl refl refl created_container
