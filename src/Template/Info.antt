-- ===== src/Template/Info.antt =====
-- `InfoAction` of service/templatesvc.go.
use text.Mathlib.Text.{◌==◌ as str_eq}
use schedulx.Prelude.{ℕ, String, if◌then◌else◌, List, [], ◌∷◌, none, some, false}
use schedulx.Effect.{Result, ok, err, Exec, pure, call, ◌>>=◌, or_panic}
use schedulx.Types.{
  ScheduleTemplate, Instruction, Action, bridgx_expand, bridgx_shrink, node_act_init_base,
  node_act_init_svc, mount_slb, umount_slb, mount_nginx, umount_nginx, node_act_before_download,
  node_act_download, node_act_before_deploy, node_act_deploy, node_act_after_deploy, other_action,
}
use schedulx.Env.{Env, ParamsServiceEnv}
use schedulx.World.{World}
use schedulx.Template.Request.{TmpInfo, ServiceEnv, DeployInfo, TmplInfoResp}
use schedulx.Template.Tables.{get_sched_tmpl, get_instr}

abbrev pub tmpl_info_of : ScheduleTemplate → TmpInfo
tmpl_info_of r = record {
  tmpl_name = r.tmpl_name;
  service_cluster_id = r.service_cluster_id;
  describe = r.description;
  bridgx_clusname = r.bridgx_clusname;
  deploy_mode = r.deploy_mode;
}

abbrev pub no_deploy_info : DeployInfo
no_deploy_info = record {
  strategy = "";
  in_place = false;
  max_surge = 0;
  repo_path = "";
  repo_type = "";
  repo_user = "";
  repo_password = "";
  executable_path = "";
  deploy_file_path = "";
  deploy_file_name = "";
  env_variables = [];
  before_download_cmd = "";
  before_deploy_cmd = "";
  deploy_cmd = "";
  after_deploy_cmd = "";
}

-- A structure whose decoding failed, and the error was dropped, is taken to be empty.
abbrev pub or_empty : {A : Type 0} → A → Result A → A
or_empty empty (ok a) = a
or_empty empty (err x) = empty

module _ (e : Env) where
  -- `tmplAttrs` into `deployInfo`, where the column is not empty.
  unfoldable pub repo_of : String → DeployInfo
  repo_of stored =
      if str_eq stored ""
      then no_deploy_info
      else (let a =
            or_empty (record { repo_type = ""; repo_path = ""; repo_user = ""; repo_password = "" })
              (e.attrs_json.decode stored) in
          record no_deploy_info {
            repo_type = a.repo_type;
            repo_path = a.repo_path;
            repo_user = a.repo_user;
            repo_password = a.repo_password;
          })

  -- The parameters of an instruction of a deployment, which may be unreadable.
  unfoldable pub with_download : DeployInfo → String → DeployInfo
  with_download d params =
      let p =
        or_empty (record { deploy_file_path = ""; deploy_file_name = "" })
          (e.download_json.decode params) in
      record d { deploy_file_path = p.deploy_file_path; deploy_file_name = p.deploy_file_name }

  unfoldable pub shown_env : String → String → ParamsServiceEnv → Exec (World e) ServiceEnv
  shown_env service_name cmd p = do
    password ← call (λ w. (e.aes_decrypt p.password p.account, w))
    pure (record {
      image_storage_type = p.image_storage_type;
      image_url = p.image_url;
      port = p.port;
      account = p.account;
      password = password;
      cmd = cmd;
      service_name = service_name;
    })

  -- The `switch` over the action of an instruction.
  unfoldable pub show_instr :
      String → Action → Instruction → TmplInfoResp → Exec (World e) TmplInfoResp
  unfolding with_download shown_env
  show_instr service_name node_act_before_download i r =
      pure (record r { deploy_info = record r.deploy_info { before_download_cmd = i.cmd } })
  show_instr service_name node_act_download i r =
      pure (record r { deploy_info = with_download r.deploy_info i.params })
  show_instr service_name node_act_before_deploy i r =
      pure (record r { deploy_info = record r.deploy_info { before_deploy_cmd = i.cmd } })
  show_instr service_name node_act_deploy i r = pure (record r {
    deploy_info = record r.deploy_info {
      deploy_cmd = i.cmd;
      env_variables = or_empty [] (e.deploy_json.decode i.params);
    };
  })
  show_instr service_name node_act_after_deploy i r =
      pure (record r { deploy_info = record r.deploy_info { after_deploy_cmd = i.cmd } })
  show_instr service_name node_act_init_base i r = do
    env ← call (λ w. (e.base_env_json.decode i.params, w))
    pure (record r { base_env = some env })
  show_instr service_name node_act_init_svc i r = do
    params ← call (λ w. (e.service_env_json.decode i.params, w))
    env ← shown_env service_name i.cmd params
    pure (record r { service_env = some env })
  show_instr service_name mount_slb i r = do
    params ← call (λ w. (e.mount_json.decode i.params, w))
    pure (record r { mount = some params })
  show_instr service_name bridgx_expand i r = pure r
  show_instr service_name bridgx_shrink i r = pure r
  show_instr service_name umount_slb i r = pure r
  show_instr service_name mount_nginx i r = pure r
  show_instr service_name umount_nginx i r = pure r
  show_instr service_name (other_action a) i r = pure r

  -- The loop over the instructions of the group. An error of `GetInstr` always ends it: the `err` that
  -- the test compares with `gorm.ErrRecordNotFound` is nil here.
  unfoldable pub show_instrs : String → List ℕ → TmplInfoResp → Exec (World e) TmplInfoResp
  unfolding get_instr show_instr
  show_instrs service_name [] r = pure r
  show_instrs service_name (n ∷ ids) r = do
    i ← get_instr e n
    r' ← show_instr service_name i.instr_action i r
    show_instrs service_name ids r'

  -- The error of `GetSchedTmpl` is not tested before its nil answer is read.
  unfoldable pub info_action : ℕ → Exec (World e) TmplInfoResp
  unfolding get_sched_tmpl or_panic repo_of show_instrs
  info_action tmpl_expand_id = do
    tmpl ← or_panic (get_sched_tmpl e tmpl_expand_id)
    group ← call (λ w. (e.ids_json.decode tmpl.instr_group, w))
    show_instrs tmpl.service_name group (record {
      tmpl_info = tmpl_info_of tmpl;
      base_env = none;
      service_env = none;
      mount = none;
      deploy_info = repo_of tmpl.tmpl_attrs;
    })
