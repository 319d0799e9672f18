-- ===== src/Template/Instructions.antt =====
-- The `Create…Instr` functions of service/instrsvc.go, and `IsAlibabaCloudAccountValid` of
-- service/common.go.
use Prim.Native.Char.{code}
use text.Mathlib.Text.{◌==◌ as str_eq}
use schedulx.Prelude.{
  ℕ, String, ◌==◌, ◌&&◌, ◌||◌, not, Bool, true, if◌then◌else◌, Option, none, some,
}
use schedulx.Effect.{new_error, Result, err, Exec, pure, raise, panic, call, ◌>>=◌}
use schedulx.Types.{
  Action, Instruction, bridgx_expand, bridgx_shrink, node_act_init_base, node_act_init_svc,
  mount_slb, umount_slb, node_act_before_download, node_act_download, node_act_before_deploy,
  node_act_deploy, node_act_after_deploy,
}
use schedulx.Db
use schedulx.Env.{Env, AlibabaCloudAccount, ParamsMount, BaseEnv}
use schedulx.World.{World, on_instructions}
use schedulx.Template.Request.{
  ServiceEnv, DeployInfo, DeployStep, step_before_download, step_download_exec, step_before_deploy,
  step_deploy, step_after_deploy,
}

-- `strings.Trim(s, " ") == ""`
unfoldable pub only_blanks : String → Bool
only_blanks String.[] = true
only_blanks (String.◌∷◌ c s) = code c == 32 && only_blanks s

unfoldable pub is_alibaba_cloud_account_valid : AlibabaCloudAccount → Bool
unfolding only_blanks
is_alibaba_cloud_account_valid a =
    not (only_blanks a.region || only_blanks a.access_key || only_blanks a.secret)

-- `GetDownloadExecCmd`
abbrev pub download_exec_cmd : String
download_exec_cmd =
    "\n#!/bin/bash\nmkdir -p {{.DeployFilePath}}\nwget {{.DownloadFileUrl}} -O {{.DeployFilePath}}/{{.DeployFileName}}"

-- The row of a new instruction; the database gives it an id.
abbrev pub new_instr : String → String → Action → ℕ → Instruction
new_instr cmd params action tmpl_id = record {
  id = 0;
  cmd = cmd;
  params = params;
  instr_action = action;
  tmpl_id = tmpl_id;
  is_deleted = 0;
}

module _ (e : Env) where
  unfoldable pub create_instr : Instruction → Exec (World e) ℕ
  create_instr r = on_instructions (Db.create e.instructions r)

  unfoldable pub create_bridgx_shrink_instr : ℕ → Exec (World e) ℕ
  create_bridgx_shrink_instr tmpl_id = create_instr (new_instr "" "" bridgx_shrink tmpl_id)

  -- The id of an instruction, and that of its reverse or 0.
  unfoldable pub with_reverse : Bool → Exec (World e) ℕ → ℕ → Exec (World e) (ℕ × ℕ)
  with_reverse need_reverse create_reverse n =
      if need_reverse then (create_reverse >>= λ k. pure (n, k)) else pure (n, 0)

  unfoldable pub create_bridgx_expand_instr : ℕ → ℕ → Bool → Exec (World e) (ℕ × ℕ)
  unfolding with_reverse
  create_bridgx_expand_instr tmpl_id rev_tmpl_id need_reverse = do
    n ← create_instr (new_instr "" "" bridgx_expand tmpl_id)
    with_reverse need_reverse (create_bridgx_shrink_instr rev_tmpl_id) n

  unfoldable pub create_base_env_instr : Option BaseEnv → ℕ → Exec (World e) (ℕ × ℕ)
  create_base_env_instr none tmpl_id = panic
  create_base_env_instr (some args) tmpl_id = do
    n ← create_instr (new_instr "" (e.base_env_json.encode args) node_act_init_base tmpl_id)
    pure (n, 0)

  -- `tool.AesEncrypt`
  unfoldable pub encrypt : String → String → Result String
  encrypt text key = if str_eq key "" then err (new_error "invalid key") else e.aes_encrypt text key

  -- The parameters are stored without the command.
  unfoldable pub create_service_env_instr : ServiceEnv → ℕ → Exec (World e) (ℕ × ℕ)
  create_service_env_instr args tmpl_id = do
    pass ← call (λ w. (encrypt args.password args.account, w))
    let params = e.service_env_json.encode (record {
      image_storage_type = args.image_storage_type;
      image_url = args.image_url;
      service_name = args.service_name;
      port = args.port;
      account = args.account;
      password = pass;
    })
    n ← create_instr (new_instr args.cmd params node_act_init_svc tmpl_id)
    pure (n, 0)

  unfoldable pub create_umount_slb_instr : ParamsMount → ℕ → Exec (World e) ℕ
  create_umount_slb_instr args tmpl_id =
      create_instr (new_instr "" (e.mount_json.encode args) umount_slb tmpl_id)

  unfoldable pub create_mount_instr : Option ParamsMount → ℕ → ℕ → Bool → Exec (World e) (ℕ × ℕ)
  unfolding with_reverse
  create_mount_instr none tmpl_id rev_tmpl_id need_reverse = panic
  create_mount_instr (some args) tmpl_id rev_tmpl_id need_reverse = do
    n ← create_instr (new_instr "" (e.mount_json.encode args) mount_slb tmpl_id)
    with_reverse need_reverse (create_umount_slb_instr args rev_tmpl_id) n

  -- The account is tested before the pointer to the parameters is read.
  unfoldable pub create_mount_slb_instr : Option ParamsMount → ℕ → ℕ → Bool → Exec (World e) (ℕ × ℕ)
  unfolding create_mount_instr
  create_mount_slb_instr args tmpl_id rev_tmpl_id need_reverse =
      if is_alibaba_cloud_account_valid e.account
      then create_mount_instr args tmpl_id rev_tmpl_id need_reverse
      else raise (new_error "invalid AlibabaCloudAccount Config")

  -- `CreateInstanceBeforeDownload` to `CreateInstanceAfterDeploy`: the rows of the five steps.
  unfoldable pub deploy_instr : DeployStep → DeployInfo → ℕ → Instruction
  deploy_instr step_before_download d t =
      new_instr d.before_download_cmd "" node_act_before_download t
  deploy_instr step_download_exec d t =
      new_instr download_exec_cmd
        (e.download_json.encode
          (record { deploy_file_path = d.deploy_file_path; deploy_file_name = d.deploy_file_name }))
        node_act_download t
  deploy_instr step_before_deploy d t = new_instr d.before_deploy_cmd "" node_act_before_deploy t
  deploy_instr step_deploy d t =
      new_instr d.deploy_cmd (e.deploy_json.encode d.env_variables) node_act_deploy t
  deploy_instr step_after_deploy d t = new_instr d.after_deploy_cmd "" node_act_after_deploy t

  -- `deployFn`
  unfoldable pub create_deploy_instr : DeployStep → DeployInfo → ℕ → Exec (World e) ℕ
  create_deploy_instr step d t = create_instr (deploy_instr step d t)
