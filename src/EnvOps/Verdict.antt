-- ===== src/EnvOps/Verdict.antt =====
-- How the goroutine of one instance ends: `BaseEnvInitSingle`, `ServiceEnvInitSingle`,
-- `DeployBeforeDownloadInitSingle` and `ExecCmdWithUpdateInstanceStatus`, up to their callback.
use Prim.Native.String.{◌++◌}
use text.Mathlib.Text.{◌==◌ as str_eq}
use schedulx.Prelude.{String, Option, none, some, if◌then◌else◌}
use schedulx.Effect.{Error, sys_panic, new_error, message, Result, ok, err, Exec, pure, ◌>>=◌}
use schedulx.Types.{InstanceInfo, InstanceAuth, InstanceStatus, base, svc, failed}
use schedulx.Env.{Env, ParamsServiceEnv}
use schedulx.Shell.{remote_cmd_exec}
use schedulx.Tool.Text.{contains}
use schedulx.EnvOps.Scripts.{init_base_cmd}

-- The status and the error that the callback gets, and the error that the function returns.
pub record Verdict : Type 0 where
  pub status : InstanceStatus
  pub problem : Option Error
  pub returned : Option Error

-- `recover()` sets `err` after the panic: the status is still the one of success, and the unnamed
-- result of the function stays nil.
unfoldable pub recovered : InstanceStatus → Verdict
recovered status = record { status = status; problem = some sys_panic; returned = none }

unfoldable pub fine : InstanceStatus → Verdict
fine status = record { status = status; problem = none; returned = none }

unfoldable pub failure : Error → Verdict
failure e = record { status = failed; problem = some e; returned = some e }

-- The script has to print "success".
unfoldable pub script_verdict : InstanceStatus → String × Option Error → Verdict
unfolding fine failure
script_verdict status (res, some e) = failure e
script_verdict status (res, none) =
    if contains res "success" then fine status else failure (new_error "run init_base.sh err")

-- Only the error of the command counts.
unfoldable pub plain_verdict : InstanceStatus → String × Option Error → Verdict
unfolding fine failure
plain_verdict status (res, some e) = failure e
plain_verdict status (res, none) = fine status

-- The output goes into the text of the error.
unfoldable pub deploy_verdict : InstanceStatus → String × Option Error → Verdict
unfolding fine failure
deploy_verdict status (outs, some e) =
    failure (new_error ("error:" ++ message e ++ ", outs:" ++ outs))
deploy_verdict status (outs, none) = fine status

module _ (e : Env) where
  abbrev Run : Type 0
  Run = Exec e.remote.Cloud Verdict

  -- A nil `auth` is dereferenced in the call.
  unfoldable pub exec_single :
      String
      → InstanceInfo
      → (String × Option Error → Verdict)
      → InstanceStatus
      → Option InstanceAuth
      → Exec e.remote.Cloud Verdict
  unfolding ◌>>=◌ recovered
  exec_single cmd inst verdict status none = pure (recovered status)
  exec_single cmd inst verdict status (some auth) = do
    answer ← remote_cmd_exec e.remote cmd inst.ip_inner auth.user_name auth.pwd
    pure (verdict answer)

  unfoldable pub base_env_init_single :
      InstanceInfo → Option InstanceAuth → Exec e.remote.Cloud Verdict
  unfolding exec_single script_verdict
  base_env_init_single inst auth = exec_single init_base_cmd inst (script_verdict base) base auth

  -- `template.GetInitServiceCmd`: the password is stored encrypted.
  unfoldable pub get_init_service_cmd : ParamsServiceEnv → String → Result String
  get_init_service_cmd params docker_run = elim (e.aes_decrypt params.password params.account) [
    | err x ↦ err x
    | ok pass ↦ e.render_service (record params { password = pass }) docker_run
  ]

  unfoldable pub service_env_init_single :
      InstanceInfo → Option InstanceAuth → ParamsServiceEnv → String → Exec e.remote.Cloud Verdict
  unfolding exec_single script_verdict failure get_init_service_cmd
  service_env_init_single inst auth params cmd = elim (get_init_service_cmd params cmd) [
    | err x ↦ pure (failure x)
    | ok local ↦ exec_single local inst (script_verdict svc) svc auth
  ]

  unfoldable pub deploy_before_download_init_single :
      String → InstanceInfo → Option InstanceAuth → Exec e.remote.Cloud Verdict
  unfolding exec_single plain_verdict fine
  deploy_before_download_init_single cmd inst auth =
      if str_eq cmd ""
      then pure (fine base)
      else exec_single cmd inst (plain_verdict base) base auth

  unfoldable pub exec_cmd_single :
      String → InstanceInfo → Option InstanceAuth → InstanceStatus → Exec e.remote.Cloud Verdict
  unfolding exec_single deploy_verdict fine
  exec_cmd_single cmd inst auth status =
      if str_eq cmd ""
      then pure (fine status)
      else exec_single cmd inst (deploy_verdict status) status auth
