-- ===== src/EnvOps/Reported.antt =====
-- What the goroutine of one instance hands to its callback, and what it returns
-- (service/envsvc.go).
use text.Mathlib.Text.{◌==◌ as str_eq}
use schedulx.Prelude.{◌≡◌, refl, Bool, true, false, if◌then◌else◌, String, Option, none, some}
use schedulx.Effect.{Error, Result, ok, err, pure}
use schedulx.Effect.Gives.{Gives, Gives-pure, Gives-bind, Gives-if}
use schedulx.Types.{InstanceInfo, InstanceAuth, InstanceStatus, base, svc, failed}
use schedulx.Env.{Env, ParamsServiceEnv}
use schedulx.Tool.Text.{contains}
use schedulx.EnvOps.Verdict.{
  Verdict, recovered, fine, failure, script_verdict, plain_verdict, deploy_verdict, exec_single,
  base_env_init_single, get_init_service_cmd, service_env_init_single,
  deploy_before_download_init_single, exec_cmd_single,
}

abbrev Agrees : InstanceStatus → Verdict → Option Error → Type 0
Agrees status v none = v.status ≡ status
Agrees status v (some x) = (v.status ≡ failed) × (v.problem ≡ some x)

-- Without a returned error the status is that of success, and with one it is that of failure, beside
-- this error.
abbrev pub Reports : InstanceStatus → Verdict → Type 0
Reports status v = Agrees status v v.returned

fine-Reports : (status : InstanceStatus) → Reports status (fine status)
unfolding fine
fine-Reports status = refl

failure-Reports : (status : InstanceStatus) (x : Error) → Reports status (failure x)
unfolding failure
failure-Reports status x = (refl, refl)

checked-Reports :
    (status : InstanceStatus) (b : Bool) (x : Error)
    → Reports status (if b then fine status else failure x)
checked-Reports status true x = fine-Reports status
checked-Reports status false x = failure-Reports status x

script-Reports :
    (status : InstanceStatus) (a : String × Option Error) → Reports status (script_verdict status a)
unfolding script_verdict
script-Reports status (res, some x) = failure-Reports status x
script-Reports status (res, none) = checked-Reports status (contains res "success") _

plain-Reports :
    (status : InstanceStatus) (a : String × Option Error) → Reports status (plain_verdict status a)
unfolding plain_verdict
plain-Reports status (res, some x) = failure-Reports status x
plain-Reports status (res, none) = fine-Reports status

deploy-Reports :
    (status : InstanceStatus) (a : String × Option Error) → Reports status (deploy_verdict status a)
unfolding deploy_verdict
deploy-Reports status (res, some x) = failure-Reports status _
deploy-Reports status (res, none) = fine-Reports status

module _ (e : Env) where
  single-Reports :
      (cmd : String) (inst : InstanceInfo) (verdict : String × Option Error → Verdict)
      (status : InstanceStatus) (auth : Option InstanceAuth)
      → ((a : String × Option Error) → Reports status (verdict a))
      → Gives (Reports status) (exec_single e cmd inst verdict status auth)
  unfolding exec_single recovered
  single-Reports cmd inst verdict status none h = Gives-pure _ refl
  single-Reports cmd inst verdict status (some auth) h = Gives-bind _ _ λ a. Gives-pure _ (h a)

  rendered-Reports :
      (c : Result String) (inst : InstanceInfo) (auth : Option InstanceAuth)
      → Gives (Reports svc) (elim c [
        | err x ↦ pure (failure x)
        | ok local ↦ exec_single e local inst (script_verdict svc) svc auth
      ])
  rendered-Reports (err x) inst auth = Gives-pure _ (failure-Reports svc x)
  rendered-Reports (ok local) inst auth = single-Reports local inst _ svc auth (script-Reports svc)

-- However the goroutine of one instance ends, with a panic or without: what it returns and what its
-- callback gets agree, for base and service environments, for the preparation of a download and for the
-- steps of a deployment.
pub singles-Reports :
    (e : Env) (inst : InstanceInfo) (auth : Option InstanceAuth) (params : ParamsServiceEnv)
    (cmd : String) (status : InstanceStatus)
    → Gives (Reports base) (base_env_init_single e inst auth)
      × Gives (Reports svc) (service_env_init_single e inst auth params cmd)
      × Gives (Reports base) (deploy_before_download_init_single e cmd inst auth)
      × Gives (Reports status) (exec_cmd_single e cmd inst auth status)
unfolding base_env_init_single service_env_init_single deploy_before_download_init_single
    exec_cmd_single
singles-Reports e inst auth params cmd status = (
  single-Reports e _ inst _ base auth (script-Reports base),
  rendered-Reports e (get_init_service_cmd e params cmd) inst auth,
  Gives-if (str_eq cmd "") _ _ (Gives-pure _ (fine-Reports base))
      (single-Reports e cmd inst _ base auth (plain-Reports base)),
  Gives-if (str_eq cmd "") _ _ (Gives-pure _ (fine-Reports status))
      (single-Reports e cmd inst _ status auth (deploy-Reports status)),
)
