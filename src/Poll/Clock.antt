-- ===== src/Poll/Clock.antt =====
-- The clock under commands on instances, under goroutines and under `wait`.
use schedulx.Prelude.{ℕ, zero, suc, ◌+◌, ◌≤◌, List, [], ◌∷◌, arith, Option, none, some, String}
use schedulx.Effect.{Exec, Error, Result, ok, err, call, zoom, ◌>>=◌, pure, new_error}
use schedulx.Effect.Keeps.{
  Keeps, Keeps-zoom, Keeps-bind, Keeps-call, Keeps-gets, Keeps-attempt, Keeps-pure, Keeps-ignore,
}
use schedulx.Types.{InstanceInfo, InstanceAuth, InstanceStatus, svc}
use schedulx.Env.{Env, Remote, ParamsServiceEnv}
use schedulx.World.{Job, base_env_init, service_env_init, Site, on_instances, on_cloud}
use schedulx.Shell
use schedulx.EnvOps.Verdict
use schedulx.EnvOps.Verdict.{Verdict}
use schedulx.EnvOps.Jobs
use schedulx.Poll.{clock}

module _ (r : Remote) (n : ℕ) where
  abbrev Later : r.Cloud → Type 0
  Later c = n ≤ r.clock c

  session-Later : (u ip p : String) → Keeps Later (call (r.new_session u ip p))
  session-Later u ip p = Keeps-call _ λ c h. omega (arith, r.new_session_law u ip p c)

  sleep-Later : (k : ℕ) → Keeps Later (Shell.sleep r k)
  unfolding Shell.sleep
  sleep-Later k = Keeps-call _ λ c h. omega (arith, r.sleep_law k c)

  or_retry-Later :
      (next : Error → Exec r.Cloud (Result r.Session)) (a : Result r.Session)
      → ((x : Error) → Keeps Later (next x))
      → Keeps Later (Shell.or_retry r next a)
  unfolding Shell.or_retry
  or_retry-Later next (ok session) k = Keeps-pure _
  or_retry-Later next (err x) k = Keeps-bind _ _ (sleep-Later 5) λ _. k x

  connect-Later : (k : ℕ) (u ip p : String) (x : Error) → Keeps Later (Shell.connect r k u ip p x)
  unfolding Shell.connect
  connect-Later zero u ip p x = Keeps-pure _
  connect-Later (suc k) u ip p x =
      Keeps-bind _ _ (Keeps-attempt _ (session-Later u ip p))
        λ a. or_retry-Later _ a (connect-Later k u ip p)

  run_in-Later : (cmd : String) (a : Result r.Session) → Keeps Later (Shell.run_in r cmd a)
  unfolding Shell.run_in
  run_in-Later cmd (err x) = Keeps-pure _
  run_in-Later cmd (ok session) = Keeps-call _ λ c h. omega (arith, r.run_law session cmd c)

  pub remote-Later : (cmd ip u p : String) → Keeps Later (Shell.remote_cmd_exec r cmd ip u p)
  unfolding Shell.remote_cmd_exec
  remote-Later cmd ip u p =
      Keeps-bind _ _ (connect-Later 3 _ _ _ (new_error "")) λ s. run_in-Later cmd s

module _ (e : Env) (n : ℕ) where
  single-Later :
      (cmd : String) (inst : InstanceInfo) (v : String × Option Error → Verdict)
      (st : InstanceStatus) (auth : Option InstanceAuth)
      → Keeps (Later e.remote n) (Verdict.exec_single e cmd inst v st auth)
  unfolding Verdict.exec_single
  single-Later cmd inst v st none = Keeps-pure _
  single-Later cmd inst v st (some auth) =
      Keeps-bind _ _ (remote-Later e.remote n _ _ _ _) λ a. Keeps-pure _

  base-Later :
      (inst : InstanceInfo) (auth : Option InstanceAuth)
      → Keeps (Later e.remote n) (Verdict.base_env_init_single e inst auth)
  unfolding Verdict.base_env_init_single
  base-Later inst auth = single-Later _ inst _ _ auth

  rendered-Later :
      (c : Result String) (inst : InstanceInfo) (auth : Option InstanceAuth)
      → Keeps (Later e.remote n) (elim c [
        | err x ↦ pure (Verdict.failure x)
        | ok local ↦ Verdict.exec_single e local inst (Verdict.script_verdict svc) svc auth
      ])
  rendered-Later (err x) inst auth = Keeps-pure _
  rendered-Later (ok local) inst auth = single-Later _ inst _ _ auth

  service-Later :
      (inst : InstanceInfo) (auth : Option InstanceAuth) (params : ParamsServiceEnv) (cmd : String)
      → Keeps (Later e.remote n) (Verdict.service_env_init_single e inst auth params cmd)
  unfolding Verdict.service_env_init_single
  service-Later inst auth params cmd = rendered-Later _ inst auth

  abbrev pub After : Site e → Type 0
  After s = n ≤ e.remote.clock s.cloud

  on_instances-After :
      {A : Type 0} (m : Exec e.instances.Store A) → Keeps After (on_instances {e = e} m)
  on_instances-After m = Keeps-zoom _ _ _ λ s h. h

  on_cloud-After :
      {A : Type 0} (m : Exec e.remote.Cloud A)
      → Keeps (Later e.remote n) m
      → Keeps After (on_cloud {e = e} m)
  on_cloud-After m k = Keeps-zoom _ _ _ λ s h. k.at s.cloud h

  call_back-After :
      (t : ℕ) (inst : InstanceInfo) (v : Verdict) → Keeps After (Jobs.call_back_svc e t inst v)
  unfolding Jobs.call_back_svc
  call_back-After t inst v = Keeps-ignore _ (on_instances-After _)

  run_job-After : (j : Job) → Keeps After (Jobs.run_job e j)
  unfolding Jobs.run_job
  run_job-After (base_env_init t inst auth) =
      Keeps-bind _ _ (on_cloud-After _ (base-Later inst auth)) λ v. call_back-After t inst v
  run_job-After (service_env_init t inst auth params cmd) =
      Keeps-bind _ _ (on_cloud-After _ (service-Later inst auth params cmd))
        λ v. call_back-After t inst v

  run_taken-After : (taken : Option (Job × List Job)) → Keeps After (Jobs.run_taken e taken)
  unfolding Jobs.run_taken
  run_taken-After none = Keeps-pure tt
  run_taken-After (some (j, rest)) = Keeps-bind _ _ (Keeps-call _ λ s h. h) λ _. run_job-After j

  run_scheduled-After : (places : List ℕ) → Keeps After (Jobs.run_scheduled e places)
  unfolding Jobs.run_scheduled
  run_scheduled-After [] = Keeps-pure tt
  run_scheduled-After (k ∷ ks) =
      Keeps-bind _ _ (Keeps-gets _)
        λ taken. Keeps-bind _ _ (run_taken-After taken) λ _. run_scheduled-After ks

-- `wait` takes at least the time that it is called with.
pub wait-clock : (e : Env) (k : ℕ) (s : Site e) → clock e s + k ≤ clock e (Jobs.wait e k s).1
unfolding Jobs.wait Shell.sleep ◌>>=◌ zoom
wait-clock e k s =
    (run_scheduled-After e (clock e s + k) (e.remote.scheduled (e.remote.sleep k s.cloud))).at
      (record s { cloud = e.remote.sleep k s.cloud }) (e.remote.sleep_law k s.cloud)
