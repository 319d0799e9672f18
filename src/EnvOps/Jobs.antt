-- ===== src/EnvOps/Jobs.antt =====
-- The goroutines of `BaseEnvInitAsync` and `ServiceEnvInitAsync`, which nobody waits for: they are
-- pending until the scheduler runs them, and that is while another goroutine sleeps or waits.
use schedulx.Prelude.{ℕ, zero, suc, String, List, [], ◌∷◌, ◌++◌, map, Option, none, some}
use schedulx.Effect.{Error, message, Exec, pure, gets, call, ok, ◌>>=◌, ◌>>◌, ignore}
use schedulx.Types.{InstanceInfo, InstanceAuth}
use schedulx.Env.{Env, ParamsServiceEnv}
use schedulx.World.{Job, base_env_init, service_env_init, Site, on_instances, on_cloud}
use schedulx.Repo.Instances.{update_inst, up_insert_instance_batch}
use schedulx.EnvOps.Verdict.{Verdict, base_env_init_single, service_env_init_single}
use schedulx.Shell

-- `err.Error()`, or the empty text of a nil error
unfoldable pub problem_text : Option Error → String
problem_text none = ""
problem_text (some x) = message x

unfoldable pub take_job : ℕ → List Job → Option (Job × List Job)
take_job n [] = none
take_job zero (j ∷ l) = some (j, l)
take_job (suc n) (j ∷ l) = elim (take_job n l) [ none ↦ none | some (k, r) ↦ some (k, j ∷ r) ]

module _ (e : Env) where
  -- `CallBackSvc` and `UpdateNode`; the caller drops their error.
  unfoldable pub call_back_svc : ℕ → InstanceInfo → Verdict → Exec (Site e) (Unit {0})
  unfolding problem_text
  call_back_svc task_id inst v =
      ignore
        (on_instances (update_inst e task_id inst.instance_id v.status (problem_text v.problem)))

  unfoldable pub run_job : Job → Exec (Site e) (Unit {0})
  run_job (base_env_init task_id inst auth) = do
    v ← on_cloud (base_env_init_single e inst auth)
    call_back_svc task_id inst v
  run_job (service_env_init task_id inst auth params cmd) = do
    v ← on_cloud (service_env_init_single e inst auth params cmd)
    call_back_svc task_id inst v

  unfoldable pub start : List Job → Exec (Site e) (Unit {0})
  start jobs = call (λ s. (ok tt, record s { pending = s.pending ++ jobs }))

  -- A place past the end of the list runs nothing.
  unfoldable pub run_taken : Option (Job × List Job) → Exec (Site e) (Unit {0})
  run_taken none = pure tt
  run_taken (some (j, rest)) = do call (λ s. (ok tt, record s { pending = rest })); run_job j

  unfoldable pub run_scheduled : List ℕ → Exec (Site e) (Unit {0})
  run_scheduled [] = pure tt
  run_scheduled (n ∷ ns) = do
    taken ← gets (λ s. take_job n s.pending)
    run_taken taken
    run_scheduled ns

  -- `time.Sleep`, while other goroutines run.
  unfoldable pub wait : ℕ → Exec (Site e) (Unit {0})
  wait n = do
    on_cloud (Shell.sleep e.remote n)
    places ← gets (λ s. e.remote.scheduled s.cloud)
    run_scheduled places

  unfoldable pub base_env_init_async :
      ℕ → ℕ → List InstanceInfo → Option InstanceAuth → Exec (Site e) (Unit {0})
  base_env_init_async service_cluster_id task_id instances auth = do
    on_instances (up_insert_instance_batch e instances task_id service_cluster_id)
    start (map (λ inst. base_env_init task_id inst auth) instances)

  unfoldable pub service_env_init_async :
      ℕ
      → ℕ
      → List InstanceInfo
      → Option InstanceAuth
      → ParamsServiceEnv
      → String
      → Exec (Site e) (Unit {0})
  service_env_init_async service_cluster_id task_id instances auth params cmd = do
    on_instances (up_insert_instance_batch e instances task_id service_cluster_id)
    start (map (λ inst. service_env_init task_id inst auth params cmd) instances)
