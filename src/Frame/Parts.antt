-- ===== src/Frame/Parts.antt =====
-- The rows of the tasks under the parts that every instruction uses: the steps and related ids of the
-- task, goroutines, polling, paging, and the services of BridgX, mounting and node commands.
use schedulx.Prelude.{ℕ, ◌==◌, ◌≡◌, List, [], ◌∷◌, arith, Option, none, some, String}
use schedulx.Effect.{Error, ok, call}
use schedulx.Effect.Keeps.{
  Keeps, Keeps-call, Keeps-pure, Keeps-gets, Keeps-raise, Keeps-panic, Keeps-crash, Keeps-bind,
  keeps_rules,
}
use schedulx.Types.{Task, TaskStep, RelationField, InstanceInfo, InstanceAuth, InstanceStatus}
use schedulx.Env.{Env, ParamsServiceEnv}
use schedulx.World.{Job, base_env_init, service_env_init, Site, on_tasks}
use schedulx.Repo.Tasks.{
  now, one_row, set_step, update_task_step, relation_of, update_task_relation_task_id,
}
use schedulx.EnvOps.Verdict.{Verdict}
use schedulx.Db
use schedulx.EnvOps.Jobs
use schedulx.EnvOps.Deploy
use schedulx.Frame.{
  Framed, update-Framed, get-Framed, on_instances-Framed, on_clusters-Framed, on_cloud-Framed,
  pure_call-Framed, frame,
}

pub ruleset site_rules =
    (keeps_rules, on_instances-Framed, on_clusters-Framed, on_cloud-Framed, pure_call-Framed)

module _ (e : Env) (n : ℕ) (before : List Task) where
  abbrev P : Site e → Type 0
  P = Framed e n before

  one_row-Framed : (k : ℕ) → Keeps P (one_row e k)
  unfolding one_row
  one_row-Framed k = search site_rules

  now-Framed : Keeps P (now e)
  unfolding now
  now-Framed = search site_rules

  frame-set_step :
      (step : TaskStep) (msg : String) (time : ℕ) (r : Task)
      → r.id ≡ n
      → frame n (set_step e step msg time r) ≡ frame n r
  unfolding set_step
  frame-set_step step msg time r h = ground arith

  frame-relation :
      (value : String) (r : Task)
      → r.id ≡ n
      → frame n (record r { relation_task_id = value }) ≡ frame n r
  frame-relation value r h = ground arith

  write_step-Framed :
      (step : TaskStep) (msg : String) (time : ℕ)
      → Keeps P (on_tasks {e = e} (Db.updates e.tasks (λ r. r.id == n) (set_step e step msg time)))
  write_step-Framed step msg time = update-Framed e n before _ (frame-set_step step msg time)

  write_relation-Framed :
      (value : String)
      → Keeps P (
          on_tasks {e = e}
            (Db.updates e.tasks (λ r. r.id == n) (λ r. record r { relation_task_id = value })))
  write_relation-Framed value = update-Framed e n before _ (frame-relation value)

  pub update_task_step-Framed :
      (step : TaskStep) (msg : String) → Keeps P (update_task_step e n step msg)
  unfolding update_task_step
  update_task_step-Framed step msg =
      Keeps-bind _ _ now-Framed
        (λ time. Keeps-bind _ _ (write_step-Framed step msg time) one_row-Framed)

  relation_of-Framed : (stored : String) → Keeps P (relation_of e stored)
  unfolding relation_of
  relation_of-Framed stored = search site_rules

  pub update_relation-Framed :
      (field : RelationField) (k : ℕ) → Keeps P (update_task_relation_task_id e n field k)
  unfolding update_task_relation_task_id
  update_relation-Framed field k = Keeps-bind _ _ (get-Framed e n before n) λ obj.
      Keeps-bind _ _ (relation_of-Framed obj.relation_task_id)
        λ rtd. Keeps-bind _ _ (write_relation-Framed _) one_row-Framed

  start-Framed : (jobs : List Job) → Keeps P (Jobs.start e jobs)
  unfolding Jobs.start
  start-Framed jobs = Keeps-call _ λ s h. h

  call_back_svc-Framed :
      (t : ℕ) (inst : InstanceInfo) (v : Verdict) → Keeps P (Jobs.call_back_svc e t inst v)
  unfolding Jobs.call_back_svc
  call_back_svc-Framed t inst v = search site_rules

  run_job-Framed : (j : Job) → Keeps P (Jobs.run_job e j)
  unfolding Jobs.run_job
  run_job-Framed (base_env_init t inst auth) = search (site_rules, call_back_svc-Framed)
  run_job-Framed (service_env_init t inst auth params cmd) =
      search (site_rules, call_back_svc-Framed)

  set_pending-Framed :
      (rest : List Job)
      → Keeps P (call {S = Site e} {A = Unit {0}} (λ s. (ok tt, record s { pending = rest })))
  set_pending-Framed rest = Keeps-call _ λ s h. h

  run_taken-Framed : (taken : Option (Job × List Job)) → Keeps P (Jobs.run_taken e taken)
  unfolding Jobs.run_taken
  run_taken-Framed none = search site_rules
  run_taken-Framed (some (j, rest)) = search (site_rules, set_pending-Framed, run_job-Framed)

  run_scheduled-Framed : (places : List ℕ) → Keeps P (Jobs.run_scheduled e places)
  unfolding Jobs.run_scheduled
  run_scheduled-Framed [] = search site_rules
  run_scheduled-Framed (k ∷ ks) =
      Keeps-bind _ _ (Keeps-gets (λ s. Jobs.take_job k s.pending))
        λ taken. Keeps-bind _ _ (run_taken-Framed taken) (λ _. run_scheduled-Framed ks)

  pub wait-Framed : (k : ℕ) → Keeps P (Jobs.wait e k)
  unfolding Jobs.wait
  wait-Framed k = search (site_rules, run_scheduled-Framed)

  pub base_async-Framed :
      (c t : ℕ) (l : List InstanceInfo) (auth : Option InstanceAuth)
      → Keeps P (Jobs.base_env_init_async e c t l auth)
  unfolding Jobs.base_env_init_async
  base_async-Framed c t l auth = search (site_rules, start-Framed)

  pub service_async-Framed :
      (c t : ℕ) (l : List InstanceInfo) (auth : Option InstanceAuth) (params : ParamsServiceEnv)
      (cmd : String)
      → Keeps P (Jobs.service_env_init_async e c t l auth params cmd)
  unfolding Jobs.service_env_init_async
  service_async-Framed c t l auth params cmd = search (site_rules, start-Framed)

  before_download_one-Framed :
      (t : ℕ) (cmd : String) (auth : Option InstanceAuth) (inst : InstanceInfo)
      → Keeps P (Deploy.before_download_one e t cmd auth inst)
  unfolding Deploy.before_download_one
  before_download_one-Framed t cmd auth inst = search (site_rules, call_back_svc-Framed)

  pub before_download_async-Framed :
      (c t : ℕ) (cmd : String) (l : List InstanceInfo) (auth : Option InstanceAuth)
      → Keeps P (Deploy.deploy_before_download_init_async e c t cmd l auth)
  unfolding Deploy.deploy_before_download_init_async
  before_download_async-Framed c t cmd l auth = search (site_rules, before_download_one-Framed)

  exec_cmd-Framed :
      (t : ℕ) (cmd : String) (auth : Option InstanceAuth) (status : InstanceStatus)
      (inst : InstanceInfo)
      → Keeps P (Deploy.exec_cmd_with_update e t cmd auth status inst)
  unfolding Deploy.exec_cmd_with_update
  exec_cmd-Framed t cmd auth status inst = search (site_rules, call_back_svc-Framed)

  deploy_each-Framed :
      (t : ℕ) (cmd : String) (auth : Option InstanceAuth) (status : InstanceStatus)
      (l : List InstanceInfo) (shared : Option Error)
      → Keeps P (Deploy.deploy_each e t cmd auth status l shared)
  unfolding Deploy.deploy_each
  deploy_each-Framed t cmd auth status [] shared = Keeps-pure shared
  deploy_each-Framed t cmd auth status (inst ∷ l) shared =
      Keeps-bind _ _ (exec_cmd-Framed t cmd auth status inst)
        (λ x. deploy_each-Framed t cmd auth status l (Deploy.first_error shared x))

  return_error-Framed : (x : Option Error) → Keeps P (Deploy.return_error x)
  unfolding Deploy.return_error
  return_error-Framed none = search site_rules
  return_error-Framed (some x) = search site_rules

  pub do_deploy-Framed :
      (t : ℕ) (cmd : String) (l : List InstanceInfo) (auth : Option InstanceAuth)
      (status : InstanceStatus)
      → Keeps P (Deploy.do_deploy e t cmd l auth status)
  unfolding Deploy.do_deploy
  do_deploy-Framed t cmd l auth status =
      search (site_rules, deploy_each-Framed, return_error-Framed)
