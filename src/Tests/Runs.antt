-- ===== src/Tests/Runs.antt =====
-- The properties at the small installation.
use schedulx.Schedule.Begun.{Begun, expansion, shrinking, deployment, actions-Begun}
use schedulx.EnvOps.Apart.{of_others, of_others-do_deploy}
use schedulx.EnvOps.Verdict.{
  base_env_init_single, service_env_init_single, deploy_before_download_init_single,
  exec_cmd_single,
}
use schedulx.EnvOps.Reported.{Reports, singles-Reports}
use schedulx.Env.{ParamsServiceEnv}
use schedulx.Poll.Done.{poll_until_done-Never}
use schedulx.Prelude.{
  ℕ, ◌+◌, ◌≤◌, ◌≡◌, refl, List, [], ◌∷◌, map, arith, none, String, select, false,
}
use schedulx.Effect.{Outcome, returns, err, new_error, Exec, died, resumed, ok, Result}
use schedulx.Types
use schedulx.Types.{Task}
use schedulx.World.{World}
use schedulx.Frame.{frame}
use schedulx.Frame.Run.{run_group-Framed}
use schedulx.Schedule.Order.{Logged, run_group-order}
use schedulx.Schedule.Run.{run_group, background}
use schedulx.Schedule.Final.{
  Closed, ClosedDeploy, background-Closed, background_deploy-Closed, background-died,
}
use schedulx.Schedule.Start.{
  background_deploy, StartReq, expand_action, shrink_action, deploy_action,
}
use schedulx.Tests.Site.{site_env, site, world, request, node, template}
use schedulx.Prelude.{◌*◌, suc, select}
use schedulx.Effect.{◌>>=◌, attempt, zoom, call}
use schedulx.Effect.Gives.{Returned, Gives}
use schedulx.World.{Site, on_site}
use schedulx.Types.{bridgx_expand, mount_slb, svc, InstanceInfo}
use schedulx.Instr.Exec.{Answer, dispatch, exec_act, create_instr_record}
use schedulx.Instr.Record.{Recorded, exec_act-Recorded}
use schedulx.Tasks.{describe}
use schedulx.Tasks.Rate.{Describes, describe-Describes}
use schedulx.Poll.{poll, collect, poll_until_done}
use schedulx.Poll.Pages.{page_of, collect_complete}
use schedulx.Poll.Fuel.{Sent, poll-Enough}
use schedulx.Bridgx.{task_rate}
use schedulx.EnvOps.Deploy.{do_deploy}
use schedulx.EnvOps.Errors.{run_all, run_one, fail_with, first_of, do_deploy-run_all}
use schedulx.Shell.{connect}
use schedulx.Mount.{umount}
use schedulx.Mount.Unmounted.{umount-rows}
use schedulx.Shell.Tries.{connect-gives_up}
use schedulx.Tests.Site.{instance_of, silent}

run_group-Framed_example :
    map (frame 7) (run_group site_env (1 ∷ 2 ∷ []) request world).1.site.tasks
    ≡ map (frame 7) world.site.tasks
run_group-Framed_example = run_group-Framed site_env (1 ∷ 2 ∷ []) request world

run_group-order_example :
    Logged site_env 7 (1 ∷ 2 ∷ []) [] (run_group site_env (1 ∷ 2 ∷ []) request world)
run_group-order_example = run_group-order site_env (1 ∷ 2 ∷ []) request world

background-Closed_example :
    Closed site_env 7
      (run_group site_env (1 ∷ 3 ∷ []) request world).0
      (run_group site_env (1 ∷ 3 ∷ []) request world).1
      (background site_env 7 (1 ∷ 3 ∷ []) request world).1
background-Closed_example = background-Closed site_env 7 (1 ∷ 3 ∷ []) request world

background_deploy-Closed_example :
    ClosedDeploy site_env 7
      (run_group site_env (2 ∷ []) request world).0
      (run_group site_env (2 ∷ []) request world).1
      (background_deploy site_env 7 (2 ∷ []) request world).1
background_deploy-Closed_example = background_deploy-Closed site_env 7 (2 ∷ []) request world

abbrev opened : Outcome (Answer) × World site_env
opened =
    (create_instr_record site_env 7 0 >>= λ _. on_site (dispatch site_env request bridgx_expand))
      world

exec_act-Recorded_example :
    Recorded site_env request opened.0 opened.1 (exec_act site_env request bridgx_expand world).1
exec_act-Recorded_example = exec_act-Recorded site_env request bridgx_expand world

describe-Describes_example :
    Returned (Describes site_env svc (instance_of 1 8 svc ∷ [])) (describe site_env 8 svc site).0
describe-Describes_example = describe-Describes site_env 8 svc site

abbrev three_nodes : List InstanceInfo
three_nodes = node ∷ node ∷ node ∷ []

abbrev server_of : ℕ → Exec ℕ (ℕ × List InstanceInfo)
server_of page s = (returns (3, page_of three_nodes 2 page), suc s)

collect_complete_example : (collect server_of 2 1 [] 0).0 ≡ returns three_nodes
collect_complete_example =
    collect_complete three_nodes 2 server_of (λ page s. refl) (omega arith) (omega arith) 2 0
      (omega arith)

steady_rate : (s : Site site_env) → s.cloud ≤ (task_rate site_env 5 s).1.cloud
unfolding task_rate attempt zoom call
steady_rate s = omega arith

poll-Enough_example : Sent (poll site_env 110 3 (task_rate site_env 5) 100 3 site).0
poll-Enough_example = poll-Enough site_env 3 (task_rate site_env 5) site steady_rate (omega arith)

do_deploy-run_all_example :
    do_deploy site_env 8 "run" three_nodes none Types.deploy site
    ≡ (run_all (run_one site_env 8 "run" none Types.deploy) three_nodes >>= λ errors.
          fail_with (first_of errors))
        site
do_deploy-run_all_example = do_deploy-run_all site_env 8 "run" three_nodes none Types.deploy site

abbrev behind : Site site_env
behind = record site { instances = instance_of 1 8 Types.alb ∷ instance_of 2 9 Types.alb ∷ [] }

umount-rows_example : (umount site_env 1 2 "rsp-1" behind).1.instances ≡ behind.instances
umount-rows_example = umount-rows site_env 1 2 "rsp-1" behind (omega arith, (omega arith, tt))

connect-gives_up_example :
    ((connect silent 3 "root" "10.0.0.1" "secret" (new_error "") 100).0
      ≡ returns (err (new_error "i/o timeout")))
    × (100 + 5 * 3 ≤ (connect silent 3 "root" "10.0.0.1" "secret" (new_error "") 100).1)
connect-gives_up_example =
    connect-gives_up silent 3 "root" "10.0.0.1" "secret" (new_error "") (new_error "i/o timeout")
      100 (λ c. refl) (omega arith)

background-died_example :
    ((background site_env 7 (1 ∷ []) request world).0
      ≡ died (run_group site_env (1 ∷ []) request world).0)
    × ((background_deploy site_env 7 (1 ∷ []) request world).0
        ≡ resumed (run_group site_env (1 ∷ []) request world).0)
background-died_example = background-died site_env 7 (1 ∷ []) request world

-- An order for the cluster of the template, whose group is not JSON.
abbrev order : StartReq
order = record {
  service_cluster_id = 1;
  count = 2;
  exec_type = "manual";
  user_name = "root";
  download_file_url = "";
  rollback = false;
  task_info = "";
}

abbrev stocked : World site_env
stocked = record world { templates = template ∷ [] }

actions-Begun_example :
    Begun site_env (expansion order) order stocked (expand_action site_env order stocked)
    × Begun site_env (shrinking order) order stocked (shrink_action site_env order stocked)
    × Begun site_env (deployment order) order stocked (deploy_action site_env order stocked)
actions-Begun_example = actions-Begun site_env order stocked

-- A query whose rate stays at a half.
abbrev half_done : Exec (Site site_env) (Result String)
half_done s = (returns (ok "0.5"), s)

poll_until_done-Never_example : Returned (λ u. ⊥) (poll_until_done site_env 3 half_done site).0
poll_until_done-Never_example = poll_until_done-Never site_env 3 half_done site λ s. refl

abbrev no_params : ParamsServiceEnv
no_params = record {
  image_storage_type = "";
  image_url = "";
  service_name = "";
  port = 0;
  account = "";
  password = "";
}

singles-Reports_example :
    Gives (Reports Types.base) (base_env_init_single site_env node none)
    × Gives (Reports svc) (service_env_init_single site_env node none no_params "run")
    × Gives (Reports Types.base) (deploy_before_download_init_single site_env "run" node none)
    × Gives (Reports Types.deploy) (exec_cmd_single site_env "run" node none Types.deploy)
singles-Reports_example = singles-Reports site_env node none no_params "run" Types.deploy

of_others-do_deploy_example :
    select
      (of_others 8)
      (do_deploy site_env 8 "run" three_nodes none Types.deploy behind).1.instances
    ≡ select (of_others 8) behind.instances
of_others-do_deploy_example =
    of_others-do_deploy site_env 8 "run" three_nodes none Types.deploy behind
