-- ===== src/Frame/Actions.antt =====
-- The rows of the tasks under the actions of service/instrsvc.go, but those of a deployment.
use schedulx.Prelude.{ℕ, List, Option, none, some, String}
use schedulx.Effect.{Exec, Result, ok, err, Outcome, returns, fails, panics, crashes}
use schedulx.Effect.Keeps.{Keeps}
use schedulx.Types.{Task, TaskStep, InstanceAuth, InstanceGroup, Instruction}
use schedulx.Env.{Env}
use schedulx.World.{Site}
use schedulx.Bridgx.{BridgxReq, BridgxResp}
use schedulx.Instr.{mark_success, mark_either, with_step, with_steps}
use schedulx.Instr.Expand
use schedulx.Instr.Shrink
use schedulx.Instr.Node
use schedulx.Frame.{Framed}
use schedulx.Frame.Parts.{site_rules, update_task_step-Framed}
use schedulx.Frame.Services.{
  bridgx-Framed, init_base-Framed, init_service-Framed, mount_inst-Framed, umount_inst-Framed,
  poll_base-Framed, poll_service-Framed,
}

module _ (e : Env) (n : ℕ) (before : List Task) where
  abbrev P : Site e → Type 0
  P = Framed e n before

  pub mark_success-Framed :
      {A : Type 0} (step : TaskStep) (o : Outcome A) → Keeps P (mark_success e n step o)
  unfolding mark_success
  mark_success-Framed step (returns a) = search (site_rules, update_task_step-Framed)
  mark_success-Framed step (fails x) = search site_rules
  mark_success-Framed step panics = search (site_rules, update_task_step-Framed)
  mark_success-Framed step crashes = search site_rules

  pub mark_either-Framed :
      {A : Type 0} (succ fail : TaskStep) (o : Outcome A) → Keeps P (mark_either e n succ fail o)
  unfolding mark_either
  mark_either-Framed succ fail (returns a) = search (site_rules, update_task_step-Framed)
  mark_either-Framed succ fail (fails x) = search (site_rules, update_task_step-Framed)
  mark_either-Framed succ fail panics = search (site_rules, update_task_step-Framed)
  mark_either-Framed succ fail crashes = search site_rules

  pub with_step-Framed :
      {A : Type 0} (init succ : TaskStep) (m : Exec (Site e) A)
      → Keeps P m
      → Keeps P (with_step e n init succ m)
  unfolding with_step
  with_step-Framed init succ m k = search (site_rules, update_task_step-Framed, mark_success-Framed)

  pub with_steps-Framed :
      {A : Type 0} (init succ fail : TaskStep) (m : Exec (Site e) A)
      → Keeps P m
      → Keeps P (with_steps e n init succ fail m)
  unfolding with_steps
  with_steps-Framed init succ fail m k =
      search (site_rules, update_task_step-Framed, mark_either-Framed)

  expand_body-Framed : (k : ℕ) (c : String) → Keeps P (Expand.expand_body e k c)
  unfolding Expand.expand_body
  expand_body-Framed k c = search (site_rules, bridgx-Framed) depth 10

  mark_expanded-Framed :
      (o : Outcome (BridgxResp × Result BridgxResp)) → Keeps P (Expand.mark_expanded e n o)
  unfolding Expand.mark_expanded
  mark_expanded-Framed (returns (r, ok l)) = search (site_rules, update_task_step-Framed)
  mark_expanded-Framed (returns (r, err x)) = search site_rules
  mark_expanded-Framed (fails x) = search site_rules
  mark_expanded-Framed panics = search (site_rules, update_task_step-Framed)
  mark_expanded-Framed crashes = search site_rules

  with_login-Framed : (a : BridgxResp × Result BridgxResp) → Keeps P (Expand.with_login e a)
  unfolding Expand.with_login
  with_login-Framed (r, ok l) = search site_rules
  with_login-Framed (r, err x) = search site_rules

  pub expand_action-Framed : (k : ℕ) (c : String) → Keeps P (Expand.bridgx_expand_action e n k c)
  unfolding Expand.bridgx_expand_action
  expand_action-Framed k c = search (
    site_rules, update_task_step-Framed, mark_expanded-Framed, expand_body-Framed,
    with_login-Framed,
  )

  fetch-Framed : (r : BridgxReq) (c : ℕ) → Keeps P (Shrink.fetch_instances e r c)
  unfolding Shrink.fetch_instances
  fetch-Framed r c = search site_rules

  shrink_fetched-Framed : (r : Result BridgxReq) → Keeps P (Shrink.shrink_fetched e r)
  unfolding Shrink.shrink_fetched
  shrink_fetched-Framed (ok r) = search (site_rules, bridgx-Framed)
  shrink_fetched-Framed (err x) = search site_rules

  shrunk-Framed : (r : Result (BridgxReq × BridgxResp)) → Keeps P (Shrink.shrunk e r)
  unfolding Shrink.shrunk
  shrunk-Framed (ok (r, b)) = search site_rules
  shrunk-Framed (err x) = search site_rules

  shrink_body-Framed : (r : BridgxReq) (c : ℕ) → Keeps P (Shrink.shrink_body e r c)
  unfolding Shrink.shrink_body
  shrink_body-Framed r c = search (site_rules, fetch-Framed, shrink_fetched-Framed)

  pub shrink_action-Framed :
      (r : Option BridgxReq) (c : ℕ) → Keeps P (Shrink.bridgx_shrink_action e n r c)
  unfolding Shrink.bridgx_shrink_action
  shrink_action-Framed none c = search (site_rules, with_step-Framed)
  shrink_action-Framed (some r) c =
      search (site_rules, with_step-Framed, shrink_body-Framed, shrunk-Framed)

  pub init_base_action-Framed :
      (g : Option InstanceGroup) (auth : Option InstanceAuth) (c : ℕ)
      → Keeps P (Node.node_act_init_base_action e n g auth c)
  unfolding Node.node_act_init_base_action
  init_base_action-Framed g auth c =
      search (site_rules, with_step-Framed, init_base-Framed, poll_base-Framed)

  pub init_svc_action-Framed :
      (g : Option InstanceGroup) (auth : Option InstanceAuth) (i : Instruction)
      → Keeps P (Node.node_act_init_svc_action e n g auth i)
  unfolding Node.node_act_init_svc_action
  init_svc_action-Framed g auth i =
      search (site_rules, with_step-Framed, init_service-Framed, poll_service-Framed) depth 7

  pub mount_action-Framed :
      (g : Option InstanceGroup) (i : Instruction)
      → Keeps P (Node.node_act_mount_inst_action e n g i)
  unfolding Node.node_act_mount_inst_action
  mount_action-Framed g i = search (site_rules, with_step-Framed, mount_inst-Framed)

  umount_counted-Framed :
      (k : Option ℕ) (c : ℕ) (i : Instruction) → Keeps P (Node.umount_counted e k c i)
  unfolding Node.umount_counted
  umount_counted-Framed none c i = search site_rules
  umount_counted-Framed (some k) c i = search (site_rules, umount_inst-Framed)

  pub umount_action-Framed :
      (k : Option ℕ) (i : Instruction) (c : ℕ)
      → Keeps P (Node.node_act_umount_inst_action e n k i c)
  unfolding Node.node_act_umount_inst_action
  umount_action-Framed k i c = search (site_rules, with_step-Framed, umount_counted-Framed)
