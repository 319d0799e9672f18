-- ===== src/EnvOps/Errors.antt =====
-- The shared error of the goroutines that `doDeploy` of service/envsvc.go waits for.
use schedulx.EnvOps.Jobs.{call_back_svc}
use schedulx.EnvOps.Verdict.{exec_cmd_single}
use schedulx.Prelude.{ℕ, ◌≡◌, refl, ap, ◌∙◌, String, List, [], ◌∷◌, Option, none, some}
use schedulx.Effect.{
  Error, Exec, Outcome, returns, fails, panics, crashes, continue, pure, ◌>>=◌, gets, raise,
}
use schedulx.Types.{InstanceInfo, InstanceAuth, InstanceStatus}
use schedulx.Env.{Env}
use schedulx.World.{Site, on_cloud}
use schedulx.EnvOps.Deploy.{first_error, deploy_each, exec_cmd_with_update, do_deploy, return_error}

-- The outcome of a step whose first error is given.
abbrev pub fail_with : {S : Type 0} → Option Error → Exec S (Unit {0})
fail_with none = pure tt
fail_with (some x) = raise x

-- The command runs on an instance, its callback is told of the verdict, and the error is that which the
-- command's goroutine returns.
abbrev pub run_one :
    (e : Env)
    → ℕ
    → String
    → Option InstanceAuth
    → InstanceStatus
    → InstanceInfo
    → Exec (Site e) (Option Error)
run_one e task_id cmd auth st inst = on_cloud (exec_cmd_single e cmd inst auth st) >>= λ v.
    call_back_svc e task_id inst v >>= λ _. pure v.returned

-- The first error of a list.
abbrev pub first_of : List (Option Error) → Option Error
first_of [] = none
first_of (none ∷ l) = first_of l
first_of (some x ∷ l) = some x

module _ {A : Type 0} {S : Type 0} where
  -- A step for every element, whatever the steps before it have given.
  abbrev pub run_all : {B : Type 0} → (A → Exec S B) → List A → Exec S (List B)
  run_all f [] = pure []
  run_all f (x ∷ l) = f x >>= λ b. run_all f l >>= λ bs. pure (b ∷ bs)

first_assoc :
    (shared x : Option Error) (l : List (Option Error))
    → first_error (first_error shared x) (first_of l) ≡ first_error shared (first_of (x ∷ l))
unfolding first_error
first_assoc none none l = refl
first_assoc none (some y) l = refl
first_assoc (some z) x l = refl

module _ (e : Env) (task_id : ℕ) (cmd : String) (auth : Option InstanceAuth)
    (st : InstanceStatus) where
  abbrev answer : Option Error → List (Option Error) → Exec (Site e) (Option Error)
  answer shared errors = pure (first_error shared (first_of errors))

  abbrev runs : List InstanceInfo → Exec (Site e) (List (Option Error))
  runs = run_all (run_one e task_id cmd auth st)

  regroup :
      (shared x : Option Error) (o : Outcome (List (Option Error))) (s : Site e)
      → continue o (answer (first_error shared x)) s
        ≡ (let (o', s') = continue o (λ l. pure (x ∷ l)) s in continue o' (answer shared) s')
  unfolding pure
  regroup shared x (returns l) s = ap (λ r. (returns r, s)) (first_assoc shared x l)
  regroup shared x (fails y) s = refl
  regroup shared x panics s = refl
  regroup shared x crashes s = refl

  next_each :
      (l : List InstanceInfo) (shared : Option Error) (o : Outcome (Option Error)) (s : Site e)
      → ((shared : Option Error) (s : Site e)
          → deploy_each e task_id cmd auth st l shared s ≡ (runs l >>= answer shared) s)
      → continue o (λ x. deploy_each e task_id cmd auth st l (first_error shared x)) s ≡ (
          let (o', s') = continue o (λ x. runs l >>= λ xs. pure (x ∷ xs)) s in
          continue o' (answer shared) s')
  unfolding ◌>>=◌
  next_each l shared (returns x) s ih =
      ih (first_error shared x) s ∙ regroup shared x (runs l s).0 (runs l s).1
  next_each l shared (fails y) s ih = refl
  next_each l shared panics s ih = refl
  next_each l shared crashes s ih = refl

  each :
      (l : List InstanceInfo) (shared : Option Error) (s : Site e)
      → deploy_each e task_id cmd auth st l shared s ≡ (runs l >>= answer shared) s
  unfolding deploy_each exec_cmd_with_update ◌>>=◌ first_error
  each [] none s = refl
  each [] (some x) s = refl
  each (i ∷ l) shared s =
      let (o, s') = run_one e task_id cmd auth st i s in next_each l shared o s' (each l)

-- The goroutines with their shared error are a run of all of them, in the order in which they take
-- their turns, whose answer is the first error of the run: a failure keeps no other from running.
pub deploy_each-first_of :
    (e : Env) (task_id : ℕ) (cmd : String) (auth : Option InstanceAuth) (st : InstanceStatus)
    (l : List InstanceInfo) (s : Site e)
    → deploy_each e task_id cmd auth st l none s
      ≡ (run_all (run_one e task_id cmd auth st) l >>= λ errors. pure (first_of errors)) s
unfolding first_error
deploy_each-first_of e task_id cmd auth st l s = each e task_id cmd auth st l none s

settled :
    {S : Type 0} (o : Outcome (List (Option Error))) (s : S)
    → (let (o', s') = continue o (λ errors. pure (first_of errors)) s in continue o' fail_with s')
      ≡ continue o (λ errors. fail_with (first_of errors)) s
unfolding pure
settled (returns errors) s = refl
settled (fails x) s = refl
settled panics s = refl
settled crashes s = refl

-- A step of a deployment runs the command on every instance, in the order in which the goroutines take
-- their turns, and tells the callback of each; it fails with the first error that the commands return, or
-- returns where there is none.
pub do_deploy-run_all :
    (e : Env) (task_id : ℕ) (cmd : String) (l : List InstanceInfo) (auth : Option InstanceAuth)
    (st : InstanceStatus) (s : Site e)
    → do_deploy e task_id cmd l auth st s
      ≡ (run_all (run_one e task_id cmd auth st) (e.remote.arranged l s.cloud) >>= λ errors.
            fail_with (first_of errors))
          s
unfolding do_deploy return_error ◌>>=◌ gets
do_deploy-run_all e task_id cmd l auth st s =
    let order = e.remote.arranged l s.cloud in
    let (o, s') = run_all (run_one e task_id cmd auth st) order s in
    ap (λ (r : Outcome (Option Error) × Site e). continue r.0 fail_with r.1)
      (deploy_each-first_of e task_id cmd auth st order s)
    ∙ settled o s'
