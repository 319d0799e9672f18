-- ===== src/Template/Filled.antt =====
-- The loop over the steps of a template.
use text.Mathlib.Text.{◌==◌ as str_eq}
use schedulx.Prelude.{
  ℕ, ◌<◌, ◌≡◌, refl, ◌∙◌, String, Bool, true, false, List, [], ◌∷◌, map, Option, none, some, inl,
  inr, All, if◌then◌else◌,
}
use schedulx.Effect.{Exec, pure, panic, call, ◌>>=◌, Result, ok, err, raise, new_error}
use schedulx.Effect.Ends.{Ends, Ends-bind, Ends-pure, Ends-raise, Ends-if, Ends-mono}
use schedulx.Env.{Env, ParamsMount, BaseEnv}
use schedulx.World.{World}
use schedulx.Schedule.Run.{not_nil}
use schedulx.Template.Request.{
  TmplExpandReq, ServiceEnv, ExpandStep, step_tmpl_info, step_base_env, step_service_env,
  step_mount, step_text,
}
use schedulx.Template.Instructions.{
  create_bridgx_expand_instr, create_bridgx_shrink_instr, create_base_env_instr, create_mount_instr,
  create_service_env_instr, create_mount_slb_instr, create_umount_slb_instr, with_reverse,
  is_alibaba_cloud_account_valid,
}
use schedulx.Template.Steps.{Locals, append_ids, add_step, later_step, for_steps}
use schedulx.Template.Spec.{action_of, steps_until}
use schedulx.Template.Added.{Grown, Grown-self, Grown-trans}
use schedulx.Template.Rows.{Lacking, create_instr-Ends, one-Grown, two-Grown}

module _ {S A B : Type 0} {N : Type 0} {Q : B → S → Type 0} where
  -- A conversion, which leaves the state alone.
  pub Ends-converted :
      (x : Result A) (f : A → Exec S B) (s : S)
      → ((a : A) → Ends N Q (f a s))
      → Ends N Q ((call (λ s. (x, s)) >>= f) s)
  unfolding call ◌>>=◌
  Ends-converted (ok a) f s k = record { at = (k a).at }
  Ends-converted (err x) f s k = record { at = tt }

  pub Ends-not_nil :
      (o : Option A) (f : A → Exec S B) (s : S)
      → (o ≡ none → N)
      → ((a : A) → o ≡ some a → Ends N Q (f a s))
      → Ends N Q ((not_nil o >>= f) s)
  unfolding not_nil panic pure ◌>>=◌
  Ends-not_nil none f s h k = record { at = h refl }
  Ends-not_nil (some a) f s h k = record { at = (k a refl).at }

  pub Ends-given :
      (o : Option A) (a : A) (f : A → Exec S B) (s : S)
      → o ≡ some a
      → Ends N Q (f a s)
      → Ends N Q ((not_nil o >>= f) s)
  unfolding not_nil pure ◌>>=◌
  Ends-given o a f s h k = rw h (record { at = k.at })

module _ (e : Env) (req : TmplExpandReq) (t r : ℕ) (differ : t < r) where
  -- What a step leaves behind for the ids that it gives.
  abbrev Step : ExpandStep → World e → Locals → ℕ × ℕ → World e → Type 0
  Step step w v ids w' = Grown e t r (action_of step ∷ []) w v w' (append_ids v ids)

  base_env-Ends :
      (o : Option BaseEnv) (v : Locals) (w : World e)
      → (o ≡ none → Lacking req)
      → Ends (Lacking req) (Step step_base_env w v) (create_base_env_instr e o t w)
  unfolding create_base_env_instr panic
  base_env-Ends none v w k = record { at = k refl }
  base_env-Ends (some args) v w k =
      Ends-bind _ _ w (create_instr-Ends e _ w)
        λ n w' p. Ends-pure _ w' (one-Grown e t r differ _ _ _ w w' v n refl p)

  service_env-Ends :
      (args : ServiceEnv) (v : Locals) (w : World e)
      → Ends (Lacking req) (Step step_service_env w v) (create_service_env_instr e args t w)
  unfolding create_service_env_instr
  service_env-Ends args v w = Ends-converted _ _ w λ pass.
      Ends-bind _ _ w (create_instr-Ends e _ w)
        λ n w' p. Ends-pure _ w' (one-Grown e t r differ _ _ _ w w' v n refl p)

  mount-Ends :
      (o : Option ParamsMount) (v : Locals) (w : World e)
      → (o ≡ none → Lacking req)
      → Ends (Lacking req) (Step step_mount w v) (create_mount_instr e o t r true w)
  unfolding create_mount_instr panic with_reverse create_umount_slb_instr
  mount-Ends none v w k = record { at = k refl }
  mount-Ends (some args) v w k = Ends-bind _ _ w (create_instr-Ends e _ w) λ n w' p.
      Ends-bind _ _ w' (create_instr-Ends e _ w')
        λ k w'' q. Ends-pure _ w'' (two-Grown e t r differ _ _ _ _ _ _ w w' w'' v n k refl p q)

  expand-Ends :
      (v : Locals) (w : World e)
      → Ends (Lacking req) (Step step_tmpl_info w v) (create_bridgx_expand_instr e t r true w)
  unfolding create_bridgx_expand_instr with_reverse create_bridgx_shrink_instr
  expand-Ends v w = Ends-bind _ _ w (create_instr-Ends e _ w) λ n w' p.
      Ends-bind _ _ w' (create_instr-Ends e _ w')
        λ k w'' q. Ends-pure _ w'' (two-Grown e t r differ _ _ _ _ _ _ w w' w'' v n k refl p q)

  pub add_step-Ends :
      (service_name : String) (step : ExpandStep) (v : Locals) (w : World e)
      → Ends (Lacking req) (Step step w v) (add_step e req service_name t r step w)
  unfolding add_step create_mount_slb_instr
  add_step-Ends name step_tmpl_info v w = expand-Ends v w
  add_step-Ends name step_base_env v w = base_env-Ends req.base_env v w λ h. inr (inl h)
  add_step-Ends name step_service_env v w =
      Ends-not_nil req.service_env _ w (λ h. inr (inr (inl h)))
        λ env h. service_env-Ends (record env { service_name = name }) v w
  add_step-Ends name step_mount v w =
      Ends-if (is_alibaba_cloud_account_valid e.account) (create_mount_instr e req.mount t r true)
        (raise (new_error "invalid AlibabaCloudAccount Config")) w
        (mount-Ends req.mount v w λ h. inr (inr (inr h))) (Ends-raise _ w)

  pub later_step-Ends :
      (service_name : String) (step : ExpandStep) (v : Locals) (w : World e)
      → v.tmpls ≡ some (t, r)
      → Ends
          (Lacking req)
          (λ v' w'. Grown e t r (action_of step ∷ []) w v w' v')
          (later_step e req service_name step v w)
  unfolding later_step
  later_step-Ends name step v w h =
      Ends-given v.tmpls (t, r) _ w h
        (Ends-bind _ _ w (add_step-Ends name step v w) λ ids w' g. Ends-pure _ w' g)

  after_break :
      {w : World e} {v : Locals} (l : List ExpandStep) (b : Bool) (step : ExpandStep)
      (rest : Exec (World e) Locals) (v' : Locals) (w' : World e)
      → Grown e t r (action_of step ∷ []) w v w' v'
      → Ends (Lacking req) (λ v'' w''. Grown e t r (map action_of l) w' v' w'' v'') (rest w')
      → Ends
          (Lacking req)
          (λ v'' w''. Grown e t r (map action_of (if b then step ∷ [] else step ∷ l)) w v w'' v'')
          ((if b then pure v' else rest) w')
  after_break l true step rest v' w' g k = Ends-pure v' w' g
  after_break l false step rest v' w' g k = Ends-mono _ (λ v'' w'' h. Grown-trans e t r g h) k

  -- A loop each of whose steps does its action and writes down what undoes it.
  pub for_steps-Ends :
      (f : ExpandStep → Locals → Exec (World e) Locals) (end_step : String)
      (steps : List ExpandStep) (v : Locals) (w : World e)
      → v.tmpls ≡ some (t, r)
      → All
          (λ step.
            (v : Locals) (w : World e)
            → v.tmpls ≡ some (t, r)
            → Ends
                (Lacking req)
                (λ v' w'. Grown e t r (action_of step ∷ []) w v w' v')
                (f step v w))
          steps
      → Ends
          (Lacking req)
          (λ v' w'. Grown e t r (map action_of (steps_until end_step steps)) w v w' v')
          (for_steps e f end_step steps v w)
  unfolding for_steps steps_until
  for_steps-Ends f end_step [] v w h k = Ends-pure v w (Grown-self e t r w v)
  for_steps-Ends f end_step (step ∷ steps) v w h (k, ks) =
      Ends-bind (f step v) _ w (k v w h) λ v' w' g.
        after_break _ (str_eq (step_text step) end_step) step _ v' w' g
          (for_steps-Ends f end_step steps v' w' (g.tmpls ∙ h) ks)
