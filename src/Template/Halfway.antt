-- ===== src/Template/Halfway.antt =====
-- `createInstanceTemplate`: the error of an instruction is committed.
use std.Path.{subst}
use schedulx.Prelude.{
  ℕ, ◌<◌, ◌≡◌, refl, sym, String, ◌==◌, true, false, List, [], ◌∷◌, ◌++◌, map_if, select, All,
  arith, Option, some, none, ◌⊎◌, inl, inr, length,
}
use schedulx.Effect.{
  pure, ◌>>=◌, Result, ok, err, Outcome, returns, fails, panics, crashes, raise, panic, continue,
}
use schedulx.Effect.Ends.{Ends, Ends-bind, Ends-pure, Ends-mono, Ends-weaken}
use schedulx.Types.{ScheduleTemplate, ServiceCluster}
use schedulx.Db.Interface.{head_of}
use schedulx.Env.{Env}
use schedulx.World.{World}
use schedulx.Template.Request.{
  TmpInfo, DeployInfo, TmplExpandReq, TmplExpandResp, tmpl_id, deploy_tmpl_id, deploy_steps,
}
use schedulx.Template.Tables.{transaction, ended, settle}
use schedulx.Template.Steps.{deploy_tmpl, set_group, create_instance_deploy_tmpl}
use schedulx.Template.Create.{fill_deploy_tmpl, instance_body, create_instance_template}
use schedulx.Template.Filled.{Ends-given}
use schedulx.Template.Opened.{
  Rewritten, Entered, create_tmpl-Ends, update_group-Ends, live, map_if-append, map_if-none,
  All-map,
}
use schedulx.Template.Paired.{live-below}
use schedulx.Template.Looped.{bind_cluster, Bound, bind-Ends}
use schedulx.Template.Deployed.{made, Rising, Laid, Made, make_instrs-Ends}

-- The rows with the template `t`, the text of its group, and the instructions of the ids `ns`.
pub record Deploying (e : Env) (req : TmplExpandReq) (w : World e) (t : ℕ) (ns : List ℕ)
    (group : String) (w' : World e) : Type 0 where
  pub info : TmpInfo
  pub deploy : DeployInfo
  pub cluster : ServiceCluster
  pub given : req.tmpl_info ≡ some info
  pub given_deploy : req.deploy_info ≡ some deploy
  pub found :
      head_of (select (λ c. c.id == info.service_cluster_id) (e.clusters.rows w.site.clusters))
      ≡ ok cluster
  pub clusters :
      e.clusters.rows w'.site.clusters
      ≡ map_if
          (λ c. c.id == info.service_cluster_id)
          (bind_cluster info)
          (e.clusters.rows w.site.clusters)
  pub instructions :
      e.instructions.rows w'.instructions
      ≡ e.instructions.rows w.instructions ++ made e deploy t deploy_steps ns
  pub rising : Rising e deploy t (e.instructions.rows w.instructions) ns
  pub templates :
      e.templates.rows w'.templates
      ≡ e.templates.rows w.templates
        ++ record (deploy_tmpl e info deploy cluster.service_name) { id = t; instr_group = group }
          ∷ []
  pub above : All (λ q. q.id < t) (e.templates.rows w.templates)

-- What the deferred function finds.
abbrev pub Body : (e : Env) → TmplExpandReq → World e → Result TmplExpandResp → World e → Type 0
Body e req w (ok (deploy_tmpl_id t)) w' =
    (ns : List ℕ) × Deploying e req w t ns (e.ids_json.encode ns) w' × (length ns ≡ 5)
Body e req w (ok (tmpl_id t)) w' = ⊥
Body e req w (err x) w' = (t : ℕ) × (ns : List ℕ) × Deploying e req w t ns "" w' × (length ns < 5)

abbrev pub LackingDeploy : TmplExpandReq → Type 0
LackingDeploy req = (req.tmpl_info ≡ none) ⊎ (req.deploy_info ≡ none)

module _ (e : Env) (req : TmplExpandReq) where
  deploying :
      {w w1 w2 w3 : World e} {cluster : ServiceCluster} {t : ℕ} (d : DeployInfo) (ns : List ℕ)
      → req.deploy_info ≡ some d
      → (b : Bound e req w cluster w1)
      → Entered e (deploy_tmpl e b.info d cluster.service_name) w1 t w2
      → Laid e d t deploy_steps w2 ns w3
      → Deploying e req w t ns "" w3
  deploying {cluster = cluster} d ns given_deploy b a l = record {
    info = b.info;
    deploy = d;
    cluster = cluster;
    given = b.given;
    given_deploy = given_deploy;
    found = b.found;
    clusters = rw (l.clusters, a.rewritten.clusters) b.clusters;
    instructions = rw (l.rows, a.rewritten.instructions, b.instructions) refl;
    rising = rw (sym b.instructions, sym a.rewritten.instructions) l.rising;
    templates = rw (l.templates, a.rewritten.rows, b.templates) refl;
    above = rw (sym b.templates) a.above;
  }

  -- The group is written to the last row only.
  grouped :
      (l : List ScheduleTemplate) (x : ScheduleTemplate) (t : ℕ) (ns : List ℕ)
      → All (λ q. q.id < t) l
      → map_if (live e t) (set_group e ns 0) (l ++ record x { id = t; is_deleted = 0 } ∷ [])
        ≡ l ++ set_group e ns 0 (record x { id = t; is_deleted = 0 }) ∷ []
  grouped l x t ns below =
      let itself : (t == t) ≡ true = ground arith in
      let old : All (λ q. live e t q ≡ false) l =
        All-map (λ q. q.id < t) _ l (λ q c. live-below e q t c) below in
      rw (map_if-append (live e t) (set_group e ns 0) l, map_if-none _ _ l old, itself) refl

  filled :
      {w w3 w4 : World e} {t : ℕ} (ns : List ℕ)
      → Deploying e req w t ns "" w3
      → Rewritten e w3 (map_if (live e t) (set_group e ns 0) (e.templates.rows w3.templates)) w4
      → Deploying e req w t ns (e.ids_json.encode ns) w4
  filled {w = w} {t = t} ns p c = record {
    info = p.info;
    deploy = p.deploy;
    cluster = p.cluster;
    given = p.given;
    given_deploy = p.given_deploy;
    found = p.found;
    clusters = rw c.clusters p.clusters;
    instructions = rw c.instructions p.instructions;
    rising = p.rising;
    templates =
        rw (c.rows, p.templates)
          (grouped (e.templates.rows w.templates)
            (deploy_tmpl e p.info p.deploy p.cluster.service_name) t ns p.above);
    above = p.above;
  }

  fill-Ends :
      {w : World e} {t : ℕ} (w2 w3 : World e) (d : DeployInfo)
      → ((ns : List ℕ) → Laid e d t deploy_steps w2 ns w3 → Deploying e req w t ns "" w3)
      → (r : Result (List ℕ)) → Made e d t deploy_steps [] w2 r w3
      → Ends (LackingDeploy req) (Body e req w) (fill_deploy_tmpl e d t r w3)
  unfolding fill_deploy_tmpl
  fill-Ends {t = t} w2 w3 d k (err x) (ns, l, h) = Ends-pure (err x) w3 (t, ns, k ns l, h)
  fill-Ends {t = t} w2 w3 d k (ok ids) (ns, l, g, h) =
      Ends-bind _ _ w3 (update_group-Ends e t ids 0 w3) λ u w4 c.
        Ends-pure (ok (deploy_tmpl_id t)) w4 (
          ns,
          filled ns (k ns l) (
              subst
                (λ i.
                  Rewritten e w3
                    (map_if (live e t) (set_group e i 0) (e.templates.rows w3.templates)) w4)
                g c),
          h,
        )

  abbrev Enters : TmpInfo → String → World e → ℕ → World e → Type 0
  Enters info name w1 t w2 =
      (d : DeployInfo) × (req.deploy_info ≡ some d) × Entered e (deploy_tmpl e info d name) w1 t w2

  enter-Ends :
      (info : TmpInfo) (name : String) (w1 : World e) (o : Option DeployInfo)
      → req.deploy_info ≡ o
      → Ends
          (LackingDeploy req)
          (Enters info name w1)
          (create_instance_deploy_tmpl e info o name w1)
  unfolding create_instance_deploy_tmpl panic
  enter-Ends info name w1 none h = record { at = inr h }
  enter-Ends info name w1 (some d) h =
      Ends-mono _ (λ t w2 a. (d, h, a)) (create_tmpl-Ends e (deploy_tmpl e info d name) w1)

  pub instance_body-Ends :
      (w : World e) → Ends (LackingDeploy req) (Body e req w) (instance_body e req w)
  unfolding instance_body
  instance_body-Ends w = Ends-bind _ _ w (Ends-weaken _ inl (bind-Ends e req w)) λ cluster w1 b.
      Ends-given req.tmpl_info b.info _ w1 b.given (
        Ends-bind _ _ w1 (enter-Ends b.info cluster.service_name w1 req.deploy_info refl)
          λ t w2 (d, h, a). Ends-given req.deploy_info d _ w2 h (
            Ends-bind _ _ w2 (make_instrs-Ends e d t deploy_steps [] w2)
              λ r w3 m. fill-Ends w2 w3 d (λ ns l. deploying d ns h b a l) r m))

  -- What an outcome means for the tables.
  abbrev pub Settled : World e → Outcome TmplExpandResp × World e → Type 0
  Settled w (returns resp, w') = Body e req w (ok resp) w'
  Settled w (fails x, w') =
      ((w'.templates ≡ w.templates)
        × (w'.instructions ≡ w.instructions)
        × (w'.site.clusters ≡ w.site.clusters))
      ⊎ Body e req w (err x) w'
  Settled w (panics, w') = LackingDeploy req
  Settled w (crashes, w') = ⊥

  settled :
      (w : World e) (r : Outcome (Result TmplExpandResp) × World e)
      → Ends (LackingDeploy req) (Body e req w) r
      → Settled w (let (o, w') = ended w r in continue o settle w')
  unfolding settle pure raise
  settled w (returns (ok resp), w') k = k.at
  settled w (returns (err x), w') k = inr k.at
  settled w (fails x, w') k = inl (refl, refl, refl)
  settled w (panics, w') k = k.at
  settled w (crashes, w') k = k.at

-- The creation of a template for instances, for every end it can come to. If it answers, then with a
-- template entered behind the old ones, whose group is the five new instructions of a deployment, in
-- order; the cluster has the name from the request. If it fails, the tables are as before, or an
-- instruction has failed, and then the template stays, without a group, and so do the instructions
-- before the one that failed. If it panics, the request has no template or no deployment; it does not
-- crash.
pub create_instance-Settled :
    (e : Env) (req : TmplExpandReq) (w : World e)
    → Settled e req w (create_instance_template e req w)
unfolding create_instance_template transaction ◌>>=◌
create_instance-Settled e req w =
    settled e req w (instance_body e req w) (instance_body-Ends e req w)
