-- ===== src/Template/Looped.antt =====
-- The cluster that `createContainerTemplate` binds, and its loop over the steps.
use std.Path.{subst}
use text.Mathlib.Text.{◌==◌ as str_eq}
use schedulx.Prelude.{
  ℕ, ◌≡◌, refl, ap, ◌∙◌, String, ◌==◌, Bool, true, false, List, [], ◌∷◌, map, map_if, select,
  if◌then◌else◌, some, none,
}
use schedulx.Effect.{Exec, pure, ok}
use schedulx.Effect.Ends.{Ends-zoom, Ends, Ends-bind, Ends-pure, Ends-statement, Ends-mono}
use schedulx.Types.{ServiceCluster, Action, bridgx_expand}
use schedulx.Db
use schedulx.Db.Interface.{Read, Updated, head_of}
use schedulx.Env.{Env}
use schedulx.World.{World, on_site, on_clusters}
use schedulx.Template.Request.{
  TmpInfo, TmplExpandReq, ExpandStep, expand_steps, step_tmpl_info, step_text, step_base_env,
  step_service_env, step_mount,
}
use schedulx.Template.Steps.{Locals, no_locals, service_bind_bridgx_cluster, for_steps}
use schedulx.Template.Create.{create_step}
use schedulx.Template.Spec.{action_of, steps_until}
use schedulx.Template.Added.{Grown, Grown-trans}
use schedulx.Template.Rows.{Lacking}
use schedulx.Template.Filled.{Ends-not_nil, Ends-given, later_step-Ends, for_steps-Ends}
use schedulx.Template.Opened.{Pair, create_expand_tmpl-Ends}

abbrev pub bind_cluster : TmpInfo → ServiceCluster → ServiceCluster
bind_cluster info r = record r { bridgx_cluster = info.bridgx_clusname }

module _ (e : Env) (req : TmplExpandReq) where
  -- The cluster of the request is found, and its name in BridgX is written.
  pub record Bound (w : World e) (cluster : ServiceCluster) (w' : World e) : Type 0 where
    pub info : TmpInfo
    pub given : req.tmpl_info ≡ some info
    pub found :
        head_of (select (λ r. r.id == info.service_cluster_id) (e.clusters.rows w.site.clusters))
        ≡ ok cluster
    pub clusters :
        e.clusters.rows w'.site.clusters
        ≡ map_if
            (λ r. r.id == info.service_cluster_id)
            (bind_cluster info)
            (e.clusters.rows w.site.clusters)
    pub templates : w'.templates ≡ w.templates
    pub instructions : w'.instructions ≡ w.instructions

  -- What a statement on the clusters leaves of the rest.
  pub record Touched (w : World e) (rows : List ServiceCluster) (w' : World e) : Type 0 where
    pub clusters : e.clusters.rows w'.site.clusters ≡ rows
    pub templates : w'.templates ≡ w.templates
    pub instructions : w'.instructions ≡ w.instructions

  get_cluster-Ends :
      (n : ℕ) (w : World e)
      → Ends
          (req.tmpl_info ≡ none)
          (λ cluster w'.
            (head_of (select (λ r. r.id == n) (e.clusters.rows w.site.clusters)) ≡ ok cluster)
            × Touched w (e.clusters.rows w.site.clusters) w')
          (on_site (on_clusters (Db.get e.clusters n)) w)
  unfolding Db.get
  get_cluster-Ends n w = Ends-zoom _ _ _ w (
      Ends-statement _ _ _ w.site λ cluster h.
        let law = e.clusters.first_law (λ r. r.id == n) w.site.clusters in
        (
          subst (Read (head_of (select (λ r. r.id == n) (e.clusters.rows w.site.clusters)))) h
              law.0,
          record { clusters = law.1; templates = refl; instructions = refl },
        ))

  bind_name-Ends :
      (info : TmpInfo) (w : World e)
      → Ends
          (req.tmpl_info ≡ none)
          (λ n. Touched w (
            map_if
              (λ r. r.id == info.service_cluster_id)
              (bind_cluster info)
              (e.clusters.rows w.site.clusters)))
          (on_site
            (on_clusters (Db.updates_by_id e.clusters info.service_cluster_id (bind_cluster info)))
            w)
  unfolding Db.updates_by_id
  bind_name-Ends info w = Ends-zoom _ _ _ w (
      Ends-statement _ _ _ w.site λ n h.
        let p = λ (r : ServiceCluster). r.id == info.service_cluster_id in
        let law =
          subst
            (λ q.
              Updated (e.clusters.rows w.site.clusters) p (bind_cluster info) q
                (e.clusters.rows (e.clusters.update p (bind_cluster info) w.site.clusters).1))
            h (e.clusters.update_law p (bind_cluster info) w.site.clusters) in
        record { clusters = law.0; templates = refl; instructions = refl })

  pub bind-Ends :
      (w : World e) → Ends (req.tmpl_info ≡ none) (Bound w) (service_bind_bridgx_cluster e req w)
  unfolding service_bind_bridgx_cluster
  bind-Ends w =
      Ends-not_nil req.tmpl_info _ w (λ h. h)
        λ info given.
          Ends-bind _ _ w (get_cluster-Ends info.service_cluster_id w) λ cluster w' (found, a).
            Ends-bind _ _ w' (bind_name-Ends info w') λ u w'' b. Ends-pure cluster w'' (record {
              info = info;
              given = given;
              found = found;
              clusters =
                  b.clusters
                  ∙ ap (map_if (λ r. r.id == info.service_cluster_id) (bind_cluster info))
                      a.clusters;
              templates = b.templates ∙ a.templates;
              instructions = b.instructions ∙ a.instructions;
            })

  -- The two templates are entered, and the steps so far have filled their groups.
  pub record Opened (name : String) (info : TmpInfo) (acts : List Action) (w : World e) (v : Locals)
      (w' : World e) : Type 0 where
    pub ids : ℕ × ℕ
    pub middle : World e
    pub pair : Pair e info name w ids middle
    pub grown : Grown e ids.0 ids.1 acts middle (record no_locals { tmpls = some ids }) w' v

  first_step-Ends :
      (name : String) (info : TmpInfo) (w : World e)
      → req.tmpl_info ≡ some info
      → Ends
          (Lacking req)
          (Opened name info (bridgx_expand ∷ []) w)
          (create_step e req name step_tmpl_info no_locals w)
  unfolding create_step
  first_step-Ends name info w given = Ends-given req.tmpl_info info _ w given (
      Ends-bind _ _ w (create_expand_tmpl-Ends e info name w) λ ids w' p.
        Ends-mono _ (λ v w'' g. record { ids = ids; middle = w'; pair = p; grown = g })
          (later_step-Ends e req ids.0 ids.1 p.apart name step_tmpl_info _ w' refl))

  after_first :
      {name : String} {info : TmpInfo} {w : World e} (steps : List ExpandStep) (b : Bool)
      (rest : Exec (World e) Locals) (v : Locals) (w' : World e)
      → (o : Opened name info (bridgx_expand ∷ []) w v w')
      → Ends
          (Lacking req)
          (λ v' w''. Grown e o.ids.0 o.ids.1 (map action_of steps) w' v w'' v')
          (rest w')
      → Ends
          (Lacking req)
          (Opened name info
            (map action_of (if b then step_tmpl_info ∷ [] else step_tmpl_info ∷ steps))
            w)
          ((if b then pure v else rest) w')
  after_first steps true rest v w' o k = Ends-pure v w' o
  after_first steps false rest v w' o k =
      Ends-mono {P = λ v' w''. Grown e o.ids.0 o.ids.1 (map action_of steps) w' v w'' v'} (rest w')
        (λ v' w'' g. record {
          ids = o.ids;
          middle = o.middle;
          pair = o.pair;
          grown = Grown-trans e o.ids.0 o.ids.1 o.grown g;
        })
        k

  pub loop-Ends :
      (name : String) (info : TmpInfo) (w : World e)
      → req.tmpl_info ≡ some info
      → Ends
          (Lacking req)
          (Opened name info (map action_of (steps_until req.end_step expand_steps)) w)
          (for_steps e (create_step e req name) req.end_step expand_steps no_locals w)
  unfolding for_steps steps_until create_step
  loop-Ends name info w given = Ends-bind _ _ w (first_step-Ends name info w given) λ v w' o.
      let (t, r) = o.ids in
      let later = λ (step : ExpandStep) (v : Locals) (w : World e).
        later_step-Ends e req t r o.pair.apart name step v w in
      after_first _ (str_eq (step_text step_tmpl_info) req.end_step) _ v w' o (
        for_steps-Ends e req t r o.pair.apart (create_step e req name) req.end_step
          (step_base_env ∷ step_service_env ∷ step_mount ∷ []) v w' o.grown.tmpls
          (later step_base_env, (later step_service_env, (later step_mount, tt))))
