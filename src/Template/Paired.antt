-- ===== src/Template/Paired.antt =====
-- `createContainerTemplate`: the two templates that it makes, whole or not at all.
use schedulx.Prelude.{
  ℕ, suc, ◌<◌, ◌≡◌, refl, sym, ◌==◌, true, false, List, [], ◌∷◌, ◌++◌, map, map_if, select, All,
  arith, some, reverse, inl,
}
use schedulx.Effect.{◌>>=◌, ok, Outcome, returns, fails, panics, crashes}
use schedulx.Effect.Ends.{Ends, Ends-bind, Ends-pure, Ends-weaken}
use schedulx.Types.{ScheduleTemplate, ServiceCluster, Instruction}
use schedulx.Db.Interface.{head_of}
use schedulx.Env.{Env}
use schedulx.Tool.Reversed.{reverse_int_slice-reverse}
use schedulx.World.{World}
use schedulx.Template.Request.{
  TmpInfo, TmplExpandReq, TmplExpandResp, tmpl_id, deploy_tmpl_id, expand_steps,
}
use schedulx.Template.Tables.{transaction, ended}
use schedulx.Template.Steps.{
  Locals, expand_tmpl, shrink_tmpl, set_group, write_groups, service_bind_bridgx_cluster, for_steps,
  no_locals,
}
use schedulx.Template.Create.{create_step, create_container_template}
use schedulx.Template.Spec.{action_of, steps_until, ids_of, actions_of, undo_all}
use schedulx.Template.Rows.{Lacking}
use schedulx.Template.Filled.{Ends-given}
use schedulx.Template.Opened.{
  Rewritten, update_group-Ends, live, map_if-append, map_if-none, All-map,
}
use schedulx.Template.Looped.{bind_cluster, Bound, bind-Ends, Opened, loop-Ends}

-- The rows after the creation of the template `t`: that of its reverse is `r`, the instructions of both
-- are `added`.
pub record Paired (e : Env) (req : TmplExpandReq) (w : World e) (t : ℕ) (w' : World e)
    : Type 0 where
  pub r : ℕ
  pub info : TmpInfo
  pub cluster : ServiceCluster
  pub added : List Instruction
  pub given : req.tmpl_info ≡ some info
  pub found :
      head_of (select (λ c. c.id == info.service_cluster_id) (e.clusters.rows w.site.clusters))
      ≡ ok cluster
  pub clusters :
      e.clusters.rows w'.site.clusters
      ≡ map_if
          (λ c. c.id == info.service_cluster_id)
          (bind_cluster info)
          (e.clusters.rows w.site.clusters)
  pub instructions :
      e.instructions.rows w'.instructions ≡ e.instructions.rows w.instructions ++ added
  pub templates :
      let expansion = expand_tmpl info cluster.service_name in
      e.templates.rows w'.templates
      ≡ e.templates.rows w.templates
        ++ set_group e (ids_of t added) r (record expansion { id = t })
          ∷ set_group e (reverse (ids_of r added)) t (record (shrink_tmpl expansion t) { id = r })
          ∷ []
  pub done : actions_of t added ≡ map action_of (steps_until req.end_step expand_steps)
  pub undone : actions_of r added ≡ undo_all (actions_of t added)

abbrev pub Answered : (e : Env) → TmplExpandReq → World e → TmplExpandResp → World e → Type 0
Answered e req w (tmpl_id t) w' = Paired e req w t w'
Answered e req w (deploy_tmpl_id t) w' = ⊥

pub live-below : (e : Env) (q : ScheduleTemplate) (n : ℕ) → q.id < n → live e n q ≡ false
live-below e q n k = ground arith

module _ (e : Env) (t r : ℕ) (g h : List ℕ) where
  -- Both groups are written to the two last rows only.
  written :
      (l : List ScheduleTemplate) (x y : ScheduleTemplate)
      → t < r
      → All (λ q. q.id < t) l
      → map_if (live e t) (set_group e g r) (
          map_if
            (live e r)
            (set_group e h t)
            (l ++ record x { id = t; is_deleted = 0 } ∷ record y { id = r; is_deleted = 0 } ∷ []))
        ≡ l
          ++ set_group e g r (record x { id = t; is_deleted = 0 })
            ∷ set_group e h t (record y { id = r; is_deleted = 0 })
            ∷ []
  written l x y k below =
      let apart : (t == r) ≡ false = ground arith in
      let apart' : (r == t) ≡ false = ground arith in
      let t_itself : (t == t) ≡ true = ground arith in
      let r_itself : (r == r) ≡ true = ground arith in
      let old = λ (n : ℕ) (f : ScheduleTemplate → ScheduleTemplate) (b : t < suc n).
        map_if-none (live e n) f l (All-map _ _ l (λ q c. live-below e q n (omega arith)) below) in
      rw
        (
          map_if-append (live e r) (set_group e h t) l,
          old r (set_group e h t) (omega arith),
          apart,
          r_itself,
          map_if-append (live e t) (set_group e g r) l,
          old t (set_group e g r) (omega arith),
          t_itself,
          apart',
        )
        refl

module _ (e : Env) (req : TmplExpandReq) where
  paired :
      {w w1 w2 w3 w4 : World e} {cluster : ServiceCluster} {v : Locals}
      → (b : Bound e req w cluster w1)
      → (o : Opened e req cluster.service_name b.info
          (map action_of (steps_until req.end_step expand_steps))
          w1
          v
          w2)
      → Rewritten e w2
          (map_if
            (live e o.ids.1)
            (set_group e (reverse v.rev_group) o.ids.0)
            (e.templates.rows w2.templates))
          w3
      → Rewritten e w3
          (map_if (live e o.ids.0) (set_group e v.group o.ids.1) (e.templates.rows w3.templates))
          w4
      → Paired e req w o.ids.0 w4
  paired {w = w} {cluster = cluster} b o c d =
      let (t, r) = o.ids in
      let expansion = expand_tmpl b.info cluster.service_name in
      record {
        r = r;
        info = b.info;
        cluster = cluster;
        added = o.grown.added;
        given = b.given;
        found = b.found;
        clusters =
            rw (d.clusters, c.clusters, o.grown.clusters, o.pair.rewritten.clusters) b.clusters;
        instructions =
            rw
              (
                d.instructions, c.instructions, o.grown.grows, o.pair.rewritten.instructions,
                b.instructions,
              )
              refl;
        templates =
            rw
              (
                d.rows, c.rows, o.grown.templates, o.pair.rewritten.rows, b.templates,
                o.grown.group, o.grown.rev_group,
              )
              (written e t r _ _ (e.templates.rows w.templates) expansion (shrink_tmpl expansion t)
                o.pair.apart (rw (sym b.templates) o.pair.above));
        done = o.grown.done;
        undone = rw o.grown.done o.grown.undone;
      }

  body-Ends :
      (w : World e)
      → Ends (Lacking req) (Answered e req w) (
          (service_bind_bridgx_cluster e req >>= λ cluster.
          for_steps e (create_step e req cluster.service_name) req.end_step expand_steps no_locals
          >>= λ v. write_groups e v)
            w)
  unfolding write_groups
  body-Ends w = Ends-bind _ _ w (Ends-weaken _ inl (bind-Ends e req w)) λ cluster w1 b.
      Ends-bind _ _ w1 (loop-Ends e req cluster.service_name b.info w1 b.given) λ v w2 o.
        Ends-given v.tmpls o.ids _ w2 o.grown.tmpls (
          Ends-bind _ _ w2 (update_group-Ends e _ _ _ w2) λ u w3 c.
            Ends-bind _ _ w3 (update_group-Ends e _ _ _ w3) λ u' w4 d.
              Ends-pure (tmpl_id o.ids.0) w4
                (paired b o (rw (reverse_int_slice-reverse v.rev_group) at c) d))

  -- What an outcome means for the tables.
  abbrev pub Created : World e → Outcome TmplExpandResp × World e → Type 0
  Created w (returns resp, w') = Answered e req w resp w'
  Created w (fails x, w') =
      (w'.templates ≡ w.templates)
      × (w'.instructions ≡ w.instructions)
      × (w'.site.clusters ≡ w.site.clusters)
  Created w (panics, w') = Lacking req
  Created w (crashes, w') = ⊥

  ended-Created :
      (w : World e) (r : Outcome TmplExpandResp × World e)
      → Ends (Lacking req) (Answered e req w) r
      → Created w (ended w r)
  ended-Created w (returns resp, w') k = k.at
  ended-Created w (fails x, w') k = (refl, refl, refl)
  ended-Created w (panics, w') k = k.at
  ended-Created w (crashes, w') k = k.at

-- The creation of a template for containers, for every end it can come to. If it answers, then with a
-- template, entered with its reverse behind the old ones, each naming the other; its group is the
-- instructions of the steps up to the last that is asked for, and the group of the reverse is the
-- instructions that undo them, in the opposite order; the cluster has the name from the request. If it
-- fails, the tables are as before. If it panics, a part of the request is missing; it does not crash.
pub create_container-Created :
    (e : Env) (req : TmplExpandReq) (w : World e)
    → Created e req w (create_container_template e req w)
unfolding create_container_template transaction
create_container-Created e req w = ended-Created e req w _ (body-Ends e req w)
