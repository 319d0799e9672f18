-- ===== src/Repo/Deleted.antt =====
-- `Delete` of repository/scheduletemplaterepo.go: what is gone after it.
use schedulx.Prelude.{ℕ, ◌==◌, ◌&&◌, Bool, List, [], ◌∷◌, ◌++◌, map, map_if, select, ◌≡◌, ◌⊎◌}
use schedulx.Effect.{Result, Outcome, returns, fails, panics, crashes}
use schedulx.Effect.Ends.{Ends}
use schedulx.Types.{ScheduleTemplate}
use schedulx.Db
use schedulx.Env.{Env}
use schedulx.World.{World}
use schedulx.Repo.Tasks.{id_in}
use schedulx.Repo.Templates.{or_none, mark_tmpl, clear_cluster, gets_cond}

module _ (e : Env) where
  abbrev listed : List ℕ → ScheduleTemplate → Bool
  listed ids r = id_in ids r.id && r.is_deleted == 0

  -- The templates of the ids that are not deleted, or where there is no id, all that are not deleted.
  abbrev queried : List ℕ → ScheduleTemplate → Bool
  queried [] r = r.is_deleted == 0
  queried (n ∷ ids) r = listed (n ∷ ids) r

  -- The rows after the deletion of `ids`, where the first query gave the templates `found`.
  pub record Gone (ids : List ℕ) (found : List ScheduleTemplate) (w w' : World e) : Type 0 where
    pub templates :
        e.templates.rows w'.templates
        ≡ map_if
            (listed (ids ++ map (λ r. r.reverse_sched_tmpl_id) found))
            (mark_tmpl e)
            (e.templates.rows w.templates)
    pub clusters :
        e.clusters.rows w'.site.clusters
        ≡ map_if
            (λ c. id_in (map (λ r. r.service_cluster_id) found) c.id)
            (clear_cluster e)
            (e.clusters.rows w.site.clusters)
    pub instructions : w'.instructions ≡ w.instructions

  abbrev asked : List ℕ → ScheduleTemplate → Bool
  asked ids r = gets_cond e ids r.id && r.is_deleted == 0

  -- The query, whether it failed or not.
  record Asked (ids : List ℕ) (w : World e) (r : Result (List ScheduleTemplate)) (w' : World e)
      : Type 0 where
    answer : (or_none r ≡ select (queried ids) (e.templates.rows w.templates)) ⊎ (or_none r ≡ [])
    templates : e.templates.rows w'.templates ≡ e.templates.rows w.templates
    site : w'.site ≡ w.site
    instructions : w'.instructions ≡ w.instructions

  -- What an outcome means for the tables.
  abbrev pub Deleted : List ℕ → World e → Outcome ℕ × World e → Type 0
  Deleted ids w (returns n, w') =
      (found : List ScheduleTemplate) × ((found
          ≡ select (queried ids) (e.templates.rows w.templates))
        ⊎ (found ≡ []))
      × Gone ids found w w'
  Deleted ids w (fails x, w') =
      (e.templates.rows w'.templates ≡ e.templates.rows w.templates)
      × (w'.instructions ≡ w.instructions)
      × (w'.site.clusters ≡ w.site.clusters)
  Deleted ids w (panics, w') = ⊥
  Deleted ids w (crashes, w') = ⊥
