-- ===== src/Repo/Founded.antt =====
-- `CreateService` of service/service.go, and the deletion of services in repository/servicerepo.go:
-- whole or not at all.
use std.Path.{subst}
use schedulx.Prelude.{
  ℕ, ◌<◌, ◌==◌, ◌&&◌, Bool, List, [], ◌∷◌, ◌++◌, map_if, All, ◌≡◌, refl, sym, ◌∙◌, if◌then◌else◌,
  arith, ap, Option, none, some,
}
use schedulx.Effect.{Outcome, returns, fails, panics, crashes, raise, panic}
use schedulx.Effect.Ends.{
  Ends, Ends-bind, Ends-pure, Ends-raise, Ends-if, Ends-statement, Ends-zoom, Ends-mono,
}
use schedulx.Types.{Service, ServiceCluster}
use schedulx.Db
use schedulx.Db.Interface.{Inserted, Updated}
use schedulx.Env.{Env}
use schedulx.World.{World, on_site, on_clusters, on_services}
use schedulx.Repo.Tasks.{id_in}
use schedulx.Repo.Services.{
  ServiceInfo, new_service, default_cluster, create_service, delete_service, delete_each,
  delete_services,
}
use schedulx.Template.Tables.{transaction, ended}

module _ (e : Env) where
  -- The service and its cluster, with ids above those of before.
  pub record Founded (info : ServiceInfo) (w : World e) (n : ℕ) (w' : World e) : Type 0 where
    pub id : ℕ
    pub services :
        e.services.rows w'.services
        ≡ e.services.rows w.services
          ++ record {
            id = id;
            service_name = info.service_name;
            description = info.description;
            language = info.language;
            domain = info.domain;
            port = info.port;
            git_repo = info.git_repo;
            is_deleted = 0;
          }
            ∷ []
    pub clusters :
        e.clusters.rows w'.site.clusters
        ≡ e.clusters.rows w.site.clusters
          ++ record {
            id = n;
            service_name = info.service_name;
            cluster_name = "default";
            bridgx_cluster = "";
            auto_decision = "";
          }
            ∷ []
    pub fresh : All (λ c. c.id < n) (e.clusters.rows w.site.clusters)
    pub positive : 0 < n

  service-Ends :
      (r : Service) (w : World e)
      → Ends ⊥
          (λ n w'.
            (e.services.rows w'.services ≡ e.services.rows w.services ++ record r { id = n } ∷ [])
            × (w'.site ≡ w.site))
          (on_services (Db.create e.services r) w)
  unfolding Db.create
  service-Ends r w = Ends-statement _ _ _ w λ n h. (
    (subst
        (λ q.
          Inserted (λ (r : Service). r.id) (λ n r. record r { id = n }) (e.services.rows w.services)
            r q (e.services.rows (e.services.insert r w.services).1))
        h (e.services.insert_law r w.services)).0,
    refl,
  )

  cluster-Ends :
      (r : ServiceCluster) (w : World e)
      → Ends ⊥
          (λ n w'.
            (e.clusters.rows w'.site.clusters
              ≡ e.clusters.rows w.site.clusters ++ record r { id = n } ∷ [])
            × (0 < n)
            × All (λ c. c.id < n) (e.clusters.rows w.site.clusters)
            × (w'.services ≡ w.services))
          (on_site (on_clusters (Db.create e.clusters r)) w)
  unfolding Db.create
  cluster-Ends r w = Ends-zoom _ _ _ w (
      Ends-statement _ _ _ w.site λ n h.
        let law =
          subst
            (λ q.
              Inserted (λ (r : ServiceCluster). r.id) (λ n r. record r { id = n })
                (e.clusters.rows w.site.clusters) r q
                (e.clusters.rows (e.clusters.insert r w.site.clusters).1))
            h (e.clusters.insert_law r w.site.clusters) in
        (law.0, law.1, law.2, refl))

  -- What an outcome of a transaction means for the services and clusters.
  abbrev pub Whole : {A : Type 0} → (A → World e → Type 0) → World e → Outcome A × World e → Type 0
  Whole Q w (returns a, w') = Q a w'
  Whole Q w (fails x, w') = (w'.services ≡ w.services) × (w'.site.clusters ≡ w.site.clusters)
  Whole Q w (panics, w') = ⊥
  Whole Q w (crashes, w') = ⊥

  ended-Whole :
      {A : Type 0} (Q : A → World e → Type 0) (w : World e) (r : Outcome A × World e)
      → Ends ⊥ Q r
      → Whole Q w (ended w r)
  ended-Whole Q w (returns a, w') k = k.at
  ended-Whole Q w (fails x, w') k = (refl, refl)
  ended-Whole Q w (panics, w') k = k.at
  ended-Whole Q w (crashes, w') k = k.at

-- What a request for a service does, a missing one included.
abbrev pub FoundedOr : (e : Env) → Option ServiceInfo → World e → Outcome ℕ × World e → Type 0
FoundedOr e none w r = r ≡ (panics, w)
FoundedOr e (some info) w r = Whole e (Founded e info w) w r

-- `CreateService` enters the service and a cluster named "default" behind the old rows, and answers with
-- the id of the cluster, which no other has; or it fails and changes neither table. It panics where the
-- request has no service, with the world as it was, and never else.
pub create_service-Whole :
    (e : Env) (request : Option ServiceInfo) (w : World e)
    → FoundedOr e request w (create_service e request w)
unfolding create_service transaction panic
create_service-Whole e none w = refl
create_service-Whole e (some info) w = ended-Whole e (Founded e info w) w _ (
    Ends-bind _ _ w (service-Ends e (new_service info) w) λ n w1 (a, s).
      Ends-mono _
        (λ k w2 (c, p, f, same). record {
          id = n;
          services = rw (same, a) refl;
          clusters = rw (c, s) refl;
          fresh = rw (sym s) f;
          positive = p;
        })
        (cluster-Ends e (default_cluster info.service_name) w1))

module _ (e : Env) where
  abbrev mark : Service → Service
  mark r = record r { is_deleted = 1 }

  abbrev among : List ℕ → Service → Bool
  among ids r = id_in ids r.id && r.is_deleted == 0

  twice_marked :
      (n : ℕ) (ids : List ℕ) (r : Service)
      → (let q = if r.id == n && r.is_deleted == 0 then mark r else r in
          if among ids q then mark q else q)
        ≡ (if among (n ∷ ids) r then mark r else r)
  twice_marked n ids r = ground arith

  marked-cons :
      (n : ℕ) (ids : List ℕ) (l : List Service)
      → map_if (among ids) mark (map_if (λ r. r.id == n && r.is_deleted == 0) mark l)
        ≡ map_if (among (n ∷ ids)) mark l
  marked-cons n ids [] = refl
  marked-cons n ids (r ∷ l) = rw (twice_marked n ids r, marked-cons n ids l) refl

  marked-nil : (l : List Service) → l ≡ map_if (among []) mark l
  marked-nil [] = refl
  marked-nil (r ∷ l) = ap (λ k. r ∷ k) (marked-nil l)

  pub record Dismissed (ids : List ℕ) (w w' : World e) : Type 0 where
    pub services :
        e.services.rows w'.services ≡ map_if (among ids) mark (e.services.rows w.services)
    pub site : w'.site ≡ w.site

  one-Ends :
      (n : ℕ) (w : World e)
      → Ends ⊥
          (λ k w'.
            (e.services.rows w'.services
              ≡ map_if (λ r. r.id == n && r.is_deleted == 0) mark (e.services.rows w.services))
            × (w'.site ≡ w.site))
          (delete_service e n w)
  unfolding delete_service Db.updates
  one-Ends n w =
      let p = λ (r : Service). r.id == n && r.is_deleted == 0 in
      Ends-if (n == 0) (raise _) _ w (Ends-raise _ w) (
        Ends-statement _ _ _ w λ k h. (
          (subst
              (λ q.
                Updated (e.services.rows w.services) p mark q
                  (e.services.rows (e.services.update p mark w.services).1))
              h (e.services.update_law p mark w.services)).0,
          refl,
        ))

  each-Ends : (ids : List ℕ) (w : World e) → Ends ⊥ (λ u. Dismissed ids w) (delete_each e ids w)
  unfolding delete_each
  each-Ends [] w = Ends-pure tt w (record { services = marked-nil _; site = refl })
  each-Ends (n ∷ ids) w = Ends-bind _ _ w (one-Ends n w) λ k w1 (a, s).
      Ends-mono _
        (λ u w2 d. record {
          services = rw (d.services, a) (marked-cons n ids (e.services.rows w.services));
          site = d.site ∙ s;
        })
        (each-Ends ids w1)

-- Deleting services deletes, softly, those whose id is in the list and nothing else, or fails and changes
-- neither table. It does not panic.
pub delete_services-Whole :
    (e : Env) (ids : List ℕ) (w : World e)
    → Whole e (λ u. Dismissed e ids w) w (delete_services e ids w)
unfolding delete_services transaction
delete_services-Whole e ids w = ended-Whole e (λ u. Dismissed e ids w) w _ (each-Ends e ids w)
