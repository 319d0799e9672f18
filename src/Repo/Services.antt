-- ===== src/Repo/Services.antt =====
-- repository/servicerepo.go, and `CreateService` of service/service.go.
use text.Mathlib.Text.{◌==◌ as str_eq}
use schedulx.Prelude.{
  ℕ, ◌==◌, ◌&&◌, ◌||◌, ltb, String, Bool, if◌then◌else◌, List, [], ◌∷◌, Option, none, some,
}
use schedulx.Effect.{new_error, raise, Exec, pure, ◌>>=◌, ◌>>◌, panic}
use schedulx.Types.{Service, ServiceCluster}
use schedulx.Db
use schedulx.Env.{Env}
use schedulx.World.{World, on_site, on_clusters, on_templates, on_services}
use schedulx.Template.Tables.{transaction}

-- `ServiceInfo` of the request of `CreateService`
pub record ServiceInfo : Type 0 where
  pub service_name : String
  pub description : String
  pub language : String
  pub domain : String
  pub port : String
  pub git_repo : String

-- `ServiceDetailLogic`
pub record ServiceDetail : Type 0 where
  pub service_name : String
  pub domain : String
  pub port : String
  pub git_repo : String
  pub service_cluster_id : ℕ
  pub service_cluster_name : String
  pub description : String
  pub tmpl_expand_name : String
  pub tmpl_expand_id : ℕ

-- A text that is written only where it is not empty.
abbrev pub unless_empty : String → String → String
unless_empty new old = if str_eq new "" then old else new

abbrev pub new_service : ServiceInfo → Service
new_service info = record {
  id = 0;
  service_name = info.service_name;
  description = info.description;
  language = info.language;
  domain = info.domain;
  port = info.port;
  git_repo = info.git_repo;
  is_deleted = 0;
}

abbrev pub default_cluster : String → ServiceCluster
default_cluster service_name = record {
  id = 0;
  service_name = service_name;
  cluster_name = "default";
  bridgx_cluster = "";
  auto_decision = "";
}

module _ (e : Env) where
  abbrev named : String → Service → Bool
  named service_name r = str_eq r.service_name service_name && r.is_deleted == 0

  unfoldable pub get_service : String → Exec (World e) Service
  get_service service_name = on_services (Db.query_first e.services (named service_name))

  unfoldable pub get_service_cluster : ℕ → Exec (World e) ServiceCluster
  get_service_cluster n = on_site (on_clusters (Db.get e.clusters n))

  -- gorm refuses a deletion without a condition, which the id 0 is.
  unfoldable pub delete_service : ℕ → Exec (World e) ℕ
  delete_service n =
      if n == 0
      then raise (new_error "WHERE conditions required")
      else on_services (
          Db.updates e.services (λ r. r.id == n && r.is_deleted == 0)
            (λ r. record r { is_deleted = 1 }))

  -- The first deletion that fails ends the loop.
  unfoldable pub delete_each : List ℕ → Exec (World e) (Unit {0})
  unfolding delete_service
  delete_each [] = pure tt
  delete_each (n ∷ ids) = delete_service n >> delete_each ids

  unfoldable pub delete_services : List ℕ → Exec (World e) (Unit {0})
  unfolding transaction delete_each
  delete_services ids = transaction (delete_each ids)

  -- The name of the cluster is a condition where it is not empty.
  abbrev pub cluster_of : String → String → ServiceCluster → Bool
  cluster_of service_name cluster_name r =
      str_eq r.service_name service_name
      && (str_eq cluster_name "" || str_eq r.cluster_name cluster_name)

  unfoldable pub get_service_clusters : String → String → Exec (World e) (List ServiceCluster)
  get_service_clusters service_name cluster_name =
      on_site (on_clusters (Db.query_all e.clusters (cluster_of service_name cluster_name)))

  unfoldable pub with_tmpl : String → ServiceDetail → ServiceCluster → Exec (World e) ServiceDetail
  with_tmpl service_name detail cluster =
      if ltb 0 cluster.id
      then (on_templates (
            Db.query_first e.templates (λ r.
              r.service_cluster_id == cluster.id
              && str_eq r.service_name service_name
              && r.is_deleted == 0))
          >>= λ tmpl.
              pure (record detail { tmpl_expand_id = tmpl.id; tmpl_expand_name = tmpl.tmpl_name }))
      else pure detail

  unfoldable pub with_cluster : String → ServiceDetail → Exec (World e) ServiceDetail
  unfolding with_tmpl
  with_cluster service_name detail = do
    cluster ←
        on_site (on_clusters (Db.query_first e.clusters (λ r. str_eq r.service_name service_name)))
    d ← with_tmpl service_name detail cluster
    pure (record d { service_cluster_name = cluster.cluster_name; service_cluster_id = cluster.id })

  unfoldable pub get_service_detail : String → Exec (World e) ServiceDetail
  unfolding get_service with_cluster
  get_service_detail service_name = do
    service ← get_service service_name
    let detail : ServiceDetail = record {
      service_name = service.service_name;
      domain = service.domain;
      port = service.port;
      git_repo = service.git_repo;
      service_cluster_id = 0;
      service_cluster_name = "";
      description = service.description;
      tmpl_expand_name = "";
      tmpl_expand_id = 0;
    }
    if ltb 0 service.id then with_cluster service_name detail else pure detail

  unfoldable pub update : String → String → String → String → String → Exec (World e) ℕ
  update service_name description domain port git_repo = on_services (
      Db.updates e.services (named service_name) (λ r. record r {
        description = description;
        domain = unless_empty domain r.domain;
        port = unless_empty port r.port;
        git_repo = unless_empty git_repo r.git_repo;
      }))

  -- A service comes with a cluster, whose id is the answer. A nil `ServiceInfo` is dereferenced.
  unfoldable pub create_service : Option ServiceInfo → Exec (World e) ℕ
  unfolding transaction
  create_service none = panic
  create_service (some info) = transaction do
    on_services (Db.create e.services (new_service info))
    on_site (on_clusters (Db.create e.clusters (default_cluster info.service_name)))
