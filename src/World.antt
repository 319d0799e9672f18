-- ===== src/World.antt =====
-- The state that the services share. A `Site` is what an instruction works on; the tables that the
-- scheduler alone uses stand around it in a `World`.
use schedulx.Prelude.{ℕ, List, Option, String}
use schedulx.Effect.{Exec, zoom}
use schedulx.Types.{InstanceInfo, InstanceAuth}
use schedulx.Env.{Env, ParamsServiceEnv}

-- A goroutine that was started and not waited for: `BaseEnvInitSingle` or `ServiceEnvInitSingle`.
pub data Job : Type 0 where
  base_env_init : ℕ → InstanceInfo → Option InstanceAuth → Job
  service_env_init : ℕ → InstanceInfo → Option InstanceAuth → ParamsServiceEnv → String → Job

pub record Site (e : Env) : Type 0 where
  pub tasks : e.tasks.Store
  pub instances : e.instances.Store
  pub clusters : e.clusters.Store
  pub cloud : e.remote.Cloud
  pub pending : List Job

pub record World (e : Env) : Type 0 where
  pub site : Site e
  pub instructions : e.instructions.Store
  pub instr_records : e.instr_records.Store
  pub templates : e.templates.Store
  pub services : e.services.Store

module _ {e : Env} {A : Type 0} where
  abbrev pub on_tasks : Exec e.tasks.Store A → Exec (Site e) A
  on_tasks = zoom (λ s. s.tasks) (λ s t. record s { tasks = t })

  abbrev pub on_instances : Exec e.instances.Store A → Exec (Site e) A
  on_instances = zoom (λ s. s.instances) (λ s t. record s { instances = t })

  abbrev pub on_clusters : Exec e.clusters.Store A → Exec (Site e) A
  on_clusters = zoom (λ s. s.clusters) (λ s t. record s { clusters = t })

  abbrev pub on_cloud : Exec e.remote.Cloud A → Exec (Site e) A
  on_cloud = zoom (λ s. s.cloud) (λ s t. record s { cloud = t })

  abbrev pub on_site : Exec (Site e) A → Exec (World e) A
  on_site = zoom (λ w. w.site) (λ w t. record w { site = t })

  abbrev pub on_instructions : Exec e.instructions.Store A → Exec (World e) A
  on_instructions = zoom (λ w. w.instructions) (λ w t. record w { instructions = t })

  abbrev pub on_instr_records : Exec e.instr_records.Store A → Exec (World e) A
  on_instr_records = zoom (λ w. w.instr_records) (λ w t. record w { instr_records = t })

  abbrev pub on_templates : Exec e.templates.Store A → Exec (World e) A
  on_templates = zoom (λ w. w.templates) (λ w t. record w { templates = t })

  abbrev pub on_services : Exec e.services.Store A → Exec (World e) A
  on_services = zoom (λ w. w.services) (λ w t. record w { services = t })
