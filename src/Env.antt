-- ===== src/Env.antt =====
-- What the services call and the repository does not implement: the database (gorm and MySQL), the
-- BridgX and load-balancer services behind their HTTP clients, remote shells, the clock, JSON, and
-- the conversions of spf13/cast. The laws are documented behaviour of those parts.
use mathlib.Core.List.{Perm}
use schedulx.Prelude.{ℕ, ◌+◌, ◌≤◌, ◌≡◌, String, List, Option, Bool, leb}
use schedulx.Effect.{Error, Result}
use schedulx.Db.Interface.{Table}
use schedulx.Types.{
  Task, Instance, InstrRecord, Instruction, ScheduleTemplate, ServiceCluster, Service, InstanceInfo,
  InstanceAuth, RelationTaskId,
}

-- JSON of one type.
pub record Codec (A : Type 0) : Type 0 where
  pub encode : A → String
  pub decode : String → Result A

-- `nodeact.ParamsMountInfo` and `types.ParamsMount`
pub record ParamsMount : Type 0 where
  pub mount_type : String
  pub mount_value : String

-- `types.ParamsServiceEnv` and `types.ServiceEnv` as they are stored; `cmd` is stored beside them.
pub record ParamsServiceEnv : Type 0 where
  pub image_storage_type : String
  pub image_url : String
  pub service_name : String
  pub port : ℕ
  pub account : String
  pub password : String

-- `types.DownloadExec`
pub record DownloadExec : Type 0 where
  pub deploy_file_path : String
  pub deploy_file_name : String

-- `types.TmplAttrs`
pub record TmplAttrs : Type 0 where
  pub repo_type : String
  pub repo_path : String
  pub repo_user : String
  pub repo_password : String

-- `types.BaseEnv`
pub record BaseEnv : Type 0 where
  pub is_container : Bool

-- `config.AlibabaCloudAccount`
pub record AlibabaCloudAccount : Type 0 where
  pub region : String
  pub access_key : String
  pub secret : String

-- What the program keeps outside its tables.
pub record Remote : Type 1 where
  pub Cloud : Type 0
  pub Session : Type 0
  -- `time.Now()` and `time.Sleep`, in seconds
  pub clock : Cloud → ℕ
  pub sleep : ℕ → Cloud → Cloud
  pub sleep_law : (n : ℕ) (c : Cloud) → clock c + n ≤ clock (sleep n c)
  -- client/bridgxcli
  pub cluster_expand : String → ℕ → Cloud → Result ℕ × Cloud
  pub cluster_shrink : String → List String → ℕ → Cloud → Result ℕ × Cloud
  pub task_describe : ℕ → Cloud → Result String × Cloud
  pub task_instances : ℕ → ℕ → ℕ → Cloud → Result (ℕ × List InstanceInfo) × Cloud
  pub cluster_instances : String → ℕ → ℕ → Cloud → Result (ℕ × List InstanceInfo) × Cloud
  pub get_cluster_by_name : String → Cloud → Result InstanceAuth × Cloud
  -- pkg/cloud/aliyun: a server of a group is given by its id and inner address.
  pub create_servers : String → List (String × String) → Cloud → Result (Unit {0}) × Cloud
  pub remove_servers : String → List (String × String) → Cloud → Result (Unit {0}) × Cloud
  -- pkg/goph: a command has output also when it fails.
  pub new_session : String → String → String → Cloud → Result Session × Cloud
  pub run : Session → String → Cloud → (String × Option Error) × Cloud
  -- Which of the waiting goroutines end while the caller sleeps, by their places.
  pub scheduled : Cloud → List ℕ
  -- The order in which goroutines that are waited for take their turns.
  pub arranged : List InstanceInfo → Cloud → List InstanceInfo
  pub arranged_law : (l : List InstanceInfo) (c : Cloud) → Perm (arranged l c) l
  -- `cast.ToFloat64(rate) >= 1`, and the text of a whole number by `strconv.FormatFloat`
  pub at_least_one : String → Bool
  pub format_float : ℕ → String
  pub format_law : (n : ℕ) → at_least_one (format_float n) ≡ leb 1 n
  -- Time does not run backwards.
  pub new_session_law : (u ip p : String) (c : Cloud) → clock c ≤ clock (new_session u ip p c).1
  pub run_law : (s : Session) (cmd : String) (c : Cloud) → clock c ≤ clock (run s cmd c).1
  pub describe_law : (t : ℕ) (c : Cloud) → clock c ≤ clock (task_describe t c).1
  -- A paging loop that has asked for so many pages is taken not to end.
  pub max_pages : ℕ

pub record Env : Type 1 where
  pub tasks : Table Task (λ r. r.id) (λ n r. record r { id = n })
  pub instances : Table Instance (λ r. r.id) (λ n r. record r { id = n })
  pub clusters : Table ServiceCluster (λ r. r.id) (λ n r. record r { id = n })
  pub instructions : Table Instruction (λ r. r.id) (λ n r. record r { id = n })
  pub instr_records : Table InstrRecord (λ r. r.id) (λ n r. record r { id = n })
  pub templates : Table ScheduleTemplate (λ r. r.id) (λ n r. record r { id = n })
  pub services : Table Service (λ r. r.id) (λ n r. record r { id = n })
  pub remote : Remote
  pub relation_json : Codec RelationTaskId
  pub ids_json : Codec (List ℕ)
  pub mount_json : Codec ParamsMount
  pub service_env_json : Codec ParamsServiceEnv
  pub download_json : Codec DownloadExec
  pub deploy_json : Codec (List String)
  pub attrs_json : Codec TmplAttrs
  pub base_env_json : Codec BaseEnv
  -- `DownloadFileUrl` of the stored `TaskInfo` of a deployment
  pub task_info_json : Codec String
  pub account : AlibabaCloudAccount
  -- crypto/aes and base64 behind `AesDecrypt` and behind `AesEncrypt` with a key that is not empty, and
  -- text/template on `initServiceCmd`
  pub aes_decrypt : String → String → Result String
  pub aes_encrypt : String → String → Result String
  pub render_service : ParamsServiceEnv → String → Result String
