-- ===== src/Template/Request.antt =====
-- The requests of service/templatesvc.go and their parts in api/types/template.go; a Go pointer is an
-- `Option`.
use schedulx.Prelude.{ℕ, String, Bool, List, [], ◌∷◌, Option}
use schedulx.Env.{ParamsMount, BaseEnv}

-- `types.TmpInfo`
pub record TmpInfo : Type 0 where
  pub tmpl_name : String
  pub service_cluster_id : ℕ
  pub describe : String
  pub bridgx_clusname : String
  pub deploy_mode : String

-- `types.ServiceEnv`
pub record ServiceEnv : Type 0 where
  pub image_storage_type : String
  pub image_url : String
  pub port : ℕ
  pub account : String
  pub password : String
  pub cmd : String
  pub service_name : String

-- `types.DeployInfo`
pub record DeployInfo : Type 0 where
  pub strategy : String
  pub in_place : Bool
  pub max_surge : ℕ
  pub repo_path : String
  pub repo_type : String
  pub repo_user : String
  pub repo_password : String
  pub executable_path : String
  pub deploy_file_path : String
  pub deploy_file_name : String
  pub env_variables : List String
  pub before_download_cmd : String
  pub before_deploy_cmd : String
  pub deploy_cmd : String
  pub after_deploy_cmd : String

-- `TmplExpandSvcReq`
pub record TmplExpandReq : Type 0 where
  pub end_step : String
  pub tmpl_info : Option TmpInfo
  pub base_env : Option BaseEnv
  pub service_env : Option ServiceEnv
  pub deploy_info : Option DeployInfo
  pub mount : Option ParamsMount

-- `TmplUpdateSvcReq`: beside its id it has the fields of the request for a creation.
pub record TmplUpdateReq : Type 0 where
  pub tmpl_expand_id : ℕ
  pub parts : TmplExpandReq

-- `TmplExpandSvcResp`, whose two texts are the ids of one of two templates.
pub data TmplExpandResp : Type 0 where
  tmpl_id deploy_tmpl_id : ℕ → TmplExpandResp

-- `TmplInfoSvcResp`
pub record TmplInfoResp : Type 0 where
  pub tmpl_info : TmpInfo
  pub base_env : Option BaseEnv
  pub service_env : Option ServiceEnv
  pub mount : Option ParamsMount
  pub deploy_info : DeployInfo

-- The values of `expandStep`
pub data ExpandStep : Type 0 where
  step_tmpl_info step_base_env step_service_env step_mount : ExpandStep

-- The texts that a request names its last step by.
unfoldable pub step_text : ExpandStep → String
step_text step_tmpl_info = "tmpl_info"
step_text step_base_env = "base_env"
step_text step_service_env = "service_env"
step_text step_mount = "mount"

abbrev pub expand_steps : List ExpandStep
expand_steps = step_tmpl_info ∷ step_base_env ∷ step_service_env ∷ step_mount ∷ []

-- The values of `instanceDeploySteps`
pub data DeployStep : Type 0 where
  step_before_download step_download_exec step_before_deploy step_deploy step_after_deploy :
      DeployStep

abbrev pub deploy_steps : List DeployStep
deploy_steps =
    step_before_download ∷ step_download_exec ∷ step_before_deploy ∷ step_deploy ∷ step_after_deploy
    ∷ []
