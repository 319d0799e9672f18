-- ===== src/Tests/Site.antt =====
-- An installation that is a value: tables in memory, a clock that only sleeping moves, a BridgX whose
-- tasks are done at once, and shells that answer "success".
use mathlib.Core.List.Perm
use text.Mathlib.Text.{◌==◌ as str_eq}
use schedulx.Prelude.{
  ℕ, ◌+◌, ◌≡◌, refl, [], ◌∷◌, Bool, true, false, leb, none, some, arith, if◌then◌else◌,
}
use schedulx.Effect.{ok, err, new_error}
use schedulx.Types.{
  Task, Instance, Instruction, InstanceInfo, running, step_init, Action, InstanceStatus, svc,
  bridgx_expand, mount_slb, other_action, ScheduleTemplate, type_expand,
}
use schedulx.Db.Memory.{memory}
use schedulx.Env.{Env, Remote, Codec}
use schedulx.World.{Site, World}
use schedulx.Instr.{InstrReq}
use schedulx.Schedule.Start.{no_instruction, no_nodes}

abbrev pub node : InstanceInfo
node = record { ip_inner = "10.0.0.1"; ip_outer = ""; instance_id = "i-1" }

pub rate_law : (b : Bool) → str_eq (if b then "1" else "0") "1" ≡ b
rate_law true = refl
rate_law false = refl

abbrev pub remote : Remote
remote = record {
  Cloud = ℕ;
  Session = Unit {0};
  clock = λ c. c;
  sleep = λ n c. c + n;
  sleep_law = λ n c. omega arith;
  cluster_expand = λ name n c. (ok 5, c);
  cluster_shrink = λ name ips n c. (ok 6, c);
  task_describe = λ t c. (ok "1", c);
  task_instances = λ t page size c. (ok (1, node ∷ []), c);
  cluster_instances = λ name page size c. (ok (1, node ∷ []), c);
  get_cluster_by_name = λ name c. (ok (record { user_name = "root"; pwd = "secret" }), c);
  create_servers = λ g l c. (ok tt, c);
  remove_servers = λ g l c. (ok tt, c);
  new_session = λ u ip p c. (ok tt, c);
  run = λ session cmd c. (("success", none), c);
  scheduled = λ c. [];
  arranged = λ l c. l;
  arranged_law = λ l c. Perm.refl l;
  at_least_one = λ s. str_eq s "1";
  format_float = λ n. if leb 1 n then "1" else "0";
  format_law = λ n. rate_law (leb 1 n);
  new_session_law = λ u ip p c. omega arith;
  run_law = λ session cmd c. omega arith;
  describe_law = λ t c. omega arith;
  max_pages = 20;
}

-- Shells that never answer.
abbrev pub silent : Remote
silent = record remote {
  new_session = λ u ip p c. (err (new_error "i/o timeout"), c);
  new_session_law = λ u ip p c. omega arith;
}

-- JSON that reads nothing but the empty text.
abbrev no_json : {A : Type 0} → A → Codec A
no_json a = record {
  encode = λ x. "{}";
  decode = λ s. if str_eq s "" then ok a else err (new_error "unexpected end of JSON input");
}

abbrev pub site_env : Env
site_env = record {
  tasks = memory (λ r. r.id) (λ n r. record r { id = n });
  instances = memory (λ r. r.id) (λ n r. record r { id = n });
  clusters = memory (λ r. r.id) (λ n r. record r { id = n });
  instructions = memory (λ r. r.id) (λ n r. record r { id = n });
  instr_records = memory (λ r. r.id) (λ n r. record r { id = n });
  templates = memory (λ r. r.id) (λ n r. record r { id = n });
  services = memory (λ r. r.id) (λ n r. record r { id = n });
  remote = remote;
  relation_json = no_json (record { node_act_task_id = 0; bridgx_task_id = 0 });
  ids_json = no_json (1 ∷ 2 ∷ []);
  mount_json = no_json (record { mount_type = "slb"; mount_value = "rsp-1" });
  service_env_json = no_json (record {
    image_storage_type = "";
    image_url = "";
    service_name = "";
    port = 0;
    account = "";
    password = "";
  });
  download_json = no_json (record { deploy_file_path = ""; deploy_file_name = "" });
  deploy_json = no_json [];
  attrs_json =
      no_json (record { repo_type = ""; repo_path = ""; repo_user = ""; repo_password = "" });
  base_env_json = no_json (record { is_container = true });
  task_info_json = no_json "";
  account = record { region = "cn-beijing"; access_key = "key"; secret = "secret" };
  aes_decrypt = λ text key. ok text;
  aes_encrypt = λ text key. ok text;
  render_service = λ params cmd. ok cmd;
}

abbrev pub task : ℕ → Task
task n = record {
  id = n;
  sched_tmpl_id = 1;
  operator = "root";
  relation_task_id = "";
  task_status = running;
  task_step = step_init;
  inst_cnt = 1;
  exec_type = "manual";
  msg = "";
  task_info = "";
  begin_at = 0;
  finish_at = none;
}

abbrev instruction : ℕ → Action → Instruction
instruction n act = record {
  id = n;
  cmd = "";
  params = "";
  instr_action = act;
  tmpl_id = 1;
  is_deleted = 0;
}

abbrev pub instance_of : ℕ → ℕ → InstanceStatus → Instance
instance_of n t status = record {
  id = n;
  task_id = t;
  instance_id = "i-1";
  service_cluster_id = 1;
  instance_status = status;
  ip_inner = "10.0.0.1";
  ip_outer = "";
  msg = "";
}

-- Two tasks; the instances of task 8 wait for the load balancer.
abbrev pub site : Site site_env
site = record {
  tasks = task 7 ∷ task 8 ∷ [];
  instances = instance_of 1 8 svc ∷ [];
  clusters = [];
  cloud = 100;
  pending = [];
}

abbrev pub world : World site_env
world = record {
  site = site;
  instructions =
      instruction 1 bridgx_expand ∷ instruction 2 mount_slb ∷ instruction 3 (other_action "x") ∷ [];
  instr_records = [];
  templates = [];
  services = [];
}

abbrev pub request : InstrReq
request = record {
  service_name = "web";
  service_cluster_id = 1;
  schedule_task_id = 7;
  instr_id = 0;
  instruction = no_instruction;
  bridgx_req = some (record { count = 1; cluster_name = "c"; task_id = 0; inst_group = none });
  node_act_req = no_nodes;
}

-- A template whose group of instructions is not JSON.
abbrev pub template : ScheduleTemplate
template = record {
  id = 1;
  tmpl_name = "t";
  service_name = "web";
  service_cluster_id = 1;
  bridgx_clusname = "c";
  deploy_mode = "";
  description = "";
  tmpl_attrs = "";
  instr_group = "[1,";
  schedule_type = type_expand;
  reverse_sched_tmpl_id = 0;
  is_deleted = 0;
}
