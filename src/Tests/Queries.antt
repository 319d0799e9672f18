-- ===== src/Tests/Queries.antt =====
-- The properties of the queries, the deletion of templates, and the helpers of pkg/tool.
use schedulx.Tool.Whole.{sub_bytes-bytes_of}
use schedulx.Tool.Bytes.{
  sub_bytes, bytes_of, encode_rune, skip, rune_size, size2, size3, is_second, is_tail,
}
use schedulx.Repo.Grouped.{append, joined, instr_ids-joined}
use schedulx.Tool.Text.{decimal, digits, digit, sub_str}
use schedulx.Schedule.Start.{no_instruction}
use schedulx.Repo.Listed.{Listed, get_expand_list-Listed}
use schedulx.Repo.Expands.{
  get_expand_list, instr_ids, split, trim_start, trim_end, only_brackets, is_bracket,
  expand_templates, expand_template, show_instrs, show_base, show_mount, shown_type, in_group,
}
use schedulx.Prelude.{◌≡◌, refl, [], ◌∷◌, some, true, reverse, arith, String, inl}
use schedulx.Effect.{returns, pure, raise, call, zoom, ◌>>=◌, attempt, ok}
use schedulx.Effect.Ends.{Ends}
use schedulx.World.{World, Site}
use schedulx.Repo.Deleted.{Deleted}
use schedulx.Tasks.Running.{has_running_task}
use schedulx.Tasks.Unfinished.{occupied, has_running_task-Ends}
use schedulx.Tool.Numbers.{reverse_int_slice}
use schedulx.Tool.Reversed.{reverse_int_slice-reverse}
use schedulx.Tool.Aes.{Cipher, aes_encrypt, aes_decrypt}
use schedulx.Tool.Sealed.{aes_decrypt-aes_encrypt}
use schedulx.Tests.Json.{relation_json, relation_json-RoundTrips, ids_json, ids_json-RoundTrips}
use schedulx.Tests.Site.{site_env, site, world, template, task}
use schedulx.Env.{Env}
use schedulx.Db
use schedulx.Types.{bridgx_field, node_act_init_base, mount_slb}
use schedulx.Repo.Tasks.{update_task_relation_task_id, relation_of, set_relation, one_row}
use schedulx.Repo.Services.{ServiceInfo, new_service, create_service, delete_services}
use schedulx.Repo.Founded.{Whole, FoundedOr, Dismissed, create_service-Whole, delete_services-Whole}
use schedulx.Repo.Related.{Related, get_bridgx_task_id-update_task_relation_task_id}
use schedulx.Tests.Templates.{cluster}

-- A cluster with a template that two running tasks have.
abbrev busy : World site_env
busy = record world {
  site = record site { clusters = record cluster { id = 1 } ∷ [] };
  templates = template ∷ [];
}

has_running_task-Ends_example :
    Ends ⊥
      (λ b w. b ≡ occupied site_env busy "web" "default")
      (has_running_task site_env "web" "default" busy)
has_running_task-Ends_example = has_running_task-Ends site_env "web" "default" busy

-- The two tasks of the installation keep the cluster busy.
busy-occupied : occupied site_env busy "web" "default" ≡ true
busy-occupied = refl

-- Parameters that say of every template that it prepares containers and has a balancer.
abbrev listing_env : Env
listing_env = record site_env {
  base_env_json = record { encode = λ b. "{}"; decode = λ s. ok (record { is_container = true }) };
  mount_json = record {
    encode = λ m. m.mount_type;
    decode = λ s. ok (record { mount_type = s; mount_value = "rsp-1" });
  };
}

-- The template with a group that can be read: it prepares containers and mounts.
abbrev grouped : String → World listing_env
grouped balancer = record {
  site = record { tasks = []; instances = []; clusters = []; cloud = 100; pending = [] };
  instructions =
      record no_instruction { id = 1; params = "{}"; instr_action = node_act_init_base }
      ∷ record no_instruction { id = 2; params = balancer; instr_action = mount_slb }
      ∷ [];
  instr_records = [];
  templates = record template { instr_group = "[1,2]" } ∷ [];
  services = [];
}

get_expand_list-Listed_example :
    Ends ⊥
      (λ answer w. Listed listing_env (grouped "SLB") "web" 1 10 1 answer)
      (get_expand_list listing_env "web" 1 10 1 (grouped "SLB"))
get_expand_list-Listed_example = get_expand_list-Listed listing_env "web" 1 10 1 (grouped "SLB")

instr_ids-joined_example :
    instr_ids (append "[" (append (joined "1" ("20" ∷ [])) "]")) ≡ "1" ∷ "20" ∷ []
unfolding is_bracket
instr_ids-joined_example =
    instr_ids-joined "1" ("20" ∷ []) (refl, refl, tt) ((refl, refl, (refl, refl, tt)), tt)

-- With a number, `append` and `joined` write what JSON writes.
group-text : append "[" (append (joined "1" ("20" ∷ [])) "]") ≡ "[1,20]"
group-text = refl

-- The template is listed with its balancer, which has to be named in capitals.
capitals-listed :
    (get_expand_list listing_env "web" 1 10 1 (grouped "SLB")).0
    ≡ returns (
      record {
        tmpl_expand_id = 1;
        tmpl_expand_name = "t";
        inst_cluster_name = "c";
        is_container = true;
        register_type = "SLB";
      }
          ∷ [],
      1,
    )
unfolding in_group decimal digits digit get_expand_list expand_templates expand_template show_instrs
    show_base show_mount shown_type Db.query Db.query_all attempt call zoom pure raise ◌>>=◌
    instr_ids split trim_start trim_end only_brackets is_bracket
capitals-listed = refl

small-listed :
    (get_expand_list listing_env "web" 1 10 1 (grouped "slb")).0
    ≡ returns (
      record {
        tmpl_expand_id = 1;
        tmpl_expand_name = "t";
        inst_cluster_name = "c";
        is_container = true;
        register_type = "";
      }
          ∷ [],
      1,
    )
unfolding in_group decimal digits digit get_expand_list expand_templates expand_template show_instrs
    show_base show_mount shown_type Db.query Db.query_all attempt call zoom pure raise ◌>>=◌
    instr_ids split trim_start trim_end only_brackets is_bracket
small-listed = refl

reverse_int_slice-reverse_example : reverse_int_slice (1 ∷ 2 ∷ 3 ∷ []) ≡ reverse (1 ∷ 2 ∷ 3 ∷ [])
reverse_int_slice-reverse_example = reverse_int_slice-reverse (1 ∷ 2 ∷ 3 ∷ [])

-- A cipher that leaves the blocks as they are.
abbrev open_cipher : Cipher
open_cipher = record {
  encrypt_blocks = λ key iv bytes. bytes;
  decrypt_blocks = λ key iv bytes. bytes;
  encode_base64 = ids_json.encode;
  decode_base64 = ids_json.decode;
  size_law = λ key iv bytes. refl;
  blocks_law = λ key iv bytes h. refl;
  base64_law = λ bytes. (ids_json-RoundTrips bytes).0;
}

aes_decrypt-aes_encrypt_example :
    (text : String) × (aes_encrypt open_cipher (104 ∷ 105 ∷ []) (107 ∷ []) ≡ some (returns text))
    × (aes_decrypt open_cipher text (107 ∷ []) ≡ some (returns (104 ∷ 105 ∷ [])))
aes_decrypt-aes_encrypt_example =
    aes_decrypt-aes_encrypt open_cipher (104 ∷ 105 ∷ []) (107 ∷ []) (omega arith)

abbrev linked_env : Env
linked_env = record site_env { relation_json = relation_json }

abbrev linked_site : Site linked_env
linked_site = record {
  tasks = task 7 ∷ task 8 ∷ [];
  instances = [];
  clusters = [];
  cloud = 100;
  pending = [];
}

abbrev linked : Site linked_env
linked = (update_task_relation_task_id linked_env 7 bridgx_field 5 linked_site).1

updated :
    update_task_relation_task_id linked_env 7 bridgx_field 5 linked_site ≡ (returns tt, linked)
unfolding update_task_relation_task_id relation_of set_relation one_row pure raise call zoom ◌>>=◌
    Db.get Db.updates
updated = refl

get_bridgx_task_id-update_task_relation_task_id_example :
    Related linked_env 7 bridgx_field 5 linked_site linked
get_bridgx_task_id-update_task_relation_task_id_example =
    get_bridgx_task_id-update_task_relation_task_id linked_env 7 bridgx_field 5 linked_site linked
      (λ p s. refl) (λ pair. (relation_json-RoundTrips pair).0) updated

abbrev shop_info : ServiceInfo
shop_info = record {
  service_name = "shop";
  description = "";
  language = "go";
  domain = "";
  port = "80";
  git_repo = "";
}

create_service-Whole_example :
    FoundedOr site_env (some shop_info) busy (create_service site_env (some shop_info) busy)
create_service-Whole_example = create_service-Whole site_env (some shop_info) busy

abbrev staffed : World site_env
staffed = record busy {
  services =
      record (new_service shop_info) { id = 1 } ∷ record (new_service shop_info) { id = 2 } ∷ [];
}

delete_services-Whole_example :
    Whole site_env
      (λ u. Dismissed site_env (2 ∷ []) staffed)
      staffed
      (delete_services site_env (2 ∷ []) staffed)
delete_services-Whole_example = delete_services-Whole site_env (2 ∷ []) staffed

-- A text with a letter of two bytes and a character of three.
sub_bytes-bytes_of_example : sub_bytes (bytes_of "né核") 2 ≡ bytes_of (sub_str "né核" 2)
sub_bytes-bytes_of_example =
    sub_bytes-bytes_of "né核" 2 (inl (omega arith), (inl (omega arith), (inl (omega arith), tt)))

cut-bytes : sub_bytes (bytes_of "né核") 2 ≡ 110 ∷ 195 ∷ 169 ∷ []
unfolding sub_bytes bytes_of encode_rune skip rune_size size2 size3 is_second is_tail
cut-bytes = refl
