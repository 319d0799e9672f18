-- ===== src/EnvOps/Scripts.antt =====
-- template/init_base_tmpl.go, template/download_exec_tmpl.go and template/do_deploy_tmpl.go.
use Prim.Native.String.{◌++◌}
use text.Mathlib.Text.{◌==◌ as str_eq}
use schedulx.Prelude.{String, ◌||◌, if◌then◌else◌, List, [], ◌∷◌, map}
use schedulx.Effect.{new_error, Result, ok, err}
use schedulx.Tool.Text.{trim_space}

-- `GetInitBaseCmd`
abbrev pub init_base_cmd : String
init_base_cmd =
    "\n#!/bin/bash\nres=$(docker version | grep Version)\nif [ \"\" == \"$res\" ]; then\n  echo \"1、安装docker\" >> /root/result.log\n  yum install -y docker >> /root/result.log\nfi\nservice docker start >> /root/result.log\n\necho \"success\" >> /root/result.log\necho \"success\"\n"

-- The path without its last character, if that is a slash.
unfoldable pub drop_slash : String → String
drop_slash String.[] = ""
drop_slash (String.◌∷◌ c s) =
    if str_eq (String.◌∷◌ c s) "/" then "" else String.◌∷◌ c (drop_slash s)

-- `ParseDownloadExecCmd`
unfoldable pub parse_download_exec_cmd : String → String → String → Result String
unfolding drop_slash
parse_download_exec_cmd url path name =
    if str_eq url "" || str_eq name "" || str_eq path ""
    then err (new_error "download params empty")
    else let dir = drop_slash path in
      ok (
        "\n#!/bin/bash\nmkdir -p "
        ++ (dir ++ ("\nwget " ++ (url ++ (" -O " ++ (dir ++ ("/" ++ name)))))))

-- `strings.Join(envs, "\n")`
unfoldable pub join_lines : List String → String
join_lines [] = ""
join_lines (s ∷ []) = s
join_lines (s ∷ t ∷ l) = s ++ ("\n" ++ join_lines (t ∷ l))

-- A blank entry stays as it is.
unfoldable pub export_line : String → String
export_line env = if str_eq (trim_space env) "" then env else "export " ++ env

-- `ParseDeployCmd`
unfoldable pub parse_deploy_cmd : List String → String → String
unfolding join_lines export_line
parse_deploy_cmd envs raw_cmd =
    "\n#!/bin/bash\n" ++ (join_lines (map export_line envs) ++ ("\n" ++ (raw_cmd ++ "\n")))
