-- ===== src/Vm/Seed.antt =====
-- internal/vmbackend/manager.go: names, `validateBootstrap` and the NoCloud seed of a VM.
pub mod Markers
pub mod Launched
pub mod Blocks
pub mod Chain
use garm_provider_truenas.Base.{
  String, ℕ, Bool, true, false, not, ◌||◌, List, [], ◌∷◌, ◌++◌, ltb, ◌==◌, if◌then◌else◌, length,
  take, trim, is_empty, sentinel, unsupported, Result, ok, err, and_then,
}
use garm_provider_truenas.Base.Text.{
  Text, codes, text_eq, to_lower, collapse, is_blank, contains_char, replace_all, cut_suffix_char,
}
use garm_provider_truenas.Base.Hex.{hex_encode}
use garm_provider_truenas.Provider.{
  Bootstrap, runner_tool_url, runner_tool_filename, runner_tool_sha256,
}
use garm_provider_truenas.Provider.Manager.{is_supported_arch}
use garm_provider_truenas.Kit.{Kit}
use garm_provider_truenas.Vm.{SeedSpec, flavor_linux_general, vm_bootstrap_consumed_marker_prefix}

abbrev pub is_underscore : ℕ → Bool
is_underscore c = c == b'_'

unfoldable pub sanitize_vm_name_part : Text → Text
unfolding to_lower collapse trim
sanitize_vm_name_part input = trim is_underscore (collapse b'_' false (to_lower input))

unfoldable pub clip_prefix : Text → Text
unfolding trim
clip_prefix prefix = if ltb 48 (length prefix) then trim is_underscore (take 48 prefix) else prefix

unfoldable pub owned_name : (Text → List ℕ) → Text → Text → Text
unfolding sanitize_vm_name_part clip_prefix codes hex_encode
owned_name sha256 controller_id requested =
    let raw =
      sanitize_vm_name_part controller_id ++ (codes "_" ++ sanitize_vm_name_part requested) in
    let prefix = trim is_underscore (codes "garm_" ++ raw) in
    clip_prefix prefix ++ (codes "_" ++ hex_encode (take 4 (sha256 raw)))

abbrev refuse_if : Bool → Result (Unit {0})
refuse_if true = err (sentinel unsupported)
refuse_if false = ok tt

-- `strings.ContainsAny(value, "\r\n\x00")`
unfoldable pub breaks_line : Text → Bool
unfolding contains_char
breaks_line value = contains_char 13 value || contains_char 10 value || contains_char 0 value

unfoldable pub validate_bootstrap : Bootstrap → Result (Unit {0})
unfolding breaks_line
validate_bootstrap input = and_then (refuse_if (is_blank input.name || is_blank input.pool_id)) λ _.
    and_then
      (refuse_if
        (not (text_eq input.os_type (codes "linux")) || not (is_supported_arch input.arch)))
      λ _. and_then (refuse_if (not (text_eq input.flavor flavor_linux_general))) λ _.
        and_then
          (refuse_if
            (is_blank input.callback_url || is_blank input.metadata_url || is_blank input.token))
          λ _. refuse_if (
            breaks_line input.callback_url
            || breaks_line input.metadata_url
            || breaks_line input.token)

abbrev newline : Text
newline = 10 ∷ []

-- `KEY=value` and a line feed.
unfoldable pub env_line : Text → Text → Text
unfolding codes
env_line key value = key ++ (codes "=" ++ (value ++ (10 ∷ [])))

unfoldable pub bootstrap_env : Bootstrap → Text
unfolding env_line
bootstrap_env input =
    env_line (codes "GARM_CALLBACK_URL") input.callback_url
    ++ (env_line (codes "GARM_METADATA_URL") input.metadata_url
        ++ (env_line (codes "GARM_INSTANCE_TOKEN") input.token
            ++ (env_line (codes "GARM_RUNNER_DOWNLOAD_URL") runner_tool_url
                ++ (env_line (codes "GARM_RUNNER_FILENAME") runner_tool_filename
                    ++ env_line (codes "GARM_RUNNER_SHA256") runner_tool_sha256))))

line : String → Text
line text = codes text ++ newline

-- A file's content as a YAML block, six spaces deep.
block_lines : Text → Text
unfolding replace_all
block_lines trimmed =
    if is_empty trimmed
    then []
    else codes "      " ++ (replace_all trimmed newline (newline ++ codes "      ") ++ newline)

unfoldable pub cloud_config_file : Text → Text → Text → Text → Text
unfolding block_lines line
cloud_config_file path permissions owner content =
    codes "  - path: "
    ++ (path
        ++ (newline
            ++ (codes "    permissions: '"
                ++ (permissions
                    ++ (codes "'"
                        ++ (newline
                            ++ (codes "    owner: "
                                ++ (owner
                                    ++ (newline
                                        ++ (line "    content: |"
                                            ++ block_lines (cut_suffix_char 10 content)))))))))))

unfoldable pub vm_runner_bootstrap_script : Kit → Text
unfolding replace_all
vm_runner_bootstrap_script kit =
    replace_all kit.container_bootstrap_script (codes "container runner started")
      (codes "vm runner started")

unfoldable pub seed_for : Kit → Bootstrap → Text → SeedSpec
unfolding bootstrap_env cloud_config_file vm_runner_bootstrap_script line
seed_for kit input hostname =
    let marker = vm_bootstrap_consumed_marker_prefix ++ hostname in
    record {
      meta_data =
          codes "instance-id: "
          ++ (hostname ++ (newline ++ (codes "local-hostname: " ++ (hostname ++ newline))));
      user_data =
          line "#cloud-config"
          ++ (line "users:"
              ++ (line "  - default"
                  ++ (line "  - name: garm-runner"
                      ++ (line "    system: true"
                          ++ (line "    no_create_home: false"
                              ++ (line "    homedir: /home/garm-runner"
                                  ++ (line "    shell: /usr/sbin/nologin"
                                      ++ (line "write_files:"
                                          ++ (cloud_config_file
                                                (codes "/usr/local/libexec/garm-runner-bootstrap")
                                                (codes "0755") (codes "root:root")
                                                (vm_runner_bootstrap_script kit)
                                              ++ (cloud_config_file
                                                    (codes "/usr/local/libexec/garm-bootstrap")
                                                    (codes "0755") (codes "root:root")
                                                    kit.vm_bootstrap_launcher
                                                  ++ (cloud_config_file
                                                        (codes "/run/garm/bootstrap.env")
                                                        (codes "0600") (codes "root:root")
                                                        (bootstrap_env input)
                                                      ++ (line "runcmd:"
                                                          ++ (codes
                                                            "  - [\"/usr/local/libexec/garm-bootstrap\", \"/run/garm/bootstrap.env\", \""
                                                            ++ (marker
                                                            ++ (codes "\"]"
                                                            ++ newline)))))))))))))));
      consumption_marker = marker;
    }
