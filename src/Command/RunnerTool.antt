-- ===== src/Command/RunnerTool.antt =====
-- cmd/garm-provider-truenas/runner_tool.go: the runner tool that GARM advertises.
use garm_provider_truenas.Base.{
  ℕ, Bool, false, not, ◌&&◌, ◌||◌, List, [], ◌∷◌, ◌++◌, Option, none, some, leb, ◌==◌,
  if◌then◌else◌, is_empty, trim, message, Result, err, and_then,
}
use garm_provider_truenas.Base.Hex.{hex_bytes}
use garm_provider_truenas.Base.Text.{Text, codes, text_eq, equal_fold, has_prefix, drop, trim_space}
use garm_provider_truenas.Command.{Tool, refuse_if}
use garm_provider_truenas.Base.{length}

unfoldable pub is_digit : ℕ → Bool
is_digit c = leb b'0' c && leb c b'9'

-- `\d+`, which takes all the digits that stand there.
push_digit : ℕ → Text × Text → Text × Text
push_digit c (digits, rest) = (c ∷ digits, rest)

unfoldable pub take_digits : Text → Text × Text
unfolding push_digit is_digit
take_digits [] = ([], [])
take_digits (c ∷ t) =
    let more = take_digits t in if is_digit c then push_digit c more else ([], c ∷ t)

-- One component of the version, and the dot behind it.
after_dot : Text → Option Text
after_dot [] = none
after_dot (c ∷ t) = if c == b'.' then some t else none

component : Text → Option (Text × Text)
unfolding take_digits
component t = let found = take_digits t in if is_empty found.0 then none else some found

with_dot : Option (Text × Text) → Option (Text × Text)
unfolding after_dot
with_dot none = none
with_dot (some (digits, rest)) = elim (after_dot rest) [ none ↦ none | some t ↦ some (digits, t) ]

-- `(\d+\.\d+\.\d+)\.tar\.gz$`
match_version : Text → Option Text
unfolding component with_dot codes
match_version t = elim (with_dot (component t)) [
  | none ↦ none
  | some (major, t1) ↦ elim (with_dot (component t1)) [
    | none ↦ none
    | some (minor, t2) ↦ elim (component t2) [
      | none ↦ none
      | some (patch, t3) ↦
          if text_eq t3 (codes ".tar.gz")
          then some (major ++ (codes "." ++ (minor ++ (codes "." ++ patch))))
          else none
    ]
  ]
]

-- `linuxX64RunnerFilename.FindStringSubmatch(filename)[1]`
unfoldable pub runner_version : Text → Option Text
unfolding match_version has_prefix
runner_version filename =
    let prefix = codes "actions-runner-linux-x64-" in
    if has_prefix filename prefix then match_version (drop (length prefix) filename) else none

unfoldable pub is_linux_x64 : Tool → Bool
unfolding equal_fold
is_linux_x64 tool =
    equal_fold tool.os (codes "linux")
    && (equal_fold tool.architecture (codes "x64") || equal_fold tool.architecture (codes "amd64"))

-- The first tool that fits.
unfoldable pub select_tool : List Tool → Option Tool
unfolding is_linux_x64
select_tool [] = none
select_tool (tool ∷ tools) = if is_linux_x64 tool then some tool else select_tool tools

unfoldable pub official_url : Text → Text → Text
unfolding codes
official_url version filename =
    codes "https://github.com/actions/runner/releases/download/v"
    ++ (version ++ (codes "/" ++ filename))

is_32_bytes : Option ℕ → Bool
is_32_bytes none = false
is_32_bytes (some n) = n == 32

-- 64 hexadecimal digits that are not all zero.
unfoldable pub is_checksum : Text → Bool
unfolding is_32_bytes hex_bytes trim_space trim
is_checksum raw =
    let checksum = trim_space raw in
    is_32_bytes (hex_bytes checksum) && not (is_empty (trim (λ c. c == b'0') checksum))

unfoldable pub validate_version : Tool → Option Text → Result (Unit {0})
unfolding official_url is_checksum
validate_version tool none = err (message "runner tool filename is not an official release shape")
validate_version tool (some version) =
    and_then
      (refuse_if (not (text_eq tool.download_url (official_url version tool.filename)))
        "runner tool URL does not match the official GitHub release path")
      λ _.
        refuse_if (not (is_checksum tool.sha256_checksum))
          "runner tool SHA256 is not a valid nonzero 256-bit digest"

validate_selected : Option Tool → Result (Unit {0})
unfolding validate_version
validate_selected none = err (message "GARM bootstrap does not contain a Linux/x64 runner tool")
validate_selected (some tool) =
    and_then
      (refuse_if (not (is_empty tool.temp_download_token))
        "temporary runner download tokens are not supported by the fixed TrueNAS MVP profile")
      λ _. validate_version tool (runner_version tool.filename)

unfoldable pub validate_runner_tool_contract : List Tool → Result (Unit {0})
unfolding validate_selected select_tool
validate_runner_tool_contract tools = validate_selected (select_tool tools)
