-- ===== src/Runner/Command.antt =====
-- internal/runner/runner.go and policy.go: the command that runs a workload: the plan that the policy
-- resolves to, the isolation and the memory limit around the command, and the notes on what was not
-- enforced.
use Prim.Native.String.{◌++◌ as text_append}
use Prim.Native.Char.{code}
use gotorque.Prelude.{
  String, Bool, not, ◌&&◌, ◌||◌, Option, none, some, List, [], ◌∷◌, ◌++◌, if◌then◌else◌, str_eq,
  ◌==◌,
}
use gotorque.Outcome.{Outcome, ok, err}
use gotorque.Runner.Types.{SandboxPolicy, Host, RunPlan, Guards, Command}

abbrev pub texts : List String → String
texts [] = ""
texts (t ∷ ts) = text_append t (texts ts)

-- `filesystemUnrestricted`
abbrev pub filesystem_unrestricted : SandboxPolicy → Bool
filesystem_unrestricted p = str_eq p.write_scope "any"

-- `useLocalIsolation`
abbrev pub use_local_isolation : Bool → Bool → Bool → Bool
use_local_isolation local network_disabled filesystem_allowed =
    local && (network_disabled || not filesystem_allowed)

-- The plan of `newRunSandbox`, for a runner with or without local isolation.
unfoldable pub run_plan : Bool → SandboxPolicy → RunPlan
run_plan local p =
    let network_allowed = not local || p.network_allowed in
    let filesystem_allowed = not local || filesystem_unrestricted p in
    record {
      network_disabled = not network_allowed;
      filesystem_allowed = filesystem_allowed;
      using_local_isolation = use_local_isolation local (not network_allowed) filesystem_allowed;
    }

-- `sandboxOptions`: the guards that the sandbox of a plan asks for.
unfoldable pub sandbox_options : RunPlan → Guards
sandbox_options plan = record {
  network = plan.network_disabled && not plan.using_local_isolation;
  filesystem = not plan.filesystem_allowed && not plan.using_local_isolation;
}

-- `strings.ReplaceAll(root, "\"", "\\\"")`
unfoldable pub escape_quotes : String → String
escape_quotes String.[] = String.[]
escape_quotes (String.◌∷◌ c s) =
    let rest = escape_quotes s in
    if code c == 34 then text_append "\\\"" rest else String.◌∷◌ c rest

-- The profile of `sandbox-exec`.
unfoldable pub darwin_profile : String → Bool → String
darwin_profile root deny_network =
    let base = texts (
      "(version 1)(allow default)(deny file-write*)(allow file-write* (subpath \""
      ∷ escape_quotes root
      ∷ "\"))"
      ∷ []) in
    if deny_network then text_append base "(deny network*)" else base

abbrev pub unshare_net : Bool → List String
unshare_net denied = if denied then "--unshare-net" ∷ [] else []

-- The command under bubblewrap.
unfoldable pub bwrap_command : Host → String → String → Bool → String → Command → Command
bwrap_command host root work_dir deny_network bwrap c =
    if not host.isolation_supported then c else record {
      path = bwrap;
      args =
          ("--die-with-parent" ∷ unshare_net (deny_network && host.net_namespace_supported))
          ++ ("--ro-bind" ∷ "/" ∷ "/" ∷ "--bind" ∷ root ∷ root ∷ "--chdir" ∷ work_dir ∷ c.path
              ∷ c.args);
    }

unfoldable pub linux_command :
    Host → String → String → Bool → Command → Option String → Outcome Command
linux_command host root work_dir deny_network c none =
    err "local Linux isolation requires bubblewrap (bwrap)"
linux_command host root work_dir deny_network c (some bwrap) =
    ok (bwrap_command host root work_dir deny_network bwrap c)

-- `isolatedCommandFor`
unfoldable pub isolated_command_for : Host → String → String → Bool → Command → Outcome Command
isolated_command_for host root work_dir deny_network c =
    if str_eq host.goos "darwin"
    then ok record {
      path = "/usr/bin/sandbox-exec";
      args = "-p" ∷ darwin_profile root deny_network ∷ c.path ∷ c.args;
    }
    else if str_eq host.goos "linux"
    then linux_command host root work_dir deny_network c host.bwrap
    else err (text_append "local isolation is unsupported on " host.goos)

-- `maybeIsolate`
unfoldable pub maybe_isolate : Host → RunPlan → String → String → Command → Outcome Command
maybe_isolate host plan root work_dir c =
    if not plan.using_local_isolation
    then ok c
    else isolated_command_for host root work_dir plan.network_disabled c

-- `degradedNotes`
unfoldable pub degraded_notes : Bool → Bool → String → List String
degraded_notes deny_network write_restricted reason =
    (if deny_network then text_append "sandbox.network=deny requested but " reason ∷ [] else [])
    ++ (if write_restricted
        then text_append "sandbox.filesystem.write restriction requested but " reason ∷ []
        else [])

abbrev pub no_network_namespace : String
no_network_namespace =
    "sandbox.network=deny requested but bubblewrap could not create a network namespace in this environment; this run kept filesystem isolation but network access was not blocked"

abbrev pub no_bwrap : String
no_bwrap = "bubblewrap is not installed; this run was not isolated"

abbrev pub no_isolation : String
no_isolation =
    "bubblewrap could not set up its sandbox in this environment; this run was not isolated"

unfoldable pub bwrap_notes : Host → Bool → Bool → Option String → List String
bwrap_notes host deny_network write_restricted none =
    degraded_notes deny_network write_restricted no_bwrap
bwrap_notes host deny_network write_restricted (some bwrap) =
    if not host.isolation_supported
    then degraded_notes deny_network write_restricted no_isolation
    else if deny_network && not host.net_namespace_supported
    then no_network_namespace ∷ []
    else []

-- `localIsolationNotes`
unfoldable pub local_isolation_notes : Host → Bool → Bool → List String
local_isolation_notes host deny_network write_restricted =
    if not (str_eq host.goos "linux") || (not deny_network && not write_restricted)
    then []
    else bwrap_notes host deny_network write_restricted host.bwrap

-- `readScopeNotes`
unfoldable pub read_scope_notes : SandboxPolicy → List String
read_scope_notes p =
    if str_eq p.read_scope "manifest_paths"
    then "sandbox.filesystem.read=manifest_paths requested but gotorque does not read a manifest-declared path list; broad read access was granted instead, the same as repo_and_assets"
      ∷ []
    else if str_eq p.read_scope "none"
    then "sandbox.filesystem.read=none requested but gotorque cannot deny all reads without breaking process and library loading; broad read access was granted instead"
      ∷ []
    else []

-- `writeScopeNotes`
unfoldable pub write_scope_notes : SandboxPolicy → List String
write_scope_notes p =
    if str_eq p.write_scope "manifest_paths"
    then "sandbox.filesystem.write=manifest_paths requested but gotorque does not read a manifest-declared path list; writes were restricted to the run's temporary sandbox directory instead, the same as temp_only"
      ∷ []
    else []

-- `isolationNotes`
unfoldable pub isolation_notes : Host → RunPlan → SandboxPolicy → List String
isolation_notes host plan p =
    let restricted = not plan.filesystem_allowed in
    ((if plan.using_local_isolation
        then local_isolation_notes host plan.network_disabled restricted
        else [])
      ++ (if restricted then write_scope_notes p else []))
    ++ read_scope_notes p
