-- ===== src/Runner/Tests.antt =====
-- internal/runner: the theorems at a concrete environment and a concrete host.
use gotorque.Prelude.{
  String, true, false, not, ◌&&◌, Option, none, some, List, [], ◌∷◌, ◌≡◌, refl, if◌then◌else◌,
  str_eq, pos, cut_at,
}
use gotorque.Outcome.{Yields}
use gotorque.Runner.Environment.{EnvironmentPolicy, build_env}
use gotorque.Runner.Types.{SandboxPolicy, Host, Command}
use gotorque.Runner.Command.{run_plan, sandbox_options, filesystem_unrestricted}
use gotorque.Runner.Limits.{prepare_command}
use gotorque.Runner.Laws.Values.{or_else, value_of}
use gotorque.Runner.Laws.Environment.{set_value, passed_value, build_env-value_of}
use gotorque.Runner.Laws.Prepared.{Prepares, prepare-accounted, run_plan-guards}

abbrev policy : EnvironmentPolicy
policy = record { allow = "HOME" ∷ "LANG" ∷ []; passthrough = "LANG" ∷ "TERM" ∷ [] }

-- A harness's own environment.
abbrev harness : String → Option String
harness s = if str_eq s "LANG" then some "C" else if str_eq s "TOKEN" then some "secret" else none

abbrev same_name : String → String
same_name s = s

abbrev additional : List (String × String)
additional = ("GOTOOLCHAIN", "local") ∷ ("EXTRA", "1") ∷ []

build_env-value_of_example :
    value_of (build_env same_name harness policy ("HOME=/sandbox/home" ∷ []) additional) "LANG"
    ≡ or_else
        (set_value same_name policy additional "LANG")
        (or_else (value_of ("HOME=/sandbox/home" ∷ []) "LANG") (passed_value harness policy "LANG"))
unfolding cut_at
build_env-value_of_example =
    build_env-value_of same_name harness policy ("HOME=/sandbox/home" ∷ []) additional "LANG"
      (refl, (refl, (refl, (refl, tt)))) (refl, (refl, tt))

abbrev container : Host
container = record {
  goos = "linux";
  bwrap = some "/usr/bin/bwrap";
  isolation_supported = true;
  net_namespace_supported = false;
  memory_limit_supported = true;
}

abbrev strict : SandboxPolicy
strict = record {
  network_allowed = false;
  write_scope = "temp_only";
  read_scope = "none";
  environment = policy;
  limits = record { max_processes = pos 1; max_memory_bytes = pos 1073741824 };
}

abbrev workload : Command
workload = record { path = "/build/tool"; args = "--fast" ∷ [] }

prepare-accounted_example :
    Yields
      (Prepares container strict "/sandbox" "/sandbox/work" workload
        (true && not strict.network_allowed)
        (true && not (filesystem_unrestricted strict)))
      (prepare_command container strict (run_plan true strict) "/sandbox" "/sandbox/work" workload)
prepare-accounted_example =
    prepare-accounted container strict "/sandbox" "/sandbox/work" workload true

run_plan-guards_example :
    ((sandbox_options (run_plan true strict)).network ≡ false)
    × ((sandbox_options (run_plan true strict)).filesystem ≡ false)
run_plan-guards_example = run_plan-guards true strict
