-- ===== src/Runner/Limits.antt =====
-- internal/runner/policy.go and runner.go: the memory limit around a command, the command that a run
-- prepares, and how its exit is judged.
use Prim.Native.String.{◌++◌ as text_append}
use gotorque.Prelude.{
  none, is_zero, some, int_eq, Option, String, Bool, not, ◌&&◌, List, [], ◌∷◌, ◌++◌, if◌then◌else◌,
  str_eq, ◌/◌, ℕ, ℤ, pos, negsuc, below_one, int_text, decimal, max,
}
use gotorque.Outcome.{Outcome, ok, ◌>>=◌}
use gotorque.Runner.Types.{ResourceLimits, SandboxPolicy, Host, RunPlan, Command, Prepared}
use gotorque.Runner.Command.{texts, maybe_isolate, isolation_notes}

-- `resourceLimitShell` and `resourceLimitExitCode`
abbrev pub resource_limit_shell : String
resource_limit_shell = "/bin/bash"

abbrev pub resource_limit_exit_code : ℕ
resource_limit_exit_code = 125

-- `processLimitNote`
unfoldable pub process_limit_note : ℤ → String
process_limit_note n =
    if below_one n
    then ""
    else texts (
        "sandbox.max_processes="
        ∷ int_text n
        ∷ " requested but not enforced: RLIMIT_NPROC is scoped per user account (not per process tree) and on Linux it counts threads, so bounding it can crash any multi-threaded process -- including the Go runtime itself -- without bounding this run's process tree; not enforced on any platform"
        ∷ [])

-- The size of an `int64` that is not negative.
abbrev size_of : ℤ → ℕ
size_of (pos n) = n
size_of (negsuc n) = 0

-- The limit that the shell sets, in KiB.
abbrev pub kib : ℤ → ℕ
kib bytes = max (size_of bytes / 1024) 1

-- `memoryLimitClause`: the clause and the note.
unfoldable pub memory_limit_clause : Host → ℤ → String × String
memory_limit_clause host bytes =
    if below_one bytes
    then ("", "")
    else if not (str_eq host.goos "linux")
    then (
      "",
      texts (
          "sandbox.max_memory_bytes="
          ∷ int_text bytes
          ∷ " requested but no virtual-memory rlimit is enforceable for an unprivileged process on "
          ∷ host.goos
          ∷ "; not enforced for this run"
          ∷ []),
    )
    else if not host.memory_limit_supported
    then (
      "",
      texts (
          "sandbox.max_memory_bytes="
          ∷ int_text bytes
          ∷ " requested but RLIMIT_AS could not be set in this environment; not enforced for this run"
          ∷ []),
    )
    else (
      texts (
          "ulimit -S -v "
          ∷ decimal (kib bytes)
          ∷ " || exit "
          ∷ decimal resource_limit_exit_code
          ∷ []),
      texts (
          "sandbox.max_memory_bytes="
          ∷ int_text bytes
          ∷ " enforced via the soft RLIMIT_AS (ulimit -S -v)"
          ∷ []),
    )

-- `appendNonEmpty`
unfoldable pub append_non_empty : List String → List String → List String
append_non_empty dst [] = dst
append_non_empty dst (v ∷ vs) =
    append_non_empty (if not (str_eq v "") then dst ++ v ∷ [] else dst) vs

-- `WrapWithResourceLimits`
unfoldable pub wrap_with_resource_limits : Host → ResourceLimits → Command → Prepared
wrap_with_resource_limits host limits c =
    let proc_note = process_limit_note limits.max_processes in
    let (mem_clause, mem_note) = memory_limit_clause host limits.max_memory_bytes in
    let notes = append_non_empty [] (proc_note ∷ mem_note ∷ []) in
    if str_eq mem_clause "" then record { command = c; notes = notes } else record {
      command = record {
        path = resource_limit_shell;
        args = "-c" ∷ text_append mem_clause "; exec \"$0\" \"$@\"" ∷ c.path ∷ c.args;
      };
      notes = notes;
    }

-- `prepareCommand`
unfoldable pub prepare_command :
    Host → SandboxPolicy → RunPlan → String → String → Command → Outcome Prepared
prepare_command host p plan root work_dir c =
    maybe_isolate host plan root work_dir c >>= λ isolated.
    let wrapped = wrap_with_resource_limits host p.limits isolated in
    ok record { command = wrapped.command; notes = isolation_notes host plan p ++ wrapped.notes }

-- `IsResourceLimitFailure`
unfoldable pub is_resource_limit_failure : String → ℤ → Bool
is_resource_limit_failure command_path exit_code =
    str_eq command_path resource_limit_shell && int_eq exit_code (pos resource_limit_exit_code)

-- `expectedExit`; an error that is nil is `none`.
unfoldable pub expected_exit : ℤ → ℤ → Option String → Option String
expected_exit expected got run_err =
    if is_zero expected then run_err else if int_eq got expected then none else elim run_err [
      | none ↦ some (
          texts (
            "exited with status "
            ∷ int_text got
            ∷ ", but the workload expects "
            ∷ int_text expected
            ∷ []))
      | some e ↦ some e
    ]

abbrev pub limit_failure : String
limit_failure =
    "the sandbox's memory rlimit (ulimit -S -v) could not be set for this run; it exited before the workload started rather than running unbounded"

-- How `Run` judges a finished command: its error, and the notes that it keeps.
unfoldable pub judge_run :
    String → ℤ → ℤ → Option String → List String → Option String × List String
judge_run command_path expected got run_err notes =
    if is_resource_limit_failure command_path got
    then (some limit_failure, notes ++ limit_failure ∷ [])
    else (expected_exit expected got run_err, notes)
