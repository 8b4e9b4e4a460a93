-- ===== src/Runner/Laws/Prepared.antt =====
-- internal/runner/runner.go: the command that a run prepares, and the guards that its sandbox asks for.
use gotorque.Prelude.{
  ℤ, decimal, below_one, String, Bool, true, false, not, ◌&&◌, ◌||◌, List, [], ◌∷◌, ◌++◌, ◌≡◌, refl,
  arith, inl, inr, ◌⊎◌, str_eq, Bool-cases,
}
use Prim.Native.String.{◌++◌ as text_append}
use gotorque.Runner.Laws.Confinement.{bare}
use gotorque.Outcome.{Yields, Yields-map, Yields-bind}
use gotorque.Runner.Types.{Host, Command, Prepared, SandboxPolicy, ResourceLimits, RunPlan}
use gotorque.Runner.Command.{
  texts, isolated_command_for, maybe_isolate, isolation_notes, local_isolation_notes,
  write_scope_notes, read_scope_notes, run_plan, sandbox_options, filesystem_unrestricted,
}
use gotorque.Runner.Limits.{kib, memory_limit_clause, wrap_with_resource_limits, prepare_command}
use gotorque.Runner.Laws.Isolation.{Accounted, command-Accounted, Accounted-append}

not-not : (b : Bool) → not (not b) ≡ b
not-not true = refl
not-not false = refl

-- What the shell is told, to limit the memory and go on as the command behind it, or else to say that it
-- could not.
abbrev pub limit_script : ℤ → String
limit_script bytes =
    text_append (texts ("ulimit -S -v " ∷ decimal (kib bytes) ∷ " || exit " ∷ decimal 125 ∷ []))
      "; exec \"$0\" \"$@\""

-- A command runs another one: it is the same, or it is the shell that limits the memory and goes on as it.
abbrev pub Runs : ResourceLimits → Command → Command → Type 0
Runs limits inner outer =
    (outer ≡ inner)
    ⊎ (outer ≡ record {
      path = "/bin/bash";
      args = "-c" ∷ limit_script limits.max_memory_bytes ∷ inner.path ∷ inner.args;
    })

-- A limit is not set, or set by the clause that the script begins with.
clause-cases :
    (host : Host) (bytes : ℤ)
    → (str_eq (memory_limit_clause host bytes).0 "" ≡ true)
      ⊎ ((memory_limit_clause host bytes).0
          ≡ texts ("ulimit -S -v " ∷ decimal (kib bytes) ∷ " || exit " ∷ decimal 125 ∷ []))
unfolding memory_limit_clause
clause-cases host bytes = elim (Bool-cases (below_one bytes)) [
  | inl e ↦ rw e (inl refl)
  | inr e ↦ elim (Bool-cases (str_eq host.goos "linux")) [
    | inr f ↦ rw (e, f) (inl refl)
    | inl f ↦ elim (Bool-cases host.memory_limit_supported) [
      | inr g ↦ rw (e, f, g) (inl refl)
      | inl g ↦ rw (e, f, g) (inr refl)
    ]
  ]
]

wrap-Runs :
    (host : Host) (limits : ResourceLimits) (c : Command)
    → Runs limits c (wrap_with_resource_limits host limits c).command
unfolding wrap_with_resource_limits
wrap-Runs host limits c = elim (clause-cases host limits.max_memory_bytes) [
  | inl e ↦ rw e (inl refl)
  | inr set ↦ elim (Bool-cases (str_eq (memory_limit_clause host limits.max_memory_bytes).0 "")) [
    | inl e ↦ rw e (inl refl)
    | inr e ↦ rw (e, set) (inr refl)
  ]
]

-- The plan of a runner with local isolation, for what it denies.
abbrev plan_for : Bool → Bool → RunPlan
plan_for deny restricted = record {
  network_disabled = deny;
  filesystem_allowed = not restricted;
  using_local_isolation = deny || not (not restricted);
}

run_plan-plan_for :
    (local : Bool) (p : SandboxPolicy)
    → run_plan local p
      ≡ plan_for (local && not p.network_allowed) (local && not (filesystem_unrestricted p))
unfolding run_plan
run_plan-plan_for true p = rw (not-not (filesystem_unrestricted p)) refl
run_plan-plan_for false p = refl

module _ (host : Host) (p : SandboxPolicy) (root work_dir : String) (c : Command) where
  noted-Accounted :
      (deny restricted : Bool) (more : List String)
      → not deny && not restricted ≡ false
      → Yields
          (λ i.
            Accounted host root work_dir c deny restricted i
              ((local_isolation_notes host deny restricted ++ more) ++ read_scope_notes p))
          (isolated_command_for host root work_dir deny c)
  noted-Accounted deny restricted more h =
      let notes = local_isolation_notes host deny restricted in
      Yields-map
        (λ i accounted.
          Accounted-append host root work_dir c deny restricted i (notes ++ more)
            (read_scope_notes p)
            (Accounted-append host root work_dir c deny restricted i notes more accounted))
        (isolated_command_for host root work_dir deny c)
        (command-Accounted host root work_dir c deny restricted h)

  plan-Accounted :
      (deny restricted : Bool)
      → Yields
          (λ i.
            Accounted host root work_dir c deny restricted i
              (isolation_notes host (plan_for deny restricted) p))
          (maybe_isolate host (plan_for deny restricted) root work_dir c)
  unfolding maybe_isolate isolation_notes
  plan-Accounted false false = (false, false, bare, refl, refl, refl, refl)
  plan-Accounted true true = noted-Accounted true true (write_scope_notes p) refl
  plan-Accounted true false = noted-Accounted true false [] refl
  plan-Accounted false true = noted-Accounted false true (write_scope_notes p) refl

  -- What a run prepares for its plan: a command that the prepared one runs, and an account of what
  -- the plan denies.
  abbrev pub Prepares : Bool → Bool → Prepared → Type 0
  Prepares deny restricted out =
      (i : Command) × Runs p.limits i out.command
      × Accounted host root work_dir c deny restricted i out.notes

  prepared-Prepares :
      (deny restricted : Bool)
      → Yields
          (Prepares deny restricted)
          (prepare_command host p (plan_for deny restricted) root work_dir c)
  unfolding prepare_command
  prepared-Prepares deny restricted =
      let plan = plan_for deny restricted in
      Yields-bind
        (λ i. Accounted host root work_dir c deny restricted i (isolation_notes host plan p))
        (Prepares deny restricted) (maybe_isolate host plan root work_dir c) _
        (plan-Accounted deny restricted)
        λ i accounted. (
          i,
          wrap-Runs host p.limits i,
          Accounted-append host root work_dir c deny restricted i (isolation_notes host plan p)
              (wrap_with_resource_limits host p.limits i).notes accounted,
        )

  -- A run of a runner with local isolation prepares a command, at most wrapped in the shell that sets the memory
  -- limit and goes on as it. It is the workload's own, or runs it under the bubblewrap that was found or under
  -- `sandbox-exec`, which confine its writes to the root. The network is denied where the policy does not allow
  -- it, and only there, or a note says that it is not; writes are confined where the policy does not leave them
  -- free, or a note says that they are not; and where nothing is denied, as in a runner without local isolation,
  -- the command is the workload's own.
  pub prepare-accounted :
      (local : Bool)
      → Yields
          (Prepares (local && not p.network_allowed) (local && not (filesystem_unrestricted p)))
          (prepare_command host p (run_plan local p) root work_dir c)
  prepare-accounted local = rw (run_plan-plan_for local p) (
      prepared-Prepares (local && not p.network_allowed) (local && not (filesystem_unrestricted p)))

-- Whatever the policy denies, the sandbox of a run asks for no network guard and no filesystem guard.
pub run_plan-guards :
    (local : Bool) (p : SandboxPolicy)
    → ((sandbox_options (run_plan local p)).network ≡ false)
      × ((sandbox_options (run_plan local p)).filesystem ≡ false)
unfolding run_plan sandbox_options
run_plan-guards true p = (ground arith, ground arith)
run_plan-guards false p = (refl, refl)
