-- ===== src/Lib.antt =====
-- The verification library of gotorque: the parts of the program that decide, as definitions that
-- compute, with the theorems that make them correct.
--
-- gotorque looks for performance improvements of a Go program. A campaign repeats a cycle: an analyst
-- model flags targets, an optimizer model proposes a patch for one of them, the bench builds and
-- measures the candidate, the policy gives a verdict on the measurements, a reviewer model comments,
-- and the verdict is counted and settled in a journal. The campaign ends at a bound or when no target
-- is left, and a later campaign resumes from the journal.
--
-- Files and what they model:
--   Domain            internal/domain/types.go: `Decision` and `MetricComparison`
--   Float64           float64 as an interface: the comparisons, the arithmetic and the formatting that
--                     the code uses; Float64/Fixed fills it with fixed-point numbers for the tests
--   Policy            internal/policy/policy.go. Types: `Config`, `Evidence`, `Result`, `withDefaults`;
--                     Reasons: the texts; Readings: sorting and indexing comparisons, limits;
--                     Improvement: `bestImprovement`, `decideOnImprovement`, `eligiblePrimary`;
--                     Guardrails: `checkGuardrails` and replication; Stress: the stress readings;
--                     Evaluate: `evidenceGates`, `Evaluate`; Triggers: what is to be measured again
--   Policy/Laws       what is proved of the policy
--   Orchestrator      internal/orchestrator. Types: types.go and the data of
--                     internal/agents/types.go; Bounds: config.go; Ledger: ledger.go;
--                     Termination: termination.go;
--                     Targets: `planTarget` and what it calls; Nodes: the nodes of the campaign graph of
--                     orchestrator.go, one function each; Campaign: the edges of the graph, as loops
--   Orchestrator/Laws what is proved of a campaign
--   Candidate         internal/candidate/normalize.go. Hunks: the lines of a hunk's body; Header: the
--                     starts and the header of a hunk; Normalize: `NormalizeUnifiedDiff`; Laws, Counts,
--                     Header/RoundTrip, Normalize/Trail, Normalize/Rules and Normalize/Sections: what is
--                     proved of them
--   Manifest          internal/manifest. Tradeoff: `ResolveTradeoff` and `Apply` of tradeoff.go and what
--                     they call, over the performance block of types.go; Validate: `ApplyDefaults` and
--                     `semanticProblems` of types.go and what they call
--   Runner            internal/runner. Environment: `BuildEnv` of policy.go and `mapEnvironment`; Command:
--                     the plan of a run, isolation and its notes; Limits: the memory limit,
--                     `prepareCommand` and the judgement of an exit
--   Campaign          internal/campaign. Quiet: the wait of loadavg.go; Paired and Columns: the table of
--                     `exactSignedRankP`, `pairedValues` and `pairDifferences` in paired.go; History: history.go and
--                     `recordedCandidates` of adk.go; Acceptance: `policyConfigFromManifest` of
--                     adk.go; Settle: `settle` of adk.go
--   Discovery         internal/discovery/hotlist.go. HotList: `hotFunctionNames` and what it calls
--   Outcome           a result or an error, and runs on fuel
--   Prelude           names of the libraries, passed on, with tests on numbers, predicates on lists and
--                     the texts
--   Tests             in each of the parts: sample runs, and the theorems at concrete inputs
--
-- The policy is a function of its configuration and the evidence; `none` stands for the panic of an
-- index out of range. A node of the graph takes the state and what the outside answers (a model role, the
-- bench) as an input, and gives the next state with a route, or the error that ends the run: the engine
-- that runs the graph, the model providers and the bench are arguments of the model. The texts of errors
-- leave out the values that they quote.
--
-- The loops of the graph run on fuel. A cycle has the fuel of two asks of the optimizer: the one re-ask
-- sets the cause that rules out another. A campaign has that of the configured number of candidates:
-- every cycle that goes on has counted one, and the bound on them ends it.
-- The loop of `keepHunkLines` has the fuel of one more than the lines of the body, of which each round
-- takes one at least. `NormalizeUnifiedDiff` has that of one more than the
-- lines of the patch. The wait for a quiet machine has fuel for one round more than the polls that fill
-- its limit.
--
-- A trade-off that `Apply` lays over a performance block reaches the policy through
-- `policyConfigFromManifest`; the history of earlier campaigns reaches the graph as the prior targets of
-- the request; a verdict that the graph settles becomes a record, which a resumed campaign reads. `filepath.Base`, `filepath.Abs`,
-- `filepath.IsAbs`, `filepath.Clean`, `regexp.Compile`, `os.LookupEnv`, `strconv.ParseFloat`, `LoadReport` and
-- what the host can do are arguments of the definitions that use them. Durations and counts of the wait
-- are natural numbers: they stay far below the bound of an int64.
--
-- Not modelled: the engine of the campaign (builds, benchmarks, git), the model providers and their
-- transport, the rest of patch handling, the statistics that give the readings beyond those columns and that table,
-- the rest of discovery, profiles, the loading of manifests, the processes and directories of the runner, the command
-- line, and the JSON form of the state in its session. The numbers of the readings are not interpreted beyond
-- what the interface Float64 gives.
pub mod Prelude
pub mod Outcome
pub mod Float64
pub mod Domain
pub mod Policy
pub mod Orchestrator
pub mod Candidate
pub mod Manifest
pub mod Runner
pub mod Campaign
pub mod Discovery
