-- ===== src/Runner/Laws/Exit.antt =====
-- internal/runner/runner.go: how the exit of a run is judged.
use gotorque.Prelude.{String, Bool, true, false, Option, none, some}

abbrev pub succeeded : Option String → Bool
succeeded none = true
succeeded (some e) = false
