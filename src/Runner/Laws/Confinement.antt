-- ===== src/Runner/Laws/Confinement.antt =====
-- internal/runner/runner.go: what the commands that wrap a workload confine, told from what the programs make
-- of their arguments.
use Prim.Native.String.{◌++◌ as text_append}
use gotorque.Prelude.{String, Bool, true, false, Option, some, List, [], ◌∷◌, ◌≡◌}
use gotorque.Runner.Types.{Command}
use gotorque.Runner.Command.{escape_quotes}

-- Arguments with which bubblewrap runs a command: whether it leaves the network, and the trees that the command
-- can write to, which are those bound behind a read-only one.
pub data BwrapRuns (work_dir : String) (c : Command)
    : Bool → List String → List String → Type 0 where
  command : BwrapRuns work_dir c false [] (c.path ∷ c.args)
  die_with_parent :
      {net : Bool} {trees args : List String}
      → BwrapRuns work_dir c net trees args
      → BwrapRuns work_dir c net trees ("--die-with-parent" ∷ args)
  unshare_net :
      {net : Bool} {trees args : List String}
      → BwrapRuns work_dir c net trees args
      → BwrapRuns work_dir c true trees ("--unshare-net" ∷ args)
  chdir :
      {net : Bool} {trees args : List String}
      → BwrapRuns work_dir c net trees args
      → BwrapRuns work_dir c net trees ("--chdir" ∷ work_dir ∷ args)
  bind :
      {net : Bool} {trees args : List String} (tree : String)
      → BwrapRuns work_dir c net trees args
      → BwrapRuns work_dir c net (tree ∷ trees) ("--bind" ∷ tree ∷ tree ∷ args)
  ro_bind :
      {net : Bool} {trees args : List String} (tree : String)
      → BwrapRuns work_dir c net trees args
      → BwrapRuns work_dir c net trees ("--ro-bind" ∷ tree ∷ tree ∷ args)

-- A profile of `sandbox-exec` that denies writing but below the root, and one that denies the network too.
abbrev pub writes_below : String → String
writes_below root =
    text_append "(version 1)(allow default)(deny file-write*)(allow file-write* (subpath \""
      (text_append (escape_quotes root) (text_append "\"))" ""))

abbrev pub profile : String → Bool → String
profile root false = writes_below root
profile root true = text_append (writes_below root) "(deny network*)"

-- A command runs another one, with the bubblewrap that was found, with the network denied or not, and with its writes confined to a root or not.
pub data Confines (found : Option String) (root work_dir : String) (c : Command)
    : Bool → Bool → Command → Type 0 where
  bare : Confines found root work_dir c false false c
  bubblewrap :
      {net : Bool} {args : List String} (bwrap : String)
      → found ≡ some bwrap
      → BwrapRuns work_dir c net (root ∷ []) args
      → Confines found root work_dir c net true record { path = bwrap; args = args }
  seatbelt :
      (net : Bool)
      → Confines found root work_dir c net true record {
        path = "/usr/bin/sandbox-exec";
        args = "-p" ∷ profile root net ∷ c.path ∷ c.args;
      }
