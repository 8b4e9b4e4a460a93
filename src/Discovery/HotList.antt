-- ===== src/Discovery/HotList.antt =====
-- internal/discovery/hotlist.go: `hotFunctionNames` and the symbols that a change of the source can address.
use Prim.Native.Char.{code}
use text.Mathlib.Text.{starts_with}
use gotorque.Prelude.{
  ℕ, suc, String, Bool, true, false, not, ◌||◌, Option, none, some, List, [], ◌∷◌, if◌then◌else◌,
  str_eq, contains, trim_space, cut_at, ◌==◌,
}

-- Of a `Function` of a profile its name.
pub record Function : Type 0 where
  pub name : String

-- What stands behind the last dot of a text.
unfoldable pub after_last_dot : String → Option String
after_last_dot String.[] = none
after_last_dot (String.◌∷◌ c s) =
    let rest = after_last_dot s in
    elim rest [ none ↦ if code c == 46 then some s else none | some segment ↦ some segment ]

-- The index that `lastSegment` tests: there is a dot, which is not the last byte.
abbrev pub segment_or : String → Option String → String
segment_or name none = name
segment_or name (some segment) = if str_eq segment "" then name else segment

-- `lastSegment`
abbrev pub last_segment : String → String
last_segment name = segment_or name (after_last_dot name)

-- `isTestEntryPoint`
abbrev pub is_test_entry_point : String → Bool
is_test_entry_point segment =
    starts_with segment "Benchmark"
    || starts_with segment "Test"
    || starts_with segment "Fuzz"
    || starts_with segment "Example"

abbrev pub has_dot : Option (String × String) → Bool
has_dot none = false
has_dot (some parts) = true

-- `actionableSymbol`
unfoldable pub actionable_symbol : String → Bool
actionable_symbol name =
    if starts_with name "_"
    then false
    else if starts_with name "testing."
    then false
    else if is_test_entry_point (last_segment name)
    then false
    else has_dot (cut_at 46 name)

-- The condition under which `hotFunctionNames` goes on with the next function.
abbrev pub is_skipped : List String → String → Bool
is_skipped seen name =
    str_eq name ""
    || starts_with name "runtime."
    || contains seen name
    || not (actionable_symbol name)

-- The loop of `hotFunctionNames`, with the number of names so far and those that were seen.
unfoldable pub hot_from : ℕ → ℕ → List String → List Function → List String
hot_from limit count seen [] = []
hot_from limit count seen (fn ∷ rest) =
    let name = trim_space fn.name in
    let skipped = hot_from limit count seen rest in
    let taken = hot_from limit (suc count) (name ∷ seen) rest in
    if is_skipped seen name then skipped else if suc count == limit then name ∷ [] else name ∷ taken

-- `hotFunctionNames`
unfoldable pub hot_function_names : List Function → ℕ → List String
hot_function_names functions limit = hot_from limit 0 [] functions
