-- ===== src/Discovery/Tests.antt =====
-- internal/discovery/hotlist.go: sample profiles, and the theorem at one of them.
use gotorque.Prelude.{String, List, [], ◌∷◌, ◌≡◌, refl, trim_space, cut_at}
use gotorque.Discovery.HotList.{
  Function, hot_function_names, hot_from, actionable_symbol, after_last_dot,
}
use gotorque.Discovery.Laws.{targets, distinct, at_most, hot_function_names-targets}

abbrev named : String → Function
named name = record { name = name }

abbrev profiled : List Function
profiled = named "runtime.gc" ∷ named " m.f" ∷ named "m.f" ∷ named "m.TestF" ∷ named "m.g" ∷ []

hot_function_names-targets_example :
    hot_function_names profiled 15 ≡ at_most 15 (distinct [] (targets profiled))
hot_function_names-targets_example = hot_function_names-targets profiled 15

two_named : hot_function_names profiled 15 ≡ "m.f" ∷ "m.g" ∷ []
unfolding hot_function_names hot_from actionable_symbol after_last_dot trim_space cut_at
two_named = refl

one_named : hot_function_names profiled 1 ≡ "m.f" ∷ []
unfolding hot_function_names hot_from actionable_symbol after_last_dot trim_space cut_at
one_named = refl
