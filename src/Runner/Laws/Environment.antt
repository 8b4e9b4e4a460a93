-- ===== src/Runner/Laws/Environment.antt =====
-- internal/runner/policy.go and runner.go: `BuildEnv` against the value that each variable has in
-- the process.
use gotorque.Prelude.{
  String, Bool, not, ◌&&◌, ◌||◌, Option, none, List, [], ◌∷◌, ◌++◌, if◌then◌else◌, ◌≡◌, refl, sym,
  ap, ◌∙◌, arith, inl, inr, str_eq, eq_iff, Bool-cases, keep-cons, All, contains, contains-sort,
  contains-keys, sort-All, lookup, lookup-absent, has_key, keys, sort_texts,
}
use gotorque.Runner.Environment.{
  EnvironmentPolicy, infrastructure_env, env_keys, names_from, passthrough_names,
  filter_additional_env, map_keys, map_environment, pass_names, build_env,
}
use gotorque.Runner.Laws.Values.{
  or_else, value_of, IsName, value_of-append, unreserved-value_of, reserved-value_of, emitted,
  emitted-value_of, names_from-contains, names_from-All,
}

module _ (base_name : String → String) (lookup_env : String → Option String) where
  pass_names-emitted :
      (reserved names : List String)
      → pass_names base_name lookup_env reserved names
        ≡ emitted (contains reserved) lookup_env names
  unfolding pass_names
  pass_names-emitted reserved [] = refl
  pass_names-emitted reserved (name ∷ names) = rw (pass_names-emitted reserved names) refl

  abbrev unwritable : String → Bool
  unwritable key = str_eq key "" || not (str_eq (base_name key) key)

  map_keys-emitted :
      (values : List (String × String)) (names : List String)
      → map_keys base_name values names ≡ emitted unwritable (λ key. lookup key values) names
  unfolding map_keys
  map_keys-emitted values [] = refl
  map_keys-emitted values (name ∷ names) = rw (map_keys-emitted values names) refl

  map_environment-value_of :
      (values : List (String × String)) (s : String)
      → All IsName (keys values)
      → value_of (map_environment base_name values) s
        ≡ (if not (unwritable s) then lookup s values else none)
  unfolding map_environment
  map_environment-value_of values s h =
      ap (λ env. value_of env s) (map_keys-emitted values (sort_texts (keys values)))
      ∙ emitted-value_of unwritable (λ key. lookup key values) s (sort_texts (keys values))
          (sort-All IsName (keys values) h)
      ∙ rw (contains-sort (keys values) s, contains-keys values s)
          (elim (Bool-cases (has_key values s)) [
            | inl e ↦ rw e refl
            | inr e ↦ rw (e, lookup-absent values s e) (ground arith)
          ])

module _ (policy : EnvironmentPolicy) where
  -- The variables that a caller may set.
  abbrev pub may_set : String → Bool
  may_set name = infrastructure_env name || contains policy.allow name

  filter-lookup :
      (additional : List (String × String)) (s : String)
      → lookup s (filter_additional_env policy additional)
        ≡ (if may_set s then lookup s additional else none)
  unfolding filter_additional_env
  filter-lookup [] s = ground arith
  filter-lookup ((k, v) ∷ m) s = elim (Bool-cases (may_set k)) [
    | inl e ↦
        rw (keep-cons (λ (e : String × String). may_set e.0) (k, v) m, e, filter-lookup m s)
          (elim (Bool-cases (str_eq k s)) [
            | inl same ↦ rw (same, sym (ap may_set ((eq_iff k s).0 same)), e) refl
            | inr other ↦ rw other refl
          ])
    | inr e ↦
        rw (keep-cons (λ (e : String × String). may_set e.0) (k, v) m, e, filter-lookup m s)
          (elim (Bool-cases (str_eq k s)) [
            | inl same ↦ rw (same, sym (ap may_set ((eq_iff k s).0 same)), e) refl
            | inr other ↦ rw other refl
          ])
  ]

  filter-All :
      (P : String → Type 0) (additional : List (String × String))
      → All P (keys additional)
      → All P (keys (filter_additional_env policy additional))
  unfolding filter_additional_env
  filter-All P [] h = tt
  filter-All P ((k, v) ∷ m) (p, h) = elim (Bool-cases (may_set k)) [
    | inl e ↦
        rw (keep-cons (λ (e : String × String). may_set e.0) (k, v) m, e) (p, filter-All P m h)
    | inr e ↦ rw (keep-cons (λ (e : String × String). may_set e.0) (k, v) m, e) (filter-All P m h)
  ]

-- The value that the harness passes to a variable, and the one that a caller sets.
abbrev pub passed_value : (String → Option String) → EnvironmentPolicy → String → Option String
passed_value lookup_env policy s =
    if contains (policy.allow ++ policy.passthrough) s && not (str_eq s "")
    then lookup_env s
    else none

abbrev pub set_value :
    (String → String) → EnvironmentPolicy → List (String × String) → String → Option String
set_value base_name policy additional s =
    if may_set policy s && not (str_eq s "") && str_eq (base_name s) s
    then lookup s additional
    else none

module _ (base_name : String → String) (lookup_env : String → Option String) where
  -- What passes through is hidden by the base.
  passed-value_of :
      (policy : EnvironmentPolicy) (base : List String) (s : String)
      → All IsName (policy.allow ++ policy.passthrough)
      → or_else
          (value_of (pass_names base_name lookup_env (env_keys base) (passthrough_names policy)) s)
          (value_of base s)
        ≡ or_else (value_of base s) (passed_value lookup_env policy s)
  unfolding passthrough_names
  passed-value_of policy base s h =
      let names = policy.allow ++ policy.passthrough in
      rw
        (
          pass_names-emitted base_name lookup_env (env_keys base) (names_from [] names),
          emitted-value_of (contains (env_keys base)) lookup_env s (names_from [] names)
              (names_from-All IsName [] names h),
          names_from-contains [] names s,
        )
        (elim (Bool-cases (contains (env_keys base) s)) [
          | inl e ↦ let (v, q) = reserved-value_of base s e in rw (e, q) (ground arith)
          | inr e ↦ rw (e, unreserved-value_of base s e) (ground arith)
        ])

  -- In the process each variable has the value that the caller sets, where the policy or the
  -- infrastructure lets the caller set it under a name that is a base name; else the sandbox's own;
  -- else the harness's, where the policy names it; and else none.
  pub build_env-value_of :
      (policy : EnvironmentPolicy) (base : List String) (additional : List (String × String))
      (s : String)
      → All IsName (policy.allow ++ policy.passthrough)
      → All IsName (keys additional)
      → value_of (build_env base_name lookup_env policy base additional) s
        ≡ or_else
            (set_value base_name policy additional s)
            (or_else (value_of base s) (passed_value lookup_env policy s))
  unfolding build_env
  build_env-value_of policy base additional s h k =
      let passed = pass_names base_name lookup_env (env_keys base) (passthrough_names policy) in
      let kept = filter_additional_env policy additional in
      value_of-append (base ++ passed) (map_environment base_name kept) s
      ∙ rw
          (
            value_of-append base passed s,
            passed-value_of policy base s h,
            map_environment-value_of base_name lookup_env kept s
                (filter-All policy IsName additional k),
            filter-lookup policy additional s,
          )
          (ground arith)
