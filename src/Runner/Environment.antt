-- ===== src/Runner/Environment.antt =====
-- internal/runner/policy.go and runner.go: the environment variables that a workload's process gets.
-- `filepath.Base` and `os.LookupEnv` are parameters.
use Prim.Native.String.{◌++◌ as text_append}
use gotorque.Prelude.{
  String, Bool, not, ◌||◌, Option, none, some, List, [], ◌∷◌, ◌++◌, if◌then◌else◌, str_eq, keep,
  contains, lookup, keys, sort_texts, cut_at,
}

-- `EnvironmentPolicy`
pub record EnvironmentPolicy : Type 0 where
  pub allow : List String
  pub passthrough : List String

-- `infrastructureEnv`
abbrev pub infrastructure_env : String → Bool
infrastructure_env name = str_eq name "GOTOOLCHAIN"

-- `name+"="+value`
abbrev pub entry : String → String → String
entry name value = text_append name (text_append "=" value)

abbrev pub add_key : Option (String × String) → List String → List String
add_key none names = names
add_key (some (key, value)) names = key ∷ names

-- `envKeys`
unfoldable pub env_keys : List String → List String
env_keys [] = []
env_keys (kv ∷ env) = add_key (cut_at b'=' kv) (env_keys env)

-- The loop of `passthroughNames`, with the names that it has seen.
unfoldable pub names_from : List String → List String → List String
names_from seen [] = []
names_from seen (name ∷ names) =
    let skipped = names_from seen names in
    let taken = names_from (name ∷ seen) names in
    if str_eq name "" || contains seen name then skipped else name ∷ taken

-- `passthroughNames`
unfoldable pub passthrough_names : EnvironmentPolicy → List String
passthrough_names policy = names_from [] (policy.allow ++ policy.passthrough)

-- `filterAdditionalEnv`
unfoldable pub filter_additional_env :
    EnvironmentPolicy → List (String × String) → List (String × String)
filter_additional_env policy additional =
    keep (λ (e : String × String). infrastructure_env e.0 || contains policy.allow e.0) additional

-- An entry of a variable, if it has a value.
abbrev pub put_entry : String → Option String → List String → List String
put_entry name none env = env
put_entry name (some value) env = entry name value ∷ env

module _ (base_name : String → String) where
  -- The loop of `mapEnvironment` over the sorted keys.
  unfoldable pub map_keys : List (String × String) → List String → List String
  map_keys values [] = []
  map_keys values (key ∷ names) =
      let rest = map_keys values names in
      if str_eq key "" || not (str_eq (base_name key) key)
      then rest
      else put_entry key (lookup key values) rest

  -- `mapEnvironment`
  unfoldable pub map_environment : List (String × String) → List String
  map_environment values = map_keys values (sort_texts (keys values))

  module _ (lookup_env : String → Option String) where
    -- The loop of `BuildEnv` over the passed names.
    unfoldable pub pass_names : List String → List String → List String
    pass_names reserved [] = []
    pass_names reserved (name ∷ names) =
        let rest = pass_names reserved names in
        if contains reserved name then rest else put_entry name (lookup_env name) rest

    -- `BuildEnv`
    unfoldable pub build_env :
        EnvironmentPolicy → List String → List (String × String) → List String
    build_env policy base additional =
        (base ++ pass_names (env_keys base) (passthrough_names policy))
        ++ map_environment (filter_additional_env policy additional)
