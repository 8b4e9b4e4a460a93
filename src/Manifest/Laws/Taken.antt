-- ===== src/Manifest/Laws/Taken.antt =====
-- internal/manifest/types.go: which manifests are taken once they are filled with the defaults, as `Load` does
-- with them.
use text.Mathlib.Text.{starts_with}
use gotorque.Prelude.{
  String, Bool, true, not, ◌&&◌, ◌||◌, List, [], ◌∷◌, str_eq, is_empty, trim_space,
}
use gotorque.Float64.{Float64}
use gotorque.Manifest.Validate.{SeedWorkload, Stream, Manifest}
use gotorque.Manifest.Laws.Validate.{ids, no_repeat, is_tier}
use gotorque.Manifest.Laws.Semantics.{sandbox_fits}
use gotorque.Manifest.Laws.Load.{discovery_allowed, performance_allowed, campaign_allowed}

-- The modes of a stream.
abbrev pub is_mode : String → Bool
is_mode m =
    str_eq "exact" m
    || str_eq "trim_trailing_whitespace" m
    || str_eq "lines_sorted" m
    || str_eq "json" m
    || str_eq "ignore" m

module _ (is_abs : String → Bool) (clean : String → String) where
  -- A relative path that does not lead out of the directory that it is in, and is not that directory.
  abbrev pub is_inside : String → Bool
  is_inside path =
      not (str_eq path "")
      && not (is_abs path)
      && not (str_eq (clean path) ".")
      && not (starts_with (clean path) "../")
      && not (str_eq (clean path) "..")

  abbrev pub are_inside : List String → Bool
  are_inside [] = true
  are_inside (file ∷ rest) = is_inside file && are_inside rest

  abbrev pub seeds_allowed : List SeedWorkload → Bool
  seeds_allowed [] = true
  seeds_allowed (s ∷ rest) = (is_tier s.tier && are_inside s.files) && seeds_allowed rest

  -- A target with a name that is built inside its repository.
  abbrev pub target_allowed : {F : Type 0} → Manifest F → Bool
  target_allowed m =
      (((str_eq m.version "" || str_eq m.version "v1") && not (str_eq (trim_space m.name) ""))
        && (not (str_eq (trim_space m.repository) "")
            && not (str_eq (trim_space m.build_package) "")
            && not (str_eq (trim_space m.build_binary) "")))
      && (str_eq m.build_directory "" || is_inside m.build_directory)

  module _ (compiles : String → Bool) where
    abbrev pub all_patterns : List String → Bool
    all_patterns [] = true
    all_patterns (p ∷ ps) = compiles p && all_patterns ps

    -- A stream with a mode that there is and patterns that compile.
    abbrev pub stream_allowed : Stream → Bool
    stream_allowed s = is_mode s.mode && all_patterns s.patterns

    abbrev pub files_allowed : List Stream → Bool
    files_allowed [] = true
    files_allowed (f ∷ fs) = (is_inside f.path && stream_allowed f) && files_allowed fs

module _ (is_abs : String → Bool) (clean : String → String) (compiles : String → Bool) {F : Type 0}
    ⦃fl : Float64 F⦄ where
  -- What a manifest has to say, where it may leave out what the defaults give.
  abbrev pub is_allowed : Manifest F → Bool
  is_allowed m =
      ((((((target_allowed is_abs clean m
                  && (not (is_empty m.seeds)
                      && (no_repeat (ids m.seeds) && seeds_allowed is_abs clean m.seeds)))
                && discovery_allowed m)
              && sandbox_fits m.sandbox)
            && performance_allowed m.performance m.optimization_policy)
          && campaign_allowed m.campaign)
        && ((stream_allowed is_abs clean compiles m.stdout
              && stream_allowed is_abs clean compiles m.stderr)
            && files_allowed is_abs clean compiles m.files))
