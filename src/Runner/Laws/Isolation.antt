-- ===== src/Runner/Laws/Isolation.antt =====
-- internal/runner/runner.go and policy.go: what a prepared command confines, or says that it does not.
use text.Mathlib.Text.{starts_with}
use gotorque.Prelude.{
  String, Bool, true, false, not, ◌&&◌, ◌||◌, Option, none, some, List, [], ◌∷◌, ◌++◌, ◌≡◌, refl,
  arith, inl, inr, str_eq, eq_iff, Bool-cases,
}
use gotorque.Outcome.{Yields}
use gotorque.Runner.Types.{Host, Command}
use gotorque.Runner.Laws.Confinement.{
  BwrapRuns, command, die_with_parent, unshare_net, chdir, bind, ro_bind, profile, Confines, bare,
  bubblewrap, seatbelt,
}
use gotorque.Runner.Command.{
  darwin_profile, bwrap_command, linux_command, isolated_command_for, degraded_notes, bwrap_notes,
  local_isolation_notes, no_isolation,
}

-- A note with a beginning.
abbrev pub mentions : String → List String → Bool
mentions prefix [] = false
mentions prefix (n ∷ ns) = starts_with n prefix || mentions prefix ns

mentions-append :
    (prefix : String) (xs ys : List String)
    → mentions prefix (xs ++ ys) ≡ (mentions prefix xs || mentions prefix ys)
mentions-append prefix [] ys = refl
mentions-append prefix (x ∷ xs) ys = rw (mentions-append prefix xs ys) (ground arith)

abbrev pub network_note : String
network_note = "sandbox.network=deny requested"

abbrev pub write_note : String
write_note = "sandbox.filesystem.write restriction requested"

or_middle : (a b : Bool) → (a || true || b) ≡ true
or_middle true b = refl
or_middle false b = refl

asked_for : (b : Bool) → not b ≡ false → b ≡ true
asked_for true h = refl
asked_for false h = cc

module _ (host : Host) (root work_dir : String) (c : Command) where
  -- What is asked for is enforced, or a note says that it is not; the network is denied only where that is asked
  -- for, and the command stays as it is where nothing is.
  abbrev pub Accounted : Bool → Bool → Command → List String → Type 0
  Accounted deny restricted i notes =
      (net : Bool) × (writes : Bool) × Confines host.bwrap root work_dir c net writes i
      × (not deny || net || mentions network_note notes ≡ true)
      × (not restricted || writes || mentions write_note notes ≡ true)
      × (not net || deny ≡ true)
      × (not writes || deny || restricted ≡ true)

  bare-Accounted :
      (deny restricted : Bool)
      → Accounted deny restricted c (degraded_notes deny restricted no_isolation)
  unfolding degraded_notes
  bare-Accounted true true = (false, false, bare, refl, refl, refl, refl)
  bare-Accounted true false = (false, false, bare, refl, refl, refl, refl)
  bare-Accounted false true = (false, false, bare, refl, refl, refl, refl)
  bare-Accounted false false = (false, false, bare, refl, refl, refl, refl)

  bound :
      BwrapRuns work_dir c false
        (root ∷ [])
        ("--ro-bind" ∷ "/" ∷ "/" ∷ "--bind" ∷ root ∷ root ∷ "--chdir" ∷ work_dir ∷ c.path ∷ c.args)
  bound = ro_bind "/" (bind root (chdir command))

  bwrap-Accounted :
      (isolation namespaces deny restricted : Bool) (bwrap : String)
      → host.bwrap ≡ some bwrap
      → host.isolation_supported ≡ isolation
      → host.net_namespace_supported ≡ namespaces
      → not deny && not restricted ≡ false
      → Accounted deny restricted
          (bwrap_command host root work_dir deny bwrap c)
          (bwrap_notes host deny restricted (some bwrap))
  unfolding bwrap_command bwrap_notes
  bwrap-Accounted false namespaces deny restricted bwrap w h k asked =
      rw h (bare-Accounted deny restricted)
  bwrap-Accounted true true true restricted bwrap w h k asked =
      rw (h, k)
        (
          true,
          true,
          bubblewrap bwrap w (die_with_parent (unshare_net bound)),
          refl,
          or_middle (not restricted) _,
          refl,
          refl,
        )
  bwrap-Accounted true false true restricted bwrap w h k asked =
      rw (h, k)
        (
          false,
          true,
          bubblewrap bwrap w (die_with_parent bound),
          refl,
          or_middle (not restricted) _,
          refl,
          refl,
        )
  bwrap-Accounted true namespaces false restricted bwrap w h k asked = rw h (
    false,
    true,
    bubblewrap bwrap w (die_with_parent bound),
    refl,
    or_middle (not restricted) _,
    refl,
    asked_for restricted asked,
  )

  darwin-profile : (deny : Bool) → darwin_profile root deny ≡ profile root deny
  unfolding darwin_profile
  darwin-profile true = refl
  darwin-profile false = refl

  darwin-Accounted :
      (deny restricted : Bool)
      → not deny && not restricted ≡ false
      → Accounted deny restricted
          record {
            path = "/usr/bin/sandbox-exec";
            args = "-p" ∷ darwin_profile root deny ∷ c.path ∷ c.args;
          }
          []
  darwin-Accounted true restricted asked =
      rw (darwin-profile true)
        (true, true, seatbelt true, refl, or_middle (not restricted) _, refl, refl)
  darwin-Accounted false restricted asked = rw (darwin-profile false) (
    false,
    true,
    seatbelt false,
    refl,
    or_middle (not restricted) _,
    refl,
    asked_for restricted asked,
  )

  linux-Accounted :
      (deny restricted : Bool) (o : Option String)
      → host.bwrap ≡ o
      → not deny && not restricted ≡ false
      → Yields
          (λ i. Accounted deny restricted i (bwrap_notes host deny restricted o))
          (linux_command host root work_dir deny c o)
  unfolding linux_command
  linux-Accounted deny restricted none w asked = tt
  linux-Accounted deny restricted (some bwrap) w asked =
      bwrap-Accounted host.isolation_supported host.net_namespace_supported deny restricted bwrap w
        refl refl asked

  pub command-Accounted :
      (deny restricted : Bool)
      → not deny && not restricted ≡ false
      → Yields
          (λ i. Accounted deny restricted i (local_isolation_notes host deny restricted))
          (isolated_command_for host root work_dir deny c)
  unfolding isolated_command_for local_isolation_notes
  command-Accounted deny restricted h = elim (Bool-cases (str_eq host.goos "darwin")) [
    | inl mac ↦ rw ((eq_iff host.goos "darwin").0 mac) (darwin-Accounted deny restricted h)
    | inr other ↦ elim (Bool-cases (str_eq host.goos "linux")) [
      | inl linux ↦ rw (other, linux, h) (linux-Accounted deny restricted host.bwrap refl h)
      | inr neither ↦ rw (other, neither) tt
    ]
  ]

  -- More notes account for what fewer do.
  pub Accounted-append :
      (deny restricted : Bool) (i : Command) (notes more : List String)
      → Accounted deny restricted i notes
      → Accounted deny restricted i (notes ++ more)
  Accounted-append deny restricted i notes more
        (net, writes, confined, network, writing, only, asked) =
      rw (mentions-append network_note notes more, mentions-append write_note notes more)
        (net, writes, confined, ground (arith, network), ground (arith, writing), only, asked)
