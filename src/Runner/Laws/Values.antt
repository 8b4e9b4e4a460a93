-- ===== src/Runner/Laws/Values.antt =====
-- internal/runner/policy.go and runner.go: the value that a variable has in a process,
-- and entries for names.
use Prim.Native.String.{◌++◌ as text_append}
use gotorque.Prelude.{
  String, Bool, true, false, not, ◌&&◌, ◌||◌, Option, none, some, List, [], ◌∷◌, ◌++◌,
  if◌then◌else◌, ◌≡◌, refl, sym, ◌∙◌, arith, inl, inr, str_eq, eq_iff, Bool-cases, All, contains,
  cut_at, ◌==◌,
}
use Prim.Native.Char.{Char, code}
use Prim.Native.String.append
use gotorque.Runner.Environment.{entry, add_key, env_keys, names_from, put_entry}

-- The first of two options that is there.
abbrev pub or_else : {A : Type 0} → Option A → Option A → Option A
or_else (some a) y = some a
or_else none y = y

-- What an entry gives to a variable.
abbrev pub pick : String → Option (String × String) → Option String
pick s none = none
pick s (some (name, value)) = if str_eq name s then some value else none

-- The value that a variable has in a process: of two entries of one name the last counts.
unfoldable pub value_of : List String → String → Option String
value_of [] s = none
value_of (kv ∷ env) s = or_else (value_of env s) (pick s (cut_at b'=' kv))

-- A variable's name has no `=`.
abbrev pub IsName : String → Type 0
IsName name = cut_at b'=' name ≡ none

or_else_assoc : {A : Type 0} (x y z : Option A) → or_else (or_else x y) z ≡ or_else x (or_else y z)
or_else_assoc none y z = refl
or_else_assoc (some a) y z = refl

or_else-none : {A : Type 0} (x : Option A) → or_else x none ≡ x
or_else-none none = refl
or_else-none (some a) = refl

pub value_of-append :
    (xs ys : List String) (s : String)
    → value_of (xs ++ ys) s ≡ or_else (value_of ys s) (value_of xs s)
unfolding value_of
value_of-append [] ys s = sym (or_else-none (value_of ys s))
value_of-append (x ∷ xs) ys s =
    rw (value_of-append xs ys s)
      (or_else_assoc (value_of ys s) (value_of xs s) (pick s (cut_at b'=' x)))

-- A cut goes on after a first character.
abbrev after_first : Bool → Char → String → Option (String × String) → Option (String × String)
after_first found c s rest =
    if found
    then some ("", s)
    else elim rest [ none ↦ none | some (before, after) ↦ some (String.◌∷◌ c before, after) ]

-- A first character that is kept is not the one to cut at.
kept_first :
    (found : Bool) (c : Char) (s : String) (rest : Option (String × String))
    → after_first found c s rest ≡ none
    → (found ≡ false) × (rest ≡ none)
kept_first true c s rest h = cc
kept_first false c s none h = (refl, refl)
kept_first false c s (some p) h = cc

cut_at-entry :
    (name value : String) → IsName name → cut_at b'=' (entry name value) ≡ some (name, value)
unfolding cut_at
cut_at-entry String.[] value h =
    rw (append.nil (text_append "=" value), append.cons "=" "" value, append.nil value) refl
cut_at-entry (String.◌∷◌ c name) value h =
    let (other, rest) = kept_first (code c == b'=') c name (cut_at b'=' name) h in
    rw (append.cons c name (text_append "=" value), other, cut_at-entry name value rest) refl

-- What a cut entry gives beside the entries after it.
reserved_pick :
    (s : String) (o : Option (String × String)) (ks : List String)
    → contains (add_key o ks) s ≡ false
    → (pick s o ≡ none) × (contains ks s ≡ false)
reserved_pick s none ks h = (refl, h)
reserved_pick s (some (key, value)) ks h = elim (Bool-cases (str_eq key s)) [
  | inl e ↦ cc
  | inr e ↦ (rw e refl, ground (arith, h, e))
]

pub unreserved-value_of :
    (env : List String) (s : String) → contains (env_keys env) s ≡ false → value_of env s ≡ none
unfolding env_keys value_of
unreserved-value_of [] s h = refl
unreserved-value_of (kv ∷ env) s h =
    let (mine, rest) = reserved_pick s (cut_at b'=' kv) (env_keys env) h in
    rw (unreserved-value_of env s rest, mine) refl

reserved_value :
    (s : String) (o : Option (String × String)) (ks : List String) (later : Option String)
    → (contains ks s ≡ true → (v : String) × (later ≡ some v))
    → contains (add_key o ks) s ≡ true
    → (v : String) × (or_else later (pick s o) ≡ some v)
reserved_value s o ks (some v) k h = (v, refl)
reserved_value s none ks none k h = k h
reserved_value s (some (key, value)) ks none k h = elim (Bool-cases (str_eq key s)) [
  | inl e ↦ (value, rw e refl)
  | inr e ↦ let (v, q) = k (ground (arith, h, e)) in cc
]

pub reserved-value_of :
    (env : List String) (s : String)
    → contains (env_keys env) s ≡ true
    → (v : String) × (value_of env s ≡ some v)
unfolding env_keys value_of
reserved-value_of [] s h = cc
reserved-value_of (kv ∷ env) s h =
    reserved_value s (cut_at b'=' kv) (env_keys env) (value_of env s) (reserved-value_of env s) h

-- Entries for the names that are not skipped and have a value.
abbrev pub emitted : (String → Bool) → (String → Option String) → List String → List String
emitted skip source [] = []
emitted skip source (name ∷ names) =
    let rest = emitted skip source names in
    if skip name then rest else put_entry name (source name) rest

put_entry-value_of :
    (name : String) (o : Option String) (env : List String) (s : String)
    → IsName name
    → value_of (put_entry name o env) s
      ≡ or_else (value_of env s) (if str_eq name s then o else none)
unfolding value_of
put_entry-value_of name none env s h = elim (Bool-cases (str_eq name s)) [
  | inl e ↦ rw (e, or_else-none (value_of env s)) refl
  | inr e ↦ rw (e, or_else-none (value_of env s)) refl
]
put_entry-value_of name (some value) env s h = rw (cut_at-entry name value h) refl

-- A value that is offered twice.
offered_again :
    {A : Type 0} (later skipped : Bool) (x : Option A)
    → (if not skipped
        then or_else (if later && not skipped then x else none) x
        else (if later && not skipped then x else none))
      ≡ (if not skipped then x else none)
offered_again true true x = refl
offered_again false true x = refl
offered_again true false none = refl
offered_again true false (some a) = refl
offered_again false false x = refl

module _ (skip : String → Bool) (source : String → Option String) (s : String) where
  emitted_step :
      (name : String) (env : List String)
      → IsName name
      → value_of (if skip name then env else put_entry name (source name) env) s ≡ (
          if str_eq name s && not (skip name)
          then or_else (value_of env s) (source name)
          else value_of env s)
  emitted_step name env h = elim (Bool-cases (skip name)) [
    | inl k ↦ rw k (ground arith)
    | inr k ↦
        rw (k, put_entry-value_of name (source name) env s h)
          (elim (Bool-cases (str_eq name s)) [
            | inl e ↦ rw e refl
            | inr e ↦ rw (e, or_else-none (value_of env s)) refl
          ])
  ]

  pub emitted-value_of :
      (names : List String)
      → All IsName names
      → value_of (emitted skip source names) s
        ≡ (if contains names s && not (skip s) then source s else none)
  unfolding value_of
  emitted-value_of [] h = refl
  emitted-value_of (name ∷ names) (p, h) =
      emitted_step name (emitted skip source names) p
      ∙ rw (emitted-value_of names h) (elim (Bool-cases (str_eq name s)) [
        | inl e ↦ rw (e, (eq_iff name s).0 e) (offered_again (contains names s) (skip s) (source s))
        | inr e ↦ rw e refl
      ])

pub names_from-contains :
    (seen names : List String) (s : String)
    → contains (names_from seen names) s
      ≡ (contains names s && not (str_eq s "") && not (contains seen s))
unfolding names_from
names_from-contains seen [] s = refl
names_from-contains seen (name ∷ names) s = ground (
  arith,
  names_from-contains seen names s,
  names_from-contains (name ∷ seen) names s,
  eq_iff name s,
)

pub names_from-All :
    (P : String → Type 0) (seen names : List String) → All P names → All P (names_from seen names)
unfolding names_from
names_from-All P seen [] h = tt
names_from-All P seen (name ∷ names) (p, h) =
    elim (Bool-cases (str_eq name "" || contains seen name)) [
      | inl e ↦ rw e (names_from-All P seen names h)
      | inr e ↦ rw e (p, names_from-All P (name ∷ seen) names h)
    ]
