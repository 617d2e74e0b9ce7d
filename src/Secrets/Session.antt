-- ===== src/Secrets/Session.antt =====
-- pkg/secrets/session.go: `PrepareReferences`, `ready` and `materializeReference`. The resolver, the
-- clock and the errors of the context are those of a world `W`. The resolver runs beside other
-- goroutines: it returns the redactor as it is behind the call.
pub mod Laws
pub mod Prepared
use c2j.Prelude.{
  ℕ, zero, suc, ◌+◌, ◌-◌, String, Bool, true, false, not, ◌&&◌, ◌||◌, Option, none, some, List, [],
  ◌∷◌, ◌++◌,
}
use c2j.Prelude.{
  Bytes, ltb, length, contains, string_eq, is_nil, lookup, Result, ok, err, if◌then◌else◌, ◌==◌,
}
use c2j.Secrets.Redactor.{Redactor, add}

-- pkg/secrets/reference.go; `D` is a default value.
pub record Reference (D : Type 0) : Type 0 where
  pub name : String
  pub fallback : Option D
  pub omit_if_unavailable : Bool
  pub required : Bool

-- `jobdb.SecretValue`; `T` stands for a time.
pub record SecretValue (T : Type 0) : Type 0 where
  pub value : Bytes
  pub expires_at : Option T

abbrev pub Values : Type 0 → Type 0
Values T = List (String × SecretValue T)

pub data Error (E : Type 0) : Type 0 where
  lease_lost : Error E
  no_secret_provider : Error E
  resolution_unavailable : Error E
  required_unavailable : Error E
  setup_required : Error E
  context_error : E → Error E

-- How a resolver fails: `IsExecutionLeaseLost`, `ErrNoSecretProvider`, or in another way.
pub data ResolveError : Type 0 where
  lost no_provider other : ResolveError

pub record Session (T : Type 0) : Type 0 where
  pub values : Values T
  pub closed : Bool

pub data Resolved (T : Type 0) : Type 0 where
  secrets : Values T → Resolved T
  failed : ResolveError → Resolved T

abbrev pub Resolver : Type 0 → Type 0 → Type 0
Resolver W T = List String → Redactor → W → Resolved T × Redactor × W

pub record Clock (W T E : Type 0) : Type 0 where
  -- `!time.Now().Before(t)`
  pub passed : W → T → Bool
  -- `ctx.Err()`
  pub context_err : W → Option E

pub record Env (W T : Type 0) : Type 0 where
  pub session : Session T
  pub redactor : Redactor
  pub world : W

-- The names to resolve: each once, in the order of the references.
unfoldable pub names_of : {D : Type 0} → List String → List (Reference D) → List String
names_of seen [] = []
names_of seen (r ∷ rs) =
    if (r.name == "") || contains seen r.name
    then names_of seen rs
    else r.name ∷ names_of (r.name ∷ seen) rs

abbrev pub is_none : {A : Type 0} → Option A → Bool
is_none none = true
is_none (some a) = false

-- `ref.Default == nil && (!ref.OmitIfUnavailable || ref.Required)`
abbrev pub is_strict : {D : Type 0} → Reference D → Bool
is_strict r = is_none r.fallback && (not r.omit_if_unavailable || r.required)

unfoldable pub required_of : {D : Type 0} → List String → List (Reference D) → List String
required_of strict [] = []
required_of strict (r ∷ rs) =
    if (r.name == "") || not (is_strict r) || contains strict r.name
    then required_of strict rs
    else r.name ∷ required_of (r.name ∷ strict) rs

abbrev pub batch_size : ℕ
batch_size = 64

-- `names[:n]` and `names[n:]`
abbrev pub take : {A : Type 0} → ℕ → List A → List A
take zero xs = []
take (suc n) [] = []
take (suc n) (x ∷ xs) = x ∷ take n xs

abbrev pub drop : {A : Type 0} → ℕ → List A → List A
drop zero xs = xs
drop (suc n) [] = []
drop (suc n) (x ∷ xs) = drop n xs

module _ {W T E : Type 0} (clock : Clock W T E) where
  unfoldable pub expired : W → SecretValue T → Bool
  expired w v = elim v.expires_at [ none ↦ false | some t ↦ clock.passed w t ]

  abbrev pub available : W → Option (SecretValue T) → Bool
  available w none = false
  available w (some v) = not (expired w v)

  -- `Session.ready`
  unfoldable pub ready : W → Values T → List String → Bool
  ready w values [] = true
  ready w values (name ∷ names) = available w (lookup name values) && ready w values names

-- The loop over the names of a batch: a value is masked before it is stored.
unfoldable pub store_values :
    {T : Type 0} → Values T → List String → Values T → Redactor → Bool × Values T × Redactor
store_values found [] values r = (true, values, r)
store_values found (name ∷ names) values r = elim (lookup name found) [
  | none ↦ store_values found names values r
  | some v ↦
      let (r', added) = add r v.value in
      elim added [
        | false ↦ (false, values, r')
        | true ↦ store_values found names ((name, v) ∷ values) r'
      ]
]

abbrev pub resolve_error : {E : Type 0} → ResolveError → Error E
resolve_error lost = lease_lost
resolve_error no_provider = no_secret_provider
resolve_error other = resolution_unavailable

-- A lease that is lost closes the session.
abbrev pub closes : ResolveError → Bool
closes lost = true
closes no_provider = false
closes other = false

module _ {W T E : Type 0} (clock : Clock W T E) where
  abbrev pub Outcome : Type 0
  Outcome = Option (Error E) × Env W T

  -- Any failure leaves no values behind.
  abbrev pub fail_with : Error E → Bool → Redactor → W → Outcome
  fail_with e closed r w = (
    some e,
    record { session = record { values = []; closed = closed }; redactor = r; world = w },
  )

  -- What is done with the answer to a batch, up to the next batch.
  unfoldable pub take_answer : List String → Values T → Resolved T × Redactor × W → Outcome
  take_answer batch values (failed e, r, w) = fail_with (resolve_error e) (closes e) r w
  take_answer batch values (secrets found, r, w) =
      if r.closed then fail_with lease_lost false r w else elim (clock.context_err w) [
        | some e ↦ fail_with (context_error e) false r w
        | none ↦
            let (stored, values', r') = store_values found batch values r in
            elim stored [
              | false ↦ fail_with lease_lost false r' w
              | true ↦ (
                none,
                record {
                  session = record { values = values'; closed = false };
                  redactor = r';
                  world = w;
                },
              )
            ]
      ]

  -- The loop over the batches. Each turn takes a name at least, so that as many turns as there are
  -- names are enough.
  unfoldable pub resolve_batches :
      Resolver W T → ℕ → List String → Values T → Redactor → W → Outcome
  resolve_batches resolve turns [] values r w = (
    none,
    record { session = record { values = values; closed = false }; redactor = r; world = w },
  )
  resolve_batches resolve zero (name ∷ names) values r w =
      fail_with resolution_unavailable false r w
  resolve_batches resolve (suc turns) (name ∷ names) values r w =
      let batch = take batch_size (name ∷ names) in
      let (failure, env) = take_answer batch values (resolve batch r w) in
      elim failure [
        | some e ↦ (some e, env)
        | none ↦
            resolve_batches resolve turns (drop batch_size (name ∷ names)) env.session.values
              env.redactor env.world
      ]

  -- The last test: every required value is there and has not expired.
  abbrev pub check_required : List String → Outcome → Outcome
  check_required required (some e, env) = (some e, env)
  check_required required (none, env) =
      if ready clock env.world env.session.values required
      then (none, env)
      else fail_with required_unavailable env.session.closed env.redactor env.world

  -- `PrepareReferences`; a nil resolver is `none`.
  unfoldable pub prepare_references :
      {D : Type 0} → Option (Resolver W T) → List (Reference D) → Env W T → Outcome
  prepare_references resolve refs env =
      let names = names_of [] refs in
      let required = required_of [] refs in
      elim (clock.context_err env.world) [
        | some e ↦ fail_with (context_error e) env.session.closed env.redactor env.world
        | none ↦
            if env.session.closed || env.redactor.closed
            then fail_with lease_lost env.session.closed env.redactor env.world
            else elim resolve [
              | none ↦
                  if is_nil names
                  then check_required required
                      (none, record env { session = record { values = []; closed = false } })
                  else fail_with no_secret_provider false env.redactor env.world
              | some f ↦
                  check_required required
                    (resolve_batches f (length names) names [] env.redactor env.world)
            ]
      ]

-- What a reference becomes.
pub data Material (D : Type 0) : Type 0 where
  default_value : D → Material D
  secret_value : Bytes → Material D
  omitted : Material D

-- Where the value is missing or has expired
abbrev pub without_value : {D E : Type 0} → Bool → Option D → Result (Error E) (Material D)
without_value true fallback = ok omitted
without_value false (some d) = ok (default_value d)
without_value false none = err required_unavailable

module _ {W T E : Type 0} (clock : Clock W T E) where
  abbrev pub current_value : W → Option (SecretValue T) → Option Bytes
  current_value w none = none
  current_value w (some v) = if expired clock w v then none else some v.value

  abbrev pub or_else : {D : Type 0} → Option Bytes → Reference D → Result (Error E) (Material D)
  or_else (some v) r = ok (secret_value v)
  or_else none r = without_value (r.omit_if_unavailable && not r.required) r.fallback

  abbrev pub session_value :
      {D : Type 0} → Option (Session T) → Redactor → W → Reference D → Result (Error E) (Material D)
  session_value none redactor w r = err setup_required
  session_value (some s) redactor w r =
      if s.closed || redactor.closed
      then err lease_lost
      else or_else (current_value w (lookup r.name s.values)) r

  -- `materializeReference`; a nil session is `none`.
  unfoldable pub materialize_reference :
      {D : Type 0} → Option (Session T) → Redactor → W → Reference D → Result (Error E) (Material D)
  materialize_reference s redactor w r =
      let from_session = session_value s redactor w r in
      if r.name == ""
      then elim r.fallback [ some d ↦ ok (default_value d) | none ↦ from_session ]
      else from_session
