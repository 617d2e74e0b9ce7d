-- ===== src/Secrets/Session/Prepared.antt =====
-- What PrepareReferences promises of the references that it is given, of the session and of the redactor.
use c2j.Prelude.{
  String, Bool, true, false, ◌&&◌, ◌||◌, Option, none, some, List, [], ◌∷◌, ◌≡◌, refl, arith,
}
use c2j.Prelude.{
  bytes_eq, string_eq, contains, lookup, length, is_nil, if◌then◌else◌, Option-cases, inl, inr,
}
use c2j.Secrets.Redactor.{Redactor}
use mathlib.Core.Path.{subst}
use c2j.Prelude.{not, every, ◌==◌, ◌≢◌, and-eq_true, Bool-cases}
use c2j.Secrets.Session.{SecretValue, is_none, is_strict, available, expired}
use c2j.Secrets.Session.{
  Reference, Values, Error, no_secret_provider, Resolver, Clock, Env, names_of, required_of, ready,
  fail_with, lease_lost, context_error, required_unavailable, resolve_batches, check_required,
  prepare_references, Outcome,
}
use c2j.Secrets.Session.Laws.{
  MasksKept, all_masked, IsClean, fail_with-IsClean, empty-IsClean, checked-IsClean,
  resolve_batches-IsClean,
}

none_contained : (name : String) → contains {A = String} [] name ≢ true
unfolding contains
none_contained name h = cc

module _ {W T E : Type 0} (clock : Clock W T E) where
  -- The value is there and has not expired.
  abbrev pub in_force : W → Option (SecretValue T) → Bool
  in_force w none = false
  in_force w (some v) = elim v.expires_at [ none ↦ true | some t ↦ not (clock.passed w t) ]

  -- A reference that has a name, and no other way out, has a value in force. Its way out is a default,
  -- or that it may be omitted and is not required.
  abbrev pub served : {D : Type 0} → W → Values T → Reference D → Bool
  served w values r =
      string_eq.beq r.name ""
      || not (is_none r.fallback)
      || (r.omit_if_unavailable && not r.required)
      || in_force w (lookup r.name values)

  abbrev pub all_served : {D : Type 0} → List (Reference D) → Outcome clock → Bool
  all_served refs (some e, env) = true
  all_served refs (none, env) = every (served env.world env.session.values) refs

  available-in_force :
      (w : W) (o : Option (SecretValue T)) → available clock w o ≡ true → in_force w o ≡ true
  unfolding expired
  available-in_force w none h = h
  available-in_force w (some v) h = ground (arith, Option-cases v.expires_at)

  also_in_force :
      (w : W) (values : Values T) (strict : List String) (new name : String)
      → (contains strict name ≡ true → in_force w (lookup name values) ≡ true)
      → in_force w (lookup new values) ≡ true
      → contains (new ∷ strict) name ≡ true
      → in_force w (lookup name values) ≡ true
  unfolding contains
  also_in_force w values strict new name old v h = elim (Bool-cases (string_eq.beq new name)) [
    | inl e ↦ subst (λ n. in_force w (lookup n values) ≡ true) ((string_eq.beq_iff new name).0 e) v
    | inr e ↦ old (rw e at h)
  ]

  ready-served :
      {D : Type 0} (w : W) (values : Values T) (strict : List String) (refs : List (Reference D))
      → ((name : String) → contains strict name ≡ true → in_force w (lookup name values) ≡ true)
      → ready clock w values (required_of strict refs) ≡ true
      → every (served w values) refs ≡ true
  unfolding required_of ready every
  ready-served w values strict [] old h = refl
  ready-served w values strict (r ∷ rs) old h =
      elim (Bool-cases ((r.name == "") || not (is_strict r) || contains strict r.name)) [
        | inl passed_over ↦
            ground (arith, old r.name, ready-served w values strict rs old (rw passed_over at h))
        | inr new ↦
            let (now, rest) = and-eq_true _ _ (rw new at h) in
            let v = available-in_force w (lookup r.name values) now in
            ground (
              arith,
              v,
              ready-served w values (r.name ∷ strict) rs
                  (λ name. also_in_force w values strict r.name name (old name) v) rest,
            )
      ]

  checked-all_served :
      {D : Type 0} (refs : List (Reference D)) (o : Outcome clock)
      → all_served refs (check_required clock (required_of [] refs) o) ≡ true
  checked-all_served refs (some e, env) = refl
  checked-all_served refs (none, env) =
      by_test (ready clock env.world env.session.values (required_of [] refs)) refl
    where
      by_test :
          (b : Bool)
          → ready clock env.world env.session.values (required_of [] refs) ≡ b
          → all_served refs (
              if b
              then (none, env)
              else fail_with clock required_unavailable env.session.closed env.redactor env.world)
            ≡ true
      by_test true e = ready-served env.world env.session.values [] refs nothing e
        where
          nothing :
              (name : String)
              → contains [] name ≡ true
              → in_force env.world (lookup name env.session.values) ≡ true
          nothing name h = absurd (none_contained name h)
      by_test false e = refl

  -- Clean, and, on success, each reference is served.
  pub record IsPrepared {D : Type 0} (refs : List (Reference D)) (o : Outcome clock) : Type 0 where
    pub clean : IsClean clock o
    pub served_on_success : all_served refs o ≡ true

  failed-IsPrepared :
      {D : Type 0} (refs : List (Reference D)) (e : Error E) (closed : Bool) (r : Redactor) (w : W)
      → IsPrepared refs (fail_with clock e closed r w)
  failed-IsPrepared refs e closed r w = record {
    clean = fail_with-IsClean clock e closed r w;
    served_on_success = refl;
  }

  checked-IsPrepared :
      {D : Type 0} (refs : List (Reference D)) (o : Outcome clock)
      → IsClean clock o
      → IsPrepared refs (check_required clock (required_of [] refs) o)
  checked-IsPrepared refs o v = record {
    clean = checked-IsClean clock (required_of [] refs) o v;
    served_on_success = checked-all_served refs o;
  }

  -- The redactor that a resolver returns, if there is one, masks all that was masked.
  abbrev pub ForgetsNothing : Option (Resolver W T) → Type 0
  ForgetsNothing none = Unit {0}
  ForgetsNothing (some f) =
      (names : List String) (r : Redactor) (w : W) → MasksKept r (f names r w).1

  -- Without a resolver, or with one that forgets no mask, whatever it answers: where PrepareReferences
  -- fails, the session is left with no value; where it succeeds, each value of the session is masked,
  -- and each reference that has a name, no default, and is required or may not be omitted, has a value
  -- that has not expired.
  pub prepare_references-IsPrepared :
      {D : Type 0} (resolve : Option (Resolver W T)) (refs : List (Reference D)) (env : Env W T)
      → ForgetsNothing resolve
      → IsPrepared refs (prepare_references clock resolve refs env)
  unfolding prepare_references
  prepare_references-IsPrepared resolve refs env keeps =
      prepared (clock.context_err env.world) (env.session.closed || env.redactor.closed)
        (is_nil (names_of [] refs)) resolve keeps
    where
      prepared :
          (c : Option E) (closed no_names : Bool) (f : Option (Resolver W T))
          → ForgetsNothing f
          → IsPrepared refs (elim c [
            | some e ↦ fail_with clock (context_error e) env.session.closed env.redactor env.world
            | none ↦
                if closed
                then fail_with clock lease_lost env.session.closed env.redactor env.world
                else elim f [
                  | none ↦
                      if no_names
                      then check_required clock
                          (required_of [] refs)
                          (none, record env { session = record { values = []; closed = false } })
                      else fail_with clock no_secret_provider false env.redactor env.world
                  | some f ↦ check_required clock (required_of [] refs) (
                      resolve_batches clock f
                        (length (names_of [] refs))
                        (names_of [] refs)
                        []
                        env.redactor
                        env.world)
                ]
          ])
      prepared (some e) closed no_names f k = failed-IsPrepared _ (context_error e) _ _ _
      prepared none true no_names f k = failed-IsPrepared _ lease_lost _ _ _
      prepared none false true none k =
          checked-IsPrepared refs _ (empty-IsClean clock false env.redactor env.world)
      prepared none false false none k = failed-IsPrepared _ no_secret_provider _ _ _
      prepared none false no_names (some f) k = checked-IsPrepared refs _ (
          resolve_batches-IsClean clock f k _ _ [] env.redactor env.world
            (unfold all_masked in refl))
