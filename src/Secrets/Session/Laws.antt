-- ===== src/Secrets/Session/Laws.antt =====
-- What PrepareReferences leaves behind, on success and on failure.
use c2j.Prelude.{
  ℕ, zero, suc, ◌+◌, ◌≤◌, String, Bool, true, false, ◌&&◌, ◌||◌, Option, none, some, List, [], ◌∷◌,
  ◌≡◌, refl, arith,
}
use c2j.Prelude.{
  Bytes, bytes_eq, string_eq, contains, lookup, length, is_nil, if◌then◌else◌, Option-cases, inl,
  inr, bytes_beq_refl,
}
use c2j.Secrets.Redactor.{Redactor, add}
use c2j.Secrets.Session.{
  Values, Error, Resolved, secrets, failed, Resolver, Clock, Env, ready, store_values, fail_with,
  take_answer, lease_lost, context_error, required_unavailable, drop, batch_size, resolve_batches,
  check_required, Outcome,
}

length-drop : (n : ℕ) (names : List String) → length (drop n names) ≤ length names
length-drop zero names = omega arith
length-drop (suc n) [] = omega arith
length-drop (suc n) (name ∷ names) = omega (arith, length-drop n names)

-- The value of each entry is masked.
unfoldable pub all_masked : {T : Type 0} → Redactor → Values T → Bool
all_masked r [] = true
all_masked r ((name, v) ∷ values) = contains r.masks v.value && all_masked r values

-- All that one redactor masks, the other masks.
abbrev pub MasksKept : Redactor → Redactor → Type 0
MasksKept r r' = (value : Bytes) → contains r.masks value ≡ true → contains r'.masks value ≡ true

pub all_masked-kept :
    {T : Type 0} (r r' : Redactor) (values : Values T)
    → MasksKept r r'
    → all_masked r values ≡ true
    → all_masked r' values ≡ true
unfolding all_masked
all_masked-kept r r' [] keeps h = refl
all_masked-kept r r' ((name, v) ∷ values) keeps h =
    ground (arith, keeps v.value, all_masked-kept r r' values keeps)

add-MasksKept : (r : Redactor) (v : Bytes) → MasksKept r (add r v).0
unfolding add contains
add-MasksKept r v value h = ground arith

add-contains : (r : Redactor) (v : Bytes) → (add r v).1 ≡ true → contains (add r v).0.masks v ≡ true
unfolding add contains
add-contains r v h = ground (arith, bytes_beq_refl v)

store_values-masked :
    {T : Type 0} (found values : Values T) (names : List String) (r : Redactor)
    → all_masked r values ≡ true
    → (store_values found names values r).0 ≡ true
    → all_masked (store_values found names values r).2 (store_values found names values r).1 ≡ true
unfolding store_values all_masked
store_values-masked found values [] r m h = m
store_values-masked found values (name ∷ names) r m h = elim (Option-cases (lookup name found)) [
  | inl e ↦ ground (arith, store_values-masked found values names r m)
  | inr (v, e) ↦ ground (
    arith,
    add-contains r v.value,
    all_masked-kept r (add r v.value).0 values (add-MasksKept r v.value) m,
    store_values-masked found ((name, v) ∷ values) names (add r v.value).0,
  )
]

abbrev pub succeeds : {E : Type 0} → Option E → Bool
succeeds none = true
succeeds (some e) = false

module _ {W T E : Type 0} (clock : Clock W T E) where
  -- A failure leaves no value, and each value that is left is masked.
  pub record IsClean (o : Outcome clock) : Type 0 where
    pub empty_on_failure : (succeeds o.0 || is_nil o.1.session.values) ≡ true
    pub masked : all_masked o.1.redactor o.1.session.values ≡ true

  pub fail_with-IsClean :
      (e : Error E) (closed : Bool) (r : Redactor) (w : W) → IsClean (fail_with clock e closed r w)
  fail_with-IsClean e closed r w =
      unfold all_masked in record { empty_on_failure = refl; masked = refl }

  pub empty-IsClean :
      (closed : Bool) (r : Redactor) (w : W)
      → IsClean (
        none,
        record { session = record { values = []; closed = closed }; redactor = r; world = w },
      )
  empty-IsClean closed r w = unfold all_masked in record { empty_on_failure = refl; masked = refl }

  stored-IsClean :
      (b : Bool) (values : Values T) (r : Redactor) (w : W)
      → (b ≡ true → all_masked r values ≡ true)
      → IsClean (elim b [
        | false ↦ fail_with clock lease_lost false r w
        | true ↦ (
          none,
          record { session = record { values = values; closed = false }; redactor = r; world = w },
        )
      ])
  stored-IsClean false values r w h = fail_with-IsClean lease_lost false r w
  stored-IsClean true values r w h = record { empty_on_failure = refl; masked = h refl }

  take_answer-IsClean :
      (batch : List String) (values : Values T) (found : Resolved T) (r : Redactor) (w : W)
      → all_masked r values ≡ true
      → IsClean (take_answer clock batch values (found, r, w))
  unfolding take_answer
  take_answer-IsClean batch values (failed e) r w m = fail_with-IsClean _ _ r w
  take_answer-IsClean batch values (secrets found) r w m =
      open_answer r.closed (clock.context_err w)
    where
      open_answer :
          (closed : Bool) (c : Option E)
          → IsClean (
              if closed then fail_with clock lease_lost false r w else elim c [
                | some e ↦ fail_with clock (context_error e) false r w
                | none ↦ elim (store_values found batch values r).0 [
                  | false ↦ fail_with clock lease_lost false (store_values found batch values r).2 w
                  | true ↦ (
                    none,
                    record {
                      session = record {
                        values = (store_values found batch values r).1;
                        closed = false;
                      };
                      redactor = (store_values found batch values r).2;
                      world = w;
                    },
                  )
                ]
              ])
      open_answer true c = fail_with-IsClean lease_lost false r w
      open_answer false (some e) = fail_with-IsClean (context_error e) false r w
      open_answer false none =
          stored-IsClean _ _ _ w (λ h. store_values-masked found values batch r m h)

  answered-IsClean :
      (batch : List String) (values : Values T) (a : Resolved T × Redactor × W)
      → all_masked a.1 values ≡ true
      → IsClean (take_answer clock batch values a)
  answered-IsClean batch values (found, r, w) m = take_answer-IsClean batch values found r w m

  continued-IsClean :
      (o : Outcome clock) (next : Env W T → Outcome clock)
      → IsClean o
      → ((env : Env W T) → all_masked env.redactor env.session.values ≡ true → IsClean (next env))
      → IsClean (elim o.0 [ some e ↦ (some e, o.1) | none ↦ next o.1 ])
  continued-IsClean (some e, env) next v go = v
  continued-IsClean (none, env) next v go = go env v.masked

  pub checked-IsClean :
      (required : List String) (o : Outcome clock)
      → IsClean o
      → IsClean (check_required clock required o)
  checked-IsClean required (some e, env) v = v
  checked-IsClean required (none, env) v =
      either (ready clock env.world env.session.values required)
    where
      either :
          (b : Bool)
          → IsClean (
              if b
              then (none, env)
              else fail_with clock required_unavailable env.session.closed env.redactor env.world)
      either true = v
      either false = fail_with-IsClean required_unavailable _ _ _

  module _ (resolve : Resolver W T)
      (keeps : (names : List String) (r : Redactor) (w : W)
        → MasksKept r (resolve names r w).1) where
    pub resolve_batches-IsClean :
        (turns : ℕ) (names : List String) (values : Values T) (r : Redactor) (w : W)
        → all_masked r values ≡ true
        → IsClean (resolve_batches clock resolve turns names values r w)
    unfolding resolve_batches
    resolve_batches-IsClean turns [] values r w m = record { empty_on_failure = refl; masked = m }
    resolve_batches-IsClean zero (name ∷ names) values r w m = fail_with-IsClean _ false r w
    resolve_batches-IsClean (suc turns) (name ∷ names) values r w m =
        continued-IsClean _
          (λ env.
            resolve_batches clock resolve turns (drop batch_size (name ∷ names)) env.session.values
              env.redactor env.world)
          (answered-IsClean _ values _ (all_masked-kept r _ values (keeps _ r w) m))
          (λ env h.
            resolve_batches-IsClean turns (drop batch_size (name ∷ names)) env.session.values
              env.redactor env.world h)

  -- Turns of the loop that are not needed change nothing.
  next_same :
      (o : Outcome clock) (f g : Env W T → Outcome clock)
      → ((env : Env W T) → f env ≡ g env)
      → (elim o.0 [ some e ↦ (some e, o.1) | none ↦ f o.1 ])
        ≡ (elim o.0 [ some e ↦ (some e, o.1) | none ↦ g o.1 ])
  next_same (some e, env) f g h = refl
  next_same (none, env) f g h = h env

  -- As many turns as there are names are enough for the batches: more change nothing.
  pub resolve_batches_turns :
      (resolve : Resolver W T) (turns more : ℕ) (names : List String) (values : Values T)
      (r : Redactor) (w : W)
      → length names ≤ turns
      → resolve_batches clock resolve (turns + more) names values r w
        ≡ resolve_batches clock resolve turns names values r w
  unfolding resolve_batches
  resolve_batches_turns resolve zero more [] values r w h = refl
  resolve_batches_turns resolve zero more (name ∷ names) values r w h = absurd (omega arith)
  resolve_batches_turns resolve (suc turns) more [] values r w h = refl
  resolve_batches_turns resolve (suc turns) more (name ∷ names) values r w h =
      let e : suc turns + more ≡ suc (turns + more) = omega arith in
      rw e (
        next_same _ _ _ λ env.
          resolve_batches_turns resolve turns more (drop batch_size (name ∷ names))
            env.session.values env.redactor env.world (omega (arith, length-drop 63 names)))
