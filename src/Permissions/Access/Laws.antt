-- ===== src/Permissions/Access/Laws.antt =====
-- No helper call reaches a callback, and no secret reaches a helper, outside the grant.
use c2j.Prelude.{String, Bool, true, false, ◌&&◌, Option, none, some, List, [], ◌∷◌, ◌≡◌, ◌≢◌, refl}
use c2j.Prelude.{
  Option-cases, string_eq, contains, if◌then◌else◌, Result, ok, err, arith, Bool-cases, inl, inr,
  ◌⊎◌,
}
use c2j.Permissions.Errors.{Error}
use c2j.Permissions.Grant.{JobDb}
use c2j.Permissions.Authority.{Action, allows, permits}
use c2j.Permissions.Access.{Access, Callback, Secrets, filter_secrets, filter_from, update, refuses}
use c2j.Permissions.Access.{
  check_secrets, resolve, submit, create, resolve_inputs, filtered, call, authorise,
}

module _ {V : Type 0} where
  filter_from_lem :
      (values out : Secrets V) (names : List String) (k : String)
      → filter_from values out names k
        ≡ (if contains names k then (elim (values k) [ none ↦ out k | some v ↦ some v ]) else out k)
  unfolding filter_from update contains
  filter_from_lem values out [] k = refl
  filter_from_lem values out (name ∷ names) k = elim (Bool-cases (string_eq.beq name k)) [
    | inl same ↦
        let e : name ≡ k = (string_eq.beq_iff name k).0 same in
        rw e (
          ground (
            arith,
            string_eq.beq_iff k k,
            Option-cases (values k),
            filter_from_lem values (update out k (values k)) names k,
          ))
    | inr other ↦ ground (
      arith,
      Option-cases (values name),
      filter_from_lem values (update out name (values name)) names k,
    )
  ]

  -- The filtered map has the provider's value at each requested name and nothing elsewhere.
  pub filter_secrets_lem :
      (values : Secrets V) (names : List String) (k : String)
      → filter_secrets values names k ≡ (if contains names k then values k else none)
  unfolding filter_secrets
  filter_secrets_lem values names k = ground (arith, filter_from_lem values (λ k. none) names k)

check_secrets-contains :
    (g : JobDb) (names : List String) (k : String)
    → check_secrets g names ≡ none
    → contains names k ≡ true
    → contains g.secrets.resolve k ≡ true
unfolding check_secrets contains
check_secrets-contains g [] k h m = cc
check_secrets-contains g (name ∷ names) k h m = elim (Bool-cases (string_eq.beq name k)) [
  | inl same ↦ ground (arith, string_eq.beq_iff name k)
  | inr other ↦ ground (arith, check_secrets-contains g names k)
]

permits_of_refuses :
    (action : Bool) (names : Option (List String)) (x : String)
    → refuses action names x ≡ false
    → (action && permits names x) ≡ true
unfolding refuses permits
permits_of_refuses action names x h = ground arith

module _ {W V : Type 0} where
  filtered_reveals :
      (cancelled : Option Error) (names : List String) (r : Result Error (Secrets V) × W)
      (values : Secrets V) (w' : W) (k : String) (v : V)
      → filtered cancelled names r ≡ (ok values, w')
      → values k ≡ some v
      → contains names k ≡ true
  unfolding filtered
  filtered_reveals cancelled names (err e, w) values w' k v h m = cc
  filtered_reveals (some e) names (ok vs, w) values w' k v h m = cc
  filtered_reveals none names (ok vs, w) values w' k v h m =
      ground (arith, filter_secrets_lem vs names k)

module _ {W Job Ref Request Cell V : Type 0} where
  -- Every secret that `Access.Resolve` returns was requested, is granted, and is the provider's.
  pub resolve_reveals :
      (a : Access W Job Ref Request Cell V) (caller scope cancelled : Option Error) (w w' : W)
      (names : List String) (values : Secrets V) (k : String) (v : V)
      → resolve a caller scope cancelled w names ≡ (ok values, w')
      → values k ≡ some v
      → (contains names k ≡ true) × (allows a.grant (Action.resolve_secret k) ≡ true)
  unfolding resolve allows
  resolve_reveals a caller scope cancelled w w' names values k v h m = ground (
    arith,
    filtered_reveals cancelled names (call a.resolve w names) values w' k v,
    check_secrets-contains a.grant names k,
  )

  -- A submission that changes the world, or returns a job, is one the grant allows, in a live scope.
  pub submit_allowed :
      (a : Access W Job Ref Request Cell V) (cell : Job → String) (scope : Option Error) (w : W)
      (job : Job)
      → allows a.grant (Action.submit_to (cell job)) ≡ false ⊎ (scope ≢ none)
      → (submit a cell scope w job).1 ≡ w
  unfolding submit allows
  submit_allowed a cell scope w job h =
      ground (arith, permits_of_refuses a.grant.jobs.submit a.grant.jobs.cell_names (cell job))

  -- A cell creation that the grant denies, or outside a live scope and caller, changes nothing.
  pub create_allowed :
      (a : Access W Job Ref Request Cell V) (name : Request → String) (caller scope : Option Error)
      (w : W) (req : Request)
      → allows a.grant (Action.create_cell (name req)) ≡ false ⊎ (scope ≢ none) ⊎ (caller ≢ none)
      → (create a name caller scope w req).1 ≡ w
  unfolding create allows
  create_allowed a name caller scope w req h =
      ground (arith, permits_of_refuses a.grant.cells.create a.grant.cells.cell_names (name req))

  -- Every secret that `ResolveInputs` returns was requested, and is authorised by the recipe's
  -- list where the driver has a resolver of its own, and by the node's grant where it has none.
  pub resolve_inputs_reveals :
      (a : Access W Job Ref Request Cell V) (driver : Option (Callback W (List String) (Secrets V)))
      (caller scope cancelled : Option Error) (w w' : W) (names authorized : List String)
      (values : Secrets V) (k : String) (v : V)
      → resolve_inputs (some a) driver caller scope cancelled w names authorized ≡ (ok values, w')
      → values k ≡ some v
      → (contains names k ≡ true)
        × ((driver ≡ none) × (allows a.grant (Action.resolve_secret k) ≡ true)
            ⊎ (driver ≢ none) × (contains authorized k ≡ true))
  unfolding resolve_inputs
  resolve_inputs_reveals a none caller scope cancelled w w' names authorized values k v h m =
      let (asked, granted) = resolve_reveals a caller scope cancelled w w' names values k v h m in
      (asked, inl (refl, granted))
  resolve_inputs_reveals a (some f) caller scope cancelled w w' names authorized values k v h m =
      let input : Access W Job Ref Request Cell V = record {
        grant = authorise authorized;
        resolve = some f;
        submit = none;
        create_cell = none;
      } in
      let (asked, granted) =
        resolve_reveals input caller scope cancelled w w' names values k v h m in
      (asked, inr (λ e. cc, unfold allows in granted))
