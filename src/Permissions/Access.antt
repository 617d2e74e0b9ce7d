-- ===== src/Permissions/Access.antt =====
-- pkg/permissions/access.go: each use of a grant is checked before a callback is called.
-- The callbacks are parameters: they read and change a world `W`, and may fail. The result types
-- of JobDB are parameters too. `ctx.Err()` of the caller, of the scope, and of the bounded call
-- after the resolver returned are `Option Error` arguments.
pub mod Laws
use c2j.Prelude.{
  String, Bool, true, false, not, ◌&&◌, ◌||◌, Option, none, some, List, [], ◌∷◌, ◌≡◌, ◌≢◌, refl,
}
use c2j.Prelude.{
  ◌==◌, string_eq, contains, if◌then◌else◌, is_nil, Result, ok, err, arith, Bool-cases, inl, inr,
}
use c2j.Prelude.{ap, sym, ◌∙◌}
use c2j.Permissions.Errors.{Error, done, denied, secret_denied, unavailable, no_scope}
use c2j.Permissions.Grant.{JobDb}

-- A call into the controller.
abbrev pub Callback : Type 0 → Type 0 → Type 0 → Type 0
Callback W X Y = W → X → Result Error Y × W

-- A Go map from secret names.
abbrev pub Secrets : Type 0 → Type 0
Secrets V = String → Option V

pub record Access (W Job Ref Request Cell V : Type 0) : Type 0 where
  pub grant : JobDb
  pub resolve : Option (Callback W (List String) (Secrets V))
  pub submit : Option (Callback W Job Ref)
  pub create_cell : Option (Callback W Request Cell)

-- `a.submit == nil`
abbrev pub call : {X Y W : Type 0} → Option (Callback W X Y) → W → X → Result Error Y × W
call none w x = (err unavailable, w)
call (some f) w x = f w x

abbrev pub unless : {Y W : Type 0} → Option Error → Result Error Y × W → W → Result Error Y × W
unless none r w = r
unless (some e) r w = (err e, w)

-- `!action || (names != nil && !slices.Contains(names, name))`
unfoldable pub refuses : Bool → Option (List String) → String → Bool
refuses action none name = not action
refuses action (some names) name = not action || not (contains names name)

-- `CheckSecrets`, after the test of the scope
unfoldable pub check_secrets : JobDb → List String → Option Error
check_secrets g [] = none
check_secrets g (name ∷ names) =
    if not (contains g.secrets.resolve name)
    then some (secret_denied name)
    else check_secrets g names

module _ {V : Type 0} where
  update : Secrets V → String → Option V → Secrets V
  update m name none = m
  update m name (some v) = λ k. if name == k then some v else m k

  -- The loop that fills `filtered`.
  filter_from : Secrets V → Secrets V → List String → Secrets V
  filter_from values out [] = out
  filter_from values out (name ∷ names) = filter_from values (update out name (values name)) names

  unfoldable pub filter_secrets : Secrets V → List String → Secrets V
  unfolding filter_from update
  filter_secrets values names = filter_from values (λ k. none) names

-- What is made of the resolver's answer.
unfoldable pub filtered :
    {W V : Type 0}
    → Option Error
    → List String
    → Result Error (Secrets V) × W
    → Result Error (Secrets V) × W
filtered cancelled names (err e, w) = (err e, w)
filtered (some e) names (ok values, w) = (err e, w)
filtered none names (ok values, w) = (ok (filter_secrets values names), w)

-- The grant of a driver's own resolver: the authorised names.
abbrev pub authorise : List String → JobDb
authorise names = record {
  secrets = record { resolve = names };
  jobs = record { cell_names = none; submit = false };
  cells = record { create = false; cell_names = none };
}

module _ {W Job Ref Request Cell V : Type 0} where
  -- `Access.Resolve`
  unfoldable pub resolve :
      Access W Job Ref Request Cell V
      → Option Error
      → Option Error
      → Option Error
      → W
      → List String
      → Result Error (Secrets V) × W
  resolve a caller scope cancelled w names =
      unless caller
        (unless scope
          (unless (check_secrets a.grant names)
            (if is_nil names
              then (ok (λ k. none), w)
              else filtered cancelled names (call a.resolve w names))
            w)
          w)
        w

  -- `Access.Submit`; `cell` is the job's cell.
  unfoldable pub submit :
      Access W Job Ref Request Cell V
      → (Job → String)
      → Option Error
      → W
      → Job
      → Result Error Ref × W
  submit a cell scope w job =
      unless scope
        (if refuses a.grant.jobs.submit a.grant.jobs.cell_names (cell job)
          then (err denied, w)
          else call a.submit w job)
        w

  -- `Access.CreateCell`; `name` is the name in the request.
  unfoldable pub create :
      Access W Job Ref Request Cell V
      → (Request → String)
      → Option Error
      → Option Error
      → W
      → Request
      → Result Error Cell × W
  create a name caller scope w req =
      unless caller
        (unless scope
          (if refuses a.grant.cells.create a.grant.cells.cell_names (name req)
            then (err denied, w)
            else call a.create_cell w req)
          w)
        w

  -- `ResolveInputs`: `driver` is the resolver that the context carries, if any. The same caller
  -- and scope bound both ways.
  unfoldable pub resolve_inputs :
      Option (Access W Job Ref Request Cell V)
      → Option (Callback W (List String) (Secrets V))
      → Option Error
      → Option Error
      → Option Error
      → W
      → List String
      → List String
      → Result Error (Secrets V) × W
  resolve_inputs none driver caller scope cancelled w names authorized = (err no_scope, w)
  resolve_inputs (some a) none caller scope cancelled w names authorized =
      resolve a caller scope cancelled w names
  resolve_inputs (some a) (some f) caller scope cancelled w names authorized =
      let input : Access W Job Ref Request Cell V = record {
        grant = authorise authorized;
        resolve = some f;
        submit = none;
        create_cell = none;
      } in
      resolve input caller scope cancelled w names
