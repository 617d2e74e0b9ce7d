-- ===== src/Permissions/Confinement.antt =====
-- Resolution never leaves the enclosing limits, at any depth of nesting.
use c2j.Prelude.{String, Bool, true, false, ◌&&◌, Option, none, some, List, [], ◌∷◌, ◌≡◌, refl}
use c2j.Prelude.{string_eq, every, contains, arith, Result, ok, ◌>>=◌, >>=-eq-ok}
use c2j.Prelude.Sorting.{sort, compact, contains-sort, contains-compact}
use c2j.Permissions.Errors.{Error}
use c2j.Permissions.Grant.{JobDb, intersect, subset}
use c2j.Permissions.Grant
use c2j.Permissions.Scope.{
  State, Spec, tighten, narrow, spec_grant, spec_limit, include_edit, entered, include_state,
}
use c2j.Permissions.Scope.{resolve, enter, enter_include, check_limit, declared, start}
use c2j.Permissions.Scope.{apply_all}
use c2j.Permissions.Authority.{Action, allows, subset-Le, allows-intersect}

-- The actions under a limit; no limit is every action.
abbrev pub ceiling : Option JobDb → Action → Bool
ceiling none x = true
ceiling (some l) x = allows l x

ceiling-tighten :
    (g l : Option JobDb) (x : Action) → ceiling (tighten g l) x ≡ (ceiling g x && ceiling l x)
ceiling-tighten none l x = refl
ceiling-tighten (some g) none x = ground arith
ceiling-tighten (some g) (some l) x = allows-intersect g l x

check_limit_ok : (h l g : JobDb) → check_limit (some l) h ≡ ok g → (subset h l ≡ true) × (h ≡ g)
unfolding check_limit
check_limit_ok h l g e = ground arith

check_limit-within :
    (limit : Option JobDb) (h g : JobDb) (x : Action)
    → check_limit limit h ≡ ok g
    → allows g x ≡ true
    → ceiling limit x ≡ true
unfolding check_limit
check_limit-within none h g x e m = refl
check_limit-within (some l) h g x e m =
    let (fits, same) = check_limit_ok h l g e in subset-Le h l fits x (rw same m)

-- The authority of a node that declares nothing.
abbrev pub defaults : List String → JobDb
defaults git = record {
  secrets = record { resolve = git };
  jobs = record { cell_names = none; submit = true };
  cells = record { create = false; cell_names = none };
}

contains-tidy :
    (names : List String) (a : String) → contains (compact (sort names)) a ≡ contains names a
contains-tidy names a = rw (contains-compact (sort names) a) (contains-sort names a)

allows-declared-none :
    (s : State) (git : List String) (x : Action)
    → s.grant ≡ none
    → allows (declared s git) x ≡ allows (defaults git) x
unfolding declared allows
allows-declared-none s git (Action.resolve_secret name) h = ground (arith, contains-tidy git name)
allows-declared-none s git (Action.submit_to cell) h = ground arith
allows-declared-none s git (Action.create_cell name) h = ground arith

allows-declared-some :
    (s : State) (git : List String) (d : JobDb) (x : Action)
    → s.grant ≡ some d
    → allows (declared s git) x ≡ allows d x
unfolding declared allows
allows-declared-some s git d (Action.resolve_secret name) h =
    ground (arith, contains-tidy d.secrets.resolve name)
allows-declared-some s git d (Action.submit_to cell) h = ground arith
allows-declared-some s git d (Action.create_cell name) h = ground arith

pub allows-narrow :
    (g : JobDb) (l : Option JobDb) (x : Action)
    → allows (narrow g l) x ≡ (allows g x && ceiling l x)
allows-narrow g none x = ground arith
allows-narrow g (some l) x = allows-intersect g l x

pub check_limit-same : (l : Option JobDb) (h g : JobDb) → check_limit l h ≡ ok g → h ≡ g
unfolding check_limit
check_limit-same l h g e = ground arith

module _ (valid : String → Bool) where
  start-none : (l : Option JobDb) (g h : JobDb) → start valid none l g ≡ ok h → narrow g l ≡ h
  unfolding start
  start-none l g h e = ground arith

  start-some :
      (d : JobDb) (l : Option JobDb) (g h : JobDb) → start valid (some d) l g ≡ ok h → g ≡ h
  unfolding start
  start-some d l g h e = ground arith

  -- What a successful resolution passed through.
  pub resolve_stages :
      (s : State) (git : List String) (g : JobDb)
      → resolve valid s git ≡ ok g
      → (g1 : JobDb) × (g2 : JobDb) × (start valid s.grant s.limit (declared s git) ≡ ok g1)
        × (apply_all valid s.overrides g1 ≡ ok g2)
        × (Grant.validate valid g2 ≡ ok tt)
        × (check_limit s.limit g2 ≡ ok g)
  unfolding resolve
  resolve_stages s git g e = ground arith

  pub resolve-within :
      (s : State) (git : List String) (g : JobDb) (x : Action)
      → resolve valid s git ≡ ok g
      → allows g x ≡ true
      → ceiling s.limit x ≡ true
  resolve-within s git g x e m =
      let (g1, g2, _, _, _, p) = resolve_stages s git g e in check_limit-within s.limit g2 g x p m

  pub enter_limit :
      (s : State) (spec : Option Spec) (t : State)
      → enter valid s spec ≡ ok t
      → t.limit ≡ tighten (spec_limit spec) s.limit
  unfolding enter entered
  enter_limit s none t e = ground arith
  enter_limit s (some spec) t e = ground arith

  -- `Enter` adds the limit of the spec to the limit of the state, and forgets neither.
  pub ceiling-enter :
      (s : State) (spec : Option Spec) (t : State) (x : Action)
      → enter valid s spec ≡ ok t
      → ceiling t.limit x ≡ (ceiling (spec_limit spec) x && ceiling s.limit x)
  ceiling-enter s spec t x e =
      rw (enter_limit s spec t e) (ceiling-tighten (spec_limit spec) s.limit x)

  include_limit :
      (s : State) (spec : Option Spec) (boundary trusted : Bool) (t : State)
      → enter_include valid s spec boundary trusted ≡ ok t
      → t.limit ≡ tighten (spec_limit spec) (tighten (spec_grant spec) s.limit)
  unfolding enter_include include_state
  include_limit s none boundary trusted t e =
      ground (arith, enter_limit (include_state s none boundary trusted) none t)
  include_limit s (some spec) boundary trusted t e = ground (
    arith,
    enter_limit (include_state s (some spec) boundary trusted) (include_edit (some spec)) t,
  )

  -- An include adds the callsite's grant as a second limit.
  pub ceiling-enter_include :
      (s : State) (spec : Option Spec) (boundary trusted : Bool) (t : State) (x : Action)
      → enter_include valid s spec boundary trusted ≡ ok t
      → ceiling t.limit x
        ≡ (ceiling (spec_limit spec) x && ceiling (spec_grant spec) x && ceiling s.limit x)
  ceiling-enter_include s spec boundary trusted t x e =
      rw (include_limit s spec boundary trusted t e, ceiling-tighten)
        (ground (arith, ceiling-tighten (spec_grant spec) s.limit x))

  -- With nothing declared and no overrides, a node has the automatic Git secrets and may submit,
  -- each as far as the limit allows.
  pub resolve_defaults :
      (s : State) (git : List String) (g : JobDb) (x : Action)
      → s.grant ≡ none
      → s.overrides ≡ []
      → resolve valid s git ≡ ok g
      → allows g x ≡ (allows (defaults git) x && ceiling s.limit x)
  unfolding apply_all
  resolve_defaults s git g x no_grant plain e =
      let (g1, g2, p1, p2, _, p3) = resolve_stages s git g e in
      ground (
        arith,
        start-none s.limit (declared s git) g1,
        check_limit-same s.limit g2 g,
        allows-narrow (declared s git) s.limit x,
        allows-declared-none s git x,
      )

  -- With an explicit grant and no overrides, a node has exactly the grant; where that is outside
  -- the limit, resolution fails.
  pub resolve_explicit :
      (s : State) (git : List String) (d g : JobDb) (x : Action)
      → s.grant ≡ some d
      → s.overrides ≡ []
      → resolve valid s git ≡ ok g
      → allows g x ≡ allows d x
  unfolding apply_all
  resolve_explicit s git d g x declares plain e =
      let (g1, g2, p1, p2, _, p3) = resolve_stages s git g e in
      ground (
        arith,
        start-some d s.limit (declared s git) g1,
        check_limit-same s.limit g2 g,
        allows-declared-some s git d x,
      )

-- A step into a nested node: a plain node, or an include.
pub data Entry : Type 0 where
  node : Option Spec → Entry
  include : Option Spec → Bool → Bool → Entry

abbrev pub step : (String → Bool) → State → Entry → Result Error State
step valid s (node spec) = enter valid s spec
step valid s (include spec boundary trusted) = enter_include valid s spec boundary trusted

unfoldable pub nest : (String → Bool) → State → List Entry → Result Error State
nest valid s [] = ok s
nest valid s (e ∷ es) = step valid s e >>= λ t. nest valid t es

-- The limit that a step imposes: the spec's, and for an include the callsite's grant too.
abbrev pub imposed : Entry → Action → Bool
imposed (node spec) x = ceiling (spec_limit spec) x
imposed (include spec boundary trusted) x =
    ceiling (spec_limit spec) x && ceiling (spec_grant spec) x

ceiling-step :
    (valid : String → Bool) (s : State) (e : Entry) (t : State) (x : Action)
    → step valid s e ≡ ok t
    → ceiling t.limit x ≡ (imposed e x && ceiling s.limit x)
ceiling-step valid s (node spec) t x h = ceiling-enter valid s spec t x h
ceiling-step valid s (include spec boundary trusted) t x h =
    ground (arith, ceiling-enter_include valid s spec boundary trusted t x h)

ceiling-nest :
    (valid : String → Bool) (s : State) (es : List Entry) (t : State) (x : Action)
    → nest valid s es ≡ ok t
    → ceiling t.limit x ≡ (every (λ e. imposed e x) es && ceiling s.limit x)
unfolding nest every
ceiling-nest valid s [] t x h = ground arith
ceiling-nest valid s (e ∷ es) t x h =
    let (u, entered_u, rest) = >>=-eq-ok (step valid s e) (λ t. nest valid t es) h in
    ground (arith, ceiling-step valid s e u x entered_u, ceiling-nest valid u es t x rest)

-- The grant that a node resolves to, after any nesting of nodes and includes, allows only actions
-- under the limit of the outermost state and under every limit imposed on the way in.
pub nest-confined :
    (valid : String → Bool) (s : State) (es : List Entry) (t : State) (git : List String)
    (g : JobDb) (x : Action)
    → nest valid s es ≡ ok t
    → resolve valid t git ≡ ok g
    → allows g x ≡ true
    → (ceiling s.limit x ≡ true) × (every (λ e. imposed e x) es ≡ true)
nest-confined valid s es t git g x h r m =
    ground (arith, ceiling-nest valid s es t x h, resolve-within valid t git g x r m)
