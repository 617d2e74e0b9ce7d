-- ===== src/HookPolicy/Delegation/Confinement.antt =====
-- What `Authority` grants a hook, and what a child recipe of the hook.
use c2j.Prelude.{
  String, Bool, true, false, ◌&&◌, Option, none, some, List, [], ◌∷◌, ◌≡◌, refl, sym, ◌∙◌, arith,
}
use c2j.Prelude.{
  string_eq, keep_if, lookup, contains, if◌then◌else◌, Bool-cases, inl, inr, and-eq_true,
}
use c2j.Prelude.{Result, ok, err, >>=-eq-ok}
use c2j.Permissions.Errors as PermissionErrors
use c2j.Permissions.Grant.{JobDb}
use c2j.Permissions.Scope.{Spec, State, narrow, enter, entered, resolve}
use c2j.Permissions.Authority.{Action, allows, permits, contains-keep_if}
use c2j.Permissions.Confinement.{ceiling, resolve-within, enter_limit, allows-narrow}
use c2j.HookPolicy.{
  Error, submit_untrusted, create_untrusted, lift, Trust, SourceTrust, Entry, allows_commit,
  grant_of,
}
use c2j.HookPolicy.Delegation.{
  trust_of, check_secrets, check_action, narrow_all, limits, is_candidate, child_action,
  child_names, child_grant, hook_state, enter_call, check_hook, authority,
}

abbrev pub holds : (Trust → Bool) → Option Trust → Bool
holds test none = false
holds test (some t) = test t

-- The trust that an action of a hook rests on, put to a test.
abbrev pub trusted : (Trust → Bool) → SourceTrust → Action → Bool
trusted test trust (Action.resolve_secret name) = test (trust_of (lookup name trust.secrets))
trusted test trust (Action.submit_to cell) = holds test trust.submit
trusted test trust (Action.create_cell name) = holds test trust.create_cells

-- The actions under every limit of a list
unfoldable pub under_all : List (Option JobDb) → Action → Bool
under_all [] x = true
under_all (l ∷ ls) x = ceiling l x && under_all ls x

allows-narrow_all :
    (g : JobDb) (ls : List (Option JobDb)) (x : Action)
    → allows (narrow_all g ls) x ≡ (allows g x && under_all ls x)
unfolding narrow_all under_all
allows-narrow_all g [] x = ground arith
allows-narrow_all g (l ∷ ls) x =
    ground (arith, allows-narrow_all (narrow g l) ls x, allows-narrow g l x)

check_secrets_trusted :
    (trusts : List (String × Trust)) (commit : String) (names : List String) (name : String)
    → check_secrets trusts commit names ≡ ok tt
    → contains names name ≡ true
    → allows_commit (trust_of (lookup name trusts)) commit ≡ true
unfolding check_secrets contains
check_secrets_trusted trusts commit [] name h m = cc
check_secrets_trusted trusts commit (n ∷ names) name h m =
    elim (Bool-cases (string_eq.beq n name)) [
      | inl same ↦ ground (arith, cong_trust n name ((string_eq.beq_iff n name).0 same))
      | inr other ↦ ground (arith, check_secrets_trusted trusts commit names name)
    ]
  where
    cong_trust : (n name : String) → n ≡ name → lookup n trusts ≡ lookup name trusts
    cong_trust n name e = cc

check_action_trusted :
    (b : Bool) (t : Option Trust) (commit : String) (e : Error)
    → check_action b t commit e ≡ ok tt
    → b ≡ true
    → holds (λ t. allows_commit t commit) t ≡ true
check_action_trusted true none commit e h p = absurd (ground arith)
check_action_trusted true (some t) commit e h p = ground arith
check_action_trusted false t commit e h p = cc

lift_ok : {A : Type 0} (r : Result PermissionErrors.Error A) (a : A) → lift r ≡ ok a → r ≡ ok a
lift_ok (ok b) a h = ground arith
lift_ok (err e) a h = absurd (ground arith)

child_action_ok :
    (b : Bool) (t : Option Trust) (out : Bool)
    → child_action b t ≡ ok out
    → out ≡ (b && holds is_candidate t)
child_action_ok false t out h = ground arith
child_action_ok true none out h = absurd (ground arith)
child_action_ok true (some t) out h = ground arith

permits-child_names :
    (b f : Bool) (names : Option (List String)) (x : String)
    → ((b && f) && permits (child_names (b && f) names) x) ≡ ((b && permits names x) && f)
unfolding permits
permits-child_names true true names x = ground arith
permits-child_names true false names x = ground arith
permits-child_names false f names x = refl

child_grant-parts :
    (trust : SourceTrust) (g c : JobDb)
    → child_grant trust g ≡ ok c
    → c ≡ record {
      secrets = record {
        resolve =
            keep_if (λ name. is_candidate (trust_of (lookup name trust.secrets))) g.secrets.resolve;
      };
      jobs = record {
        cell_names =
            child_names (g.jobs.submit && holds is_candidate trust.submit) g.jobs.cell_names;
        submit = g.jobs.submit && holds is_candidate trust.submit;
      };
      cells = record {
        create = g.cells.create && holds is_candidate trust.create_cells;
        cell_names =
            child_names
              (g.cells.create && holds is_candidate trust.create_cells)
              g.cells.cell_names;
      };
    }
unfolding child_grant
child_grant-parts trust g c h =
    let (submit, p, h') = >>=-eq-ok (child_action g.jobs.submit trust.submit) _ h in
    let (create, q, h'') = >>=-eq-ok (child_action g.cells.create trust.create_cells) _ h' in
    let e = child_action_ok g.jobs.submit trust.submit submit p in
    let e' = child_action_ok g.cells.create trust.create_cells create q in ground arith

child_grant-allows :
    (trust : SourceTrust) (g c : JobDb) (x : Action)
    → child_grant trust g ≡ ok c
    → allows c x ≡ (allows g x && trusted is_candidate trust x)
unfolding allows
child_grant-allows trust g c (Action.resolve_secret name) h = rw (child_grant-parts trust g c h) (
    contains-keep_if (λ n. is_candidate (trust_of (lookup n trust.secrets))) g.secrets.resolve name)
child_grant-allows trust g c (Action.submit_to cell) h =
    rw (child_grant-parts trust g c h)
      (permits-child_names g.jobs.submit (holds is_candidate trust.submit) g.jobs.cell_names cell)
child_grant-allows trust g c (Action.create_cell cell) h = rw (child_grant-parts trust g c h) (
    permits-child_names g.cells.create (holds is_candidate trust.create_cells) g.cells.cell_names
      cell)

abbrev edits : Spec → Spec
edits call = record { job_db = none; limit = none; inherit = true; overrides = call.overrides }

module _ (valid : String → Bool) where
  hook-trusted :
      (e : Entry) (commit : String) (call : Option Spec) (x : Action)
      → check_hook valid e commit call ≡ ok tt
      → allows (grant_of e.perms.job_db) x ≡ true
      → trusted (λ t. allows_commit t commit) e.trust x ≡ true
  unfolding check_hook allows
  hook-trusted e commit call (Action.resolve_secret name) h m =
      let g = grant_of e.perms.job_db in
      ground (arith, check_secrets_trusted e.trust.secrets commit g.secrets.resolve name)
  hook-trusted e commit call (Action.submit_to name) h m =
      let g = grant_of e.perms.job_db in
      ground
        (arith, check_action_trusted g.jobs.submit e.trust.submit commit (submit_untrusted commit))
  hook-trusted e commit call (Action.create_cell name) h m =
      let g = grant_of e.perms.job_db in
      ground (
        arith,
        check_action_trusted g.cells.create e.trust.create_cells commit (create_untrusted commit),
      )

  enter-fields :
      (s : State) (spec : Option Spec) (t : State)
      → enter valid s spec ≡ ok t
      → t.child_grant ≡ s.child_grant
  unfolding enter entered
  enter-fields s none t h = ground arith
  enter-fields s (some spec) t h = ground arith

  enter_call-fields :
      (s : State) (call : Option Spec) (t : State)
      → enter_call valid s call ≡ ok t
      → (t.limit ≡ s.limit) × (t.child_grant ≡ s.child_grant)
  unfolding enter_call
  enter_call-fields s none t h = ground arith
  enter_call-fields s (some call) t h = by_mode (call.inherit) h
    where
      by_mode :
          (b : Bool)
          → (if b then lift (enter valid s (some (edits call))) else ok s) ≡ ok t
          → (t.limit ≡ s.limit) × (t.child_grant ≡ s.child_grant)
      by_mode true h =
          let h' = lift_ok (enter valid s (some (edits call))) t h in
          (enter_limit valid s (some (edits call)) t h', enter-fields s (some (edits call)) t h')
      by_mode false h = ground arith

  -- What a successful call passed through.
  authority_stages :
      (e : Entry) (commit : String) (parent : State) (call : Option Spec) (s : State)
      → authority valid e commit parent call ≡ ok s
      → (check_hook valid e commit call ≡ ok tt)
        × (c : JobDb) × (child_grant e.trust
              (narrow_all (grant_of e.perms.job_db) (limits e parent call))
            ≡ ok c)
        × (enter_call valid
              (hook_state (narrow_all (grant_of e.perms.job_db) (limits e parent call)) c)
              call
            ≡ ok s)
  unfolding authority
  authority_stages e commit parent call s h = ground arith

  authority-limit :
      (e : Entry) (commit : String) (parent : State) (call : Option Spec) (s : State) (x : Action)
      → authority valid e commit parent call ≡ ok s
      → ceiling s.limit x
        ≡ (allows (grant_of e.perms.job_db) x && under_all (limits e parent call) x)
  authority-limit e commit parent call s x h =
      let (_, c, _, q) = authority_stages e commit parent call s h in
      rw ((enter_call-fields _ call s q).0)
        (allows-narrow_all (grant_of e.perms.job_db) (limits e parent call) x)

  -- Whatever the recipe asks for and wherever it runs: what a hook with the state of Authority may do,
  -- resolved with any defaults, is granted by the entry, is under the limits of the enclosing state,
  -- of the entry and of the call, and is trusted for the commit of the candidate.
  pub authority-confined :
      (e : Entry) (commit : String) (parent : State) (call : Option Spec) (s : State)
      (git : List String) (g : JobDb) (x : Action)
      → authority valid e commit parent call ≡ ok s
      → resolve valid s git ≡ ok g
      → allows g x ≡ true
      → (allows (grant_of e.perms.job_db) x ≡ true)
        × (under_all (limits e parent call) x ≡ true)
        × (trusted (λ t. allows_commit t commit) e.trust x ≡ true)
  authority-confined e commit parent call s git g x h r m =
      let (p, _, _, _) = authority_stages e commit parent call s h in
      let l = authority-limit e commit parent call s x h in
      let w = resolve-within valid s git g x r m in
      let (m', u) = and-eq_true _ _ (sym l ∙ w) in (m', u, hook-trusted e commit call x p m')

  -- The child grant of Authority allows exactly the actions that the hook's own limits allow and that
  -- the entry trusts for every candidate: a trust in one commit is not passed on.
  pub authority-child_grant :
      (e : Entry) (commit : String) (parent : State) (call : Option Spec) (s : State) (x : Action)
      → authority valid e commit parent call ≡ ok s
      → (c : JobDb) × (s.child_grant ≡ some c)
        × (allows c x ≡ (ceiling s.limit x && trusted is_candidate e.trust x))
  authority-child_grant e commit parent call s x h =
      let (_, c, p, q) = authority_stages e commit parent call s h in
      let (l, k) = enter_call-fields _ call s q in (c, k, rw l (child_grant-allows e.trust _ c x p))
