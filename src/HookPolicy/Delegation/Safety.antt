-- ===== src/HookPolicy/Delegation/Safety.antt =====
-- `Authority` reads no nil trust.
use c2j.Prelude.{
  String, Bool, true, false, ◌&&◌, Option, none, some, List, [], ◌∷◌, ◌≡◌, refl, ◌≢◌, arith,
}
use c2j.Prelude.{string_eq, lookup, if◌then◌else◌, inl, inr, ◌⊎◌}
use c2j.Prelude.{Result, ok, err}
use c2j.Permissions.Errors as PermissionErrors
use c2j.Permissions.Grant.{JobDb, intersect, common_names}
use c2j.Permissions.Scope.{Spec, State, validate_spec, enter, if_some}
use c2j.HookPolicy.{
  Error, nil_trust, only_error, no_state, submit_trust_mismatch, create_trust_mismatch,
  submit_untrusted, create_untrusted, lift, Trust, SourceTrust, Entry, grant_of, validate_entry,
  check_trusts, check_granted, check_pair, check_trust, validate_trust,
}
use c2j.HookPolicy.Delegation.{
  check_secrets, check_action, narrow_all, limits, child_action, child_grant, hook_state,
  enter_call, check_hook, authority,
}

Result-cases :
    {A : Type 0} (r : Result Error A) → ((a : A) × (r ≡ ok a)) ⊎ ((e : Error) × (r ≡ err e))
Result-cases (ok a) = inl (a, refl)
Result-cases (err e) = inr (e, refl)

lift-nil_trust : {A : Type 0} (r : Result PermissionErrors.Error A) → lift r ≢ err nil_trust
lift-nil_trust (ok a) h = ground arith
lift-nil_trust (err e) h = ground arith

validate_trust-nil_trust : (t : Trust) → validate_trust t ≢ err nil_trust
unfolding validate_trust
validate_trust-nil_trust t h = ground arith

check_trust-nil_trust : (name : String) (t : Option Trust) → check_trust name t ≢ err nil_trust
check_trust-nil_trust name none h = ground arith
check_trust-nil_trust name (some t) h = validate_trust-nil_trust t h

check_trusts-nil_trust :
    (trusts : List (String × Trust)) (names : List String)
    → check_trusts trusts names ≢ err nil_trust
unfolding check_trusts
check_trusts-nil_trust trusts [] h = ground arith
check_trusts-nil_trust trusts (name ∷ names) h =
    ground
      (arith, check_trusts-nil_trust trusts names, check_trust-nil_trust name (lookup name trusts))

check_granted-nil_trust :
    (granted : List String) (trusts : List (String × Trust))
    → check_granted granted trusts ≢ err nil_trust
unfolding check_granted
check_granted-nil_trust granted [] h = ground arith
check_granted-nil_trust granted ((name, t) ∷ trusts) h =
    ground (arith, check_granted-nil_trust granted trusts)

check_pair-nil_trust :
    (b : Bool) (t : Option Trust) (e : Error) → e ≢ nil_trust → check_pair b t e ≢ err nil_trust
check_pair-nil_trust true none e n h = ground arith
check_pair-nil_trust true (some t) e n h = validate_trust-nil_trust t h
check_pair-nil_trust false none e n h = ground arith
check_pair-nil_trust false (some t) e n h = ground arith

check_secrets-nil_trust :
    (trusts : List (String × Trust)) (commit : String) (names : List String)
    → check_secrets trusts commit names ≢ err nil_trust
unfolding check_secrets
check_secrets-nil_trust trusts commit [] h = ground arith
check_secrets-nil_trust trusts commit (name ∷ names) h =
    ground (arith, check_secrets-nil_trust trusts commit names)

-- A trust that a granted action has
abbrev Paired : Bool → Option Trust → Type 0
Paired b t = b ≡ true → t ≢ none

check_pair-Paired :
    (b : Bool) (t : Option Trust) (e : Error) → check_pair b t e ≡ ok tt → Paired b t
check_pair-Paired true none e h p n = absurd (ground arith)
check_pair-Paired true (some t) e h p n = ground arith
check_pair-Paired false t e h p n = cc

check_action-nil_trust :
    (b : Bool) (t : Option Trust) (commit : String) (e : Error)
    → Paired b t
    → e ≢ nil_trust
    → check_action b t commit e ≢ err nil_trust
check_action-nil_trust true none commit e p n h = p refl refl
check_action-nil_trust true (some t) commit e p n h = ground arith
check_action-nil_trust false t commit e p n h = ground arith

child_action-nil_trust :
    (b : Bool) (t : Option Trust) → Paired b t → child_action b t ≢ err nil_trust
child_action-nil_trust true none p h = p refl refl
child_action-nil_trust true (some t) p h = ground arith
child_action-nil_trust false t p h = ground arith

-- Limits add no action.
abbrev Only : JobDb → JobDb → Type 0
Only g h =
    (h.jobs.submit ≡ true → g.jobs.submit ≡ true) × (h.cells.create ≡ true → g.cells.create ≡ true)

common_names-Only :
    (b c : Bool) (xs ys : Option (List String)) → (common_names (b && c) xs ys).0 ≡ true → b ≡ true
unfolding common_names
common_names-Only true c xs ys h = refl
common_names-Only false c xs ys h = cc

intersect-Only : (g l : JobDb) → Only g (intersect g l)
unfolding intersect
intersect-Only g l = (
  common_names-Only g.jobs.submit l.jobs.submit g.jobs.cell_names l.jobs.cell_names,
  common_names-Only g.cells.create l.cells.create g.cells.cell_names l.cells.cell_names,
)

narrow_all-Only : (g : JobDb) (ls : List (Option JobDb)) → Only g (narrow_all g ls)
unfolding narrow_all
narrow_all-Only g [] = (λ h. h, λ h. h)
narrow_all-Only g (none ∷ ls) = narrow_all-Only g ls
narrow_all-Only g (some l ∷ ls) =
    let (p, q) = narrow_all-Only (intersect g l) ls in
    let (p', q') = intersect-Only g l in (λ h. p' (p h), λ h. q' (q h))

child_grant-nil_trust :
    (trust : SourceTrust) (g : JobDb)
    → Paired g.jobs.submit trust.submit
    → Paired g.cells.create trust.create_cells
    → child_grant trust g ≢ err nil_trust
unfolding child_grant
child_grant-nil_trust trust g p q h = ground (
  arith,
  child_action-nil_trust g.jobs.submit trust.submit p,
  child_action-nil_trust g.cells.create trust.create_cells q,
)

module _ (valid : String → Bool) where
  validate_entry-nil_trust : (e : Entry) → validate_entry valid e ≢ err nil_trust
  unfolding validate_entry
  validate_entry-nil_trust e h =
      let g = grant_of e.perms.job_db in
      ground (
        arith,
        lift-nil_trust (validate_spec valid e.perms),
        lift-nil_trust (only_error (enter valid no_state (some e.perms))),
        check_trusts-nil_trust e.trust.secrets g.secrets.resolve,
        check_granted-nil_trust g.secrets.resolve e.trust.secrets,
        check_pair-nil_trust g.jobs.submit e.trust.submit submit_trust_mismatch (λ k. ground arith),
        check_pair-nil_trust g.cells.create e.trust.create_cells create_trust_mismatch
            (λ k. ground arith),
      )

  validate_entry-pairs :
      (e : Entry)
      → validate_entry valid e ≡ ok tt
      → (check_pair (grant_of e.perms.job_db).jobs.submit e.trust.submit submit_trust_mismatch
          ≡ ok tt)
        × (check_pair
              (grant_of e.perms.job_db).cells.create
              e.trust.create_cells
              create_trust_mismatch
            ≡ ok tt)
  unfolding validate_entry
  validate_entry-pairs e h = ground arith

  validate_entry-Paired :
      (e : Entry)
      → validate_entry valid e ≡ ok tt
      → Paired (grant_of e.perms.job_db).jobs.submit e.trust.submit
        × Paired (grant_of e.perms.job_db).cells.create e.trust.create_cells
  validate_entry-Paired e h =
      let (p, q) = validate_entry-pairs e h in
      (check_pair-Paired _ _ _ p, check_pair-Paired _ _ _ q)

  check_hook-nil_trust :
      (e : Entry) (commit : String) (call : Option Spec)
      → check_hook valid e commit call ≢ err nil_trust
  unfolding check_hook
  check_hook-nil_trust e commit call h =
      let g = grant_of e.perms.job_db in
      elim (Result-cases (validate_entry valid e)) [
        | inl (_, valid_entry) ↦
            let (p, q) = validate_entry-Paired e valid_entry in
            ground (
              arith,
              check_secrets-nil_trust e.trust.secrets commit g.secrets.resolve,
              check_action-nil_trust g.jobs.submit e.trust.submit commit (submit_untrusted commit) p
                  (λ k. ground arith),
              check_action-nil_trust g.cells.create e.trust.create_cells commit
                  (create_untrusted commit) q (λ k. ground arith),
              lift-nil_trust (if_some (validate_spec valid) call),
            )
        | inr (why, bad) ↦ ground (arith, validate_entry-nil_trust e)
      ]

  check_hook-valid :
      (e : Entry) (commit : String) (call : Option Spec)
      → check_hook valid e commit call ≡ ok tt
      → validate_entry valid e ≡ ok tt
  unfolding check_hook
  check_hook-valid e commit call h = ground arith

  enter_call-nil_trust : (s : State) (call : Option Spec) → enter_call valid s call ≢ err nil_trust
  unfolding enter_call
  enter_call-nil_trust s none h = ground arith
  enter_call-nil_trust s (some call) h = by_mode call.inherit _ h
    where
      by_mode :
          (b : Bool) (r : Result PermissionErrors.Error State)
          → (if b then lift r else ok s) ≢ err nil_trust
      by_mode true r h = lift-nil_trust r h
      by_mode false r h = ground arith

  -- Authority never reads the mode or the commit of a trust that is nil, which would panic: whatever
  -- the entry, the commit, the enclosing state and the call are.
  pub authority_no_panic :
      (e : Entry) (commit : String) (parent : State) (call : Option Spec)
      → authority valid e commit parent call ≢ err nil_trust
  unfolding authority
  authority_no_panic e commit parent call h =
      let g = grant_of e.perms.job_db in
      let ls = limits e parent call in
      elim (Result-cases (check_hook valid e commit call)) [
        | inl (tt, passed) ↦
            let (p, q) = validate_entry-Paired e (check_hook-valid e commit call passed) in
            let (p', q') = narrow_all-Only g ls in
            elim (Result-cases (child_grant e.trust (narrow_all g ls))) [
              | inl (c, made) ↦
                  ground (arith, enter_call-nil_trust (hook_state (narrow_all g ls) c) call)
              | inr (why, bad) ↦ ground (
                arith,
                child_grant-nil_trust e.trust (narrow_all g ls) (λ k. p (p' k)) (λ k. q (q' k)),
              )
            ]
        | inr (why, bad) ↦ ground (arith, check_hook-nil_trust e commit call)
      ]
