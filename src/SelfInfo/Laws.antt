-- ===== src/SelfInfo/Laws.antt =====
-- When SetCapabilities calls an action ready, and which denials it lists.
use c2j.Prelude.{picked}
use c2j.Prelude.{
  String, Bool, true, false, not, ◌&&◌, ◌||◌, Option, none, some, List, [], ◌∷◌, ◌++◌, ◌≡◌, refl,
  arith,
}
use mathlib.Core.Path.{subst}
use c2j.Prelude.{
  sym, lookup, string_eq, contains, contains-append, keep_if, Bool-cases, inl, inr, is_nil,
  if◌then◌else◌,
}
use c2j.Permissions.Grant.{JobDb}
use c2j.SelfInfo.{
  Capability, Info, Routes, allowed, route_ready, is_lost, is_ready, apply_policy, apply_route,
  apply_lease, apply_bounds, set_capability, set_all, set_capabilities, denial_of,
}

abbrev cell_action : String
cell_action = "cells.create"

abbrev secret_action : String
secret_action = "secrets.resolve"

abbrev from_workspace : String
from_workspace = "jobs.submit_from_workspace"

abbrev from_workspace_now : String
from_workspace_now = "jobs.submit_from_workspace_now"

-- The grant has what the action needs: the creation of cells, a secret, or the submission of jobs for
-- every other action. No grant has anything.
abbrev pub permits : Option JobDb → String → Bool
permits none action = false
permits (some g) action =
    (string_eq.beq action cell_action && g.cells.create)
    || (string_eq.beq action secret_action && not (is_nil g.secrets.resolve))
    || (not (string_eq.beq action cell_action || string_eq.beq action secret_action)
        && g.jobs.submit)

-- Each of the routes that the action needs is open.
abbrev pub reachable : Routes → String → Bool
reachable r action =
    (string_eq.beq action cell_action || string_eq.beq action secret_action || r.submit)
    && (not (string_eq.beq action from_workspace || string_eq.beq action from_workspace_now)
        || r.workspace)
    && (not (string_eq.beq action secret_action) || r.secret_helper)
    && (not (string_eq.beq action cell_action) || r.create_cells)

-- The lease is known, and not lost.
abbrev pub alive : String → Bool
alive status =
    not (string_eq.beq status "unknown")
    && not (string_eq.beq status "lost")
    && not (string_eq.beq status "expired")
    && not (string_eq.beq status "cancelled")

or-true : (a : Bool) → (a || true) ≡ true
or-true a = ground arith

abbrev pub usable : {B : Type 0} → Routes → Info B → String → Bool
usable r i action = permits i.job_db action && reachable r action && alive i.lease_status

-- An action has one name.
one_name :
    (action a b : String)
    → string_eq.beq a b ≡ false
    → string_eq.beq action a ≡ true
    → string_eq.beq action b ≡ false
one_name action a b other h =
    subst (λ n. string_eq.beq n b ≡ false) (sym ((string_eq.beq_iff action a).0 h)) other

one_of_three :
    (a b c d e : Bool)
    → (a ≡ true → b ≡ false)
    → (if a then c else if b then d else e) ≡ ((a && c) || (b && d) || (not (a || b) && e))
one_of_three a b c d e apart = ground arith

permits-allowed : (g : JobDb) (action : String) → allowed g action ≡ permits (some g) action
unfolding allowed
permits-allowed g action =
    one_of_three (string_eq.beq action cell_action) (string_eq.beq action secret_action) _ _ _
      (one_name action cell_action secret_action refl)

needed_routes :
    (u v a b : Bool) (r : Routes)
    → (a ≡ true → b ≡ false)
    → (u ≡ true → a ≡ false)
    → (u ≡ true → b ≡ false)
    → (v ≡ true → a ≡ false)
    → (v ≡ true → b ≡ false)
    → (if u || v
        then r.submit && r.workspace
        else if b
        then r.secret_helper
        else if a
        then r.create_cells
        else r.submit)
      ≡ ((a || b || r.submit)
          && (not (u || v) || r.workspace)
          && (not b || r.secret_helper)
          && (not a || r.create_cells))
needed_routes u v a b r h1 h2 h3 h4 h5 = ground arith

reachable-route_ready : (r : Routes) (action : String) → route_ready r action ≡ reachable r action
unfolding route_ready
reachable-route_ready r action =
    needed_routes (string_eq.beq action from_workspace) (string_eq.beq action from_workspace_now)
      (string_eq.beq action cell_action) (string_eq.beq action secret_action) r
      (one_name action cell_action secret_action refl)
      (one_name action from_workspace cell_action refl)
      (one_name action from_workspace secret_action refl)
      (one_name action from_workspace_now cell_action refl)
      (one_name action from_workspace_now secret_action refl)

not_any : (a b c d : Bool) → (not (a || b || c) && not d) ≡ (not d && not a && not b && not c)
not_any a b c d = ground arith

alive-is_lost :
    (status : String)
    → (not (is_lost status) && not (string_eq.beq status "unknown")) ≡ alive status
alive-is_lost status =
    not_any (string_eq.beq status "lost") (string_eq.beq status "expired")
      (string_eq.beq status "cancelled") (string_eq.beq status "unknown")

kept-contains :
    (name : String) (names : List String)
    → contains names name ≡ true
    → contains (keep_if (λ field. string_eq.beq field name) names) name ≡ true
unfolding contains keep_if
kept-contains name [] h = cc
kept-contains name (x ∷ xs) h = elim (Bool-cases (string_eq.beq x name)) [
  | inl e ↦ ground arith
  | inr e ↦ ground (arith, kept-contains name xs)
]

listed-in :
    (front kept : List String) (name : String)
    → contains kept name ≡ true
    → contains (front ++ kept) name ≡ true
listed-in front kept name h = ground (arith, contains-append front kept name)

module _ {B : Type 0} where
  policy-ready :
      (o : Option JobDb) (action : String) (c : Capability B)
      → is_ready (apply_policy o action c).availability ≡ permits o action
  unfolding apply_policy
  policy-ready none action c = refl
  policy-ready (some g) action c = ground (arith, permits-allowed g action)

  route-ready :
      (r : Routes) (action : String) (c : Capability B)
      → is_ready (apply_route r action c).availability
        ≡ (is_ready c.availability && reachable r action)
  unfolding apply_route
  route-ready r action c = ground (arith, reachable-route_ready r action)

  lease-ready :
      (status : String) (c : Capability B)
      → is_ready (apply_lease status c).availability ≡ (is_ready c.availability && alive status)
  unfolding apply_lease
  lease-ready status c = ground (arith, alive-is_lost status)

  bounds-ready :
      (i : Info B) (action : String) (c : Capability B)
      → is_ready (apply_bounds i action c).availability ≡ is_ready c.availability
  unfolding apply_bounds
  bounds-ready i action c = refl

  set_capability-ready :
      (r : Routes) (i : Info B) (action : String) (c : Capability B)
      → string_eq.beq action "jobs.inspect" ≡ false
      → is_ready (set_capability r i action c).availability ≡ usable r i action
  unfolding set_capability
  set_capability-ready r i action c other =
      let p = apply_policy i.job_db action c in
      let q = apply_route r action p in
      ground (
        arith,
        policy-ready i.job_db action c,
        route-ready r action p,
        lease-ready i.lease_status q,
        bounds-ready i action (apply_lease i.lease_status q),
      )

  bounds-restricted :
      (i : Info B) (action : String) (c : Capability B)
      → contains i.inherited_denials (denial_of action) ≡ true
      → contains (apply_bounds i action c).restrictions (denial_of action) ≡ true
  unfolding apply_bounds
  bounds-restricted i action c h =
      listed-in _ _ (denial_of action) (kept-contains (denial_of action) i.inherited_denials h)

  -- What holds of each capability that is reported behind the loop.
  pub record Reported (r : Routes) (i : Info B) (action : String) (c : Capability B) : Type 0 where
    pub as_usable : is_ready c.availability ≡ usable r i action
    pub denials_listed :
        (not (contains i.inherited_denials (denial_of action))
          || contains c.restrictions (denial_of action))
        ≡ true

  set_capability-restricted :
      (r : Routes) (i : Info B) (action : String) (c : Capability B)
      → string_eq.beq action "jobs.inspect" ≡ false
      → (not (contains i.inherited_denials (denial_of action))
          || contains (set_capability r i action c).restrictions (denial_of action))
        ≡ true
  unfolding set_capability
  set_capability-restricted r i action c other =
      elim (Bool-cases (contains i.inherited_denials (denial_of action))) [
        | inl e ↦ rw (other, bounds-restricted i action _ e) (or-true _)
        | inr e ↦ rw e refl
      ]

  all-Reported :
      (r : Routes) (i : Info B) (cs : List (String × Capability B)) (action : String)
      (c : Capability B)
      → string_eq.beq action "jobs.inspect" ≡ false
      → lookup action (set_all r i cs) ≡ some c
      → Reported r i action c
  unfolding set_all lookup
  all-Reported r i [] action c other h = cc
  all-Reported r i ((key, old) ∷ rest) action c other h =
      elim (picked (string_eq.beq key action) _ _ c h) [
        | inl (same, e) ↦
            subst (λ d. Reported r i action d) e
              (subst (λ k. Reported r i action (set_capability r i k old))
                (sym ((string_eq.beq_iff key action).0 same))
                (record {
                  as_usable = set_capability-ready r i action old other;
                  denials_listed = set_capability-restricted r i action old other;
                }))
        | inr h' ↦ all-Reported r i rest action c other h'
      ]

  -- Behind SetCapabilities, an action other than the inspection of jobs is ready exactly if the grant
  -- has what it needs (the creation of cells, some secret, or for any other action the submission of
  -- jobs), the routes that it needs are open, and the lease is neither lost, expired, cancelled nor
  -- unknown; and a denial of the action that was inherited is listed among its restrictions.
  pub set_capabilities-Reported :
      (r : Routes) (i : Info B) (action : String) (c : Capability B)
      → string_eq.beq action "jobs.inspect" ≡ false
      → lookup action (set_capabilities r i).capabilities ≡ some c
      → Reported r i action c
  unfolding set_capabilities
  set_capabilities-Reported r i action c other h = all-Reported r i i.capabilities action c other h
