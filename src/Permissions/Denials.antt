-- ===== src/Permissions/Denials.antt =====
-- `InheritedDenials` reports what the resolved grant denies.
use c2j.Prelude.{String, Bool, true, false, ◌&&◌, Option, none, some, List, [], ◌∷◌, ◌≡◌, refl}
use c2j.Prelude.{contains, string_eq, arith, ok, not, is_nil}
use c2j.Permissions.Grant.{JobDb}
use c2j.Permissions.Overrides.{JobDbOverrides, apply}
use c2j.Permissions.Scope.{State, apply_all, last_of, later, is_denial, inherited_denials}
use c2j.Permissions.Scope.{submit_field, create_field, secrets_field, resolve}
use c2j.Permissions.Confinement.{resolve_stages, check_limit-same}

-- A field reads off a grant what the overrides set.
abbrev has_submit : JobDb → Bool
has_submit g = g.jobs.submit

abbrev has_create : JobDb → Bool
has_create g = g.cells.create

abbrev has_secrets : JobDb → Bool
has_secrets g = not (is_nil g.secrets.resolve)

abbrev value : Option Bool → Bool → Bool
value none old = old
value (some b) old = b

apply-submit :
    (p : JobDbOverrides) (g h : JobDb)
    → apply p g ≡ ok h
    → has_submit h ≡ value (submit_field p) (has_submit g)
unfolding apply
apply-submit p g h e = ground arith

apply-create :
    (p : JobDbOverrides) (g h : JobDb)
    → apply p g ≡ ok h
    → has_create h ≡ value (create_field p) (has_create g)
unfolding apply
apply-create p g h e = ground arith

apply-secrets :
    (p : JobDbOverrides) (g h : JobDb)
    → apply p g ≡ ok h
    → has_secrets h ≡ value (secrets_field p) (has_secrets g)
unfolding apply
apply-secrets p g h e = ground arith

apply_all-step :
    (valid : String → Bool) (p : JobDbOverrides) (ps : List JobDbOverrides) (g h : JobDb)
    → apply_all valid (p ∷ ps) g ≡ ok h
    → (h1 : JobDb) × (apply p g ≡ ok h1) × (apply_all valid ps h1 ≡ ok h)
unfolding apply_all
apply_all-step valid p ps g h e = ground arith

-- One reading serves the three fields.
module _ (valid : String → Bool) (field : JobDbOverrides → Option Bool) (read : JobDb → Bool)
    (reads : (p : JobDbOverrides) (g h : JobDb)
      → apply p g ≡ ok h
      → read h ≡ value (field p) (read g)) where
  apply_all-last_of :
      (ps : List JobDbOverrides) (old : Option Bool) (b : Bool) (g h : JobDb)
      → read g ≡ value old b
      → apply_all valid ps g ≡ ok h
      → read h ≡ value (last_of field old ps) b
  unfolding apply_all last_of
  apply_all-last_of [] old b g h r e = ground arith
  apply_all-last_of (p ∷ ps) old b g h r e =
      let (h1, applied, rest) = apply_all-step valid p ps g h e in
      apply_all-last_of ps (later (field p) old) b h1 h (ground (arith, reads p g h1)) rest

denial_value :
    (read : JobDb → Bool) (last : Option Bool) (b : Bool) (g2 g : JobDb)
    → is_denial last ≡ true
    → read g2 ≡ value last b
    → g2 ≡ g
    → read g ≡ false
denial_value read (some false) b g2 g d q r = cc
denial_value read (some true) b g2 g d q r = cc
denial_value read none b g2 g d q r = cc

-- The readings of the resolved grant: the last override that sets a field decides it.
module _ (valid : String → Bool) where
  resolved_field :
      (field : JobDbOverrides → Option Bool) (read : JobDb → Bool)
      → ((p : JobDbOverrides) (g h : JobDb) → apply p g ≡ ok h → read h ≡ value (field p) (read g))
      → (s : State) (git : List String) (g : JobDb)
      → is_denial (last_of field none s.overrides) ≡ true
      → resolve valid s git ≡ ok g
      → read g ≡ false
  resolved_field field read reads s git g d e =
      let (g1, g2, _, p2, _, p3) = resolve_stages valid s git g e in
      let q = apply_all-last_of valid field read reads s.overrides none (read g1) g1 g2 refl p2 in
      let r = check_limit-same s.limit g2 g p3 in
      denial_value read (last_of field none s.overrides) (read g1) g2 g d q r

  -- Each capability that `InheritedDenials` names is absent from the resolved grant.
  pub inherited_denials_sound :
      (s : State) (git : List String) (g : JobDb)
      → resolve valid s git ≡ ok g
      → ((contains (inherited_denials s) "perms.jobdb.jobs.submit" && g.jobs.submit) ≡ false)
        × ((contains (inherited_denials s) "perms.jobdb.cells.create" && g.cells.create) ≡ false)
        × ((contains (inherited_denials s) "perms.jobdb.secrets.resolve"
              && not (is_nil g.secrets.resolve))
            ≡ false)
  unfolding inherited_denials contains
  inherited_denials_sound s git g e = (
    ground (arith, resolved_field submit_field has_submit apply-submit s git g),
    ground (arith, resolved_field create_field has_create apply-create s git g),
    ground (arith, resolved_field secrets_field has_secrets apply-secrets s git g),
  )
