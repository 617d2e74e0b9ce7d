-- ===== src/Permissions/Authority.antt =====
-- What a grant authorises, as a set of actions: the reading that access.go gives to `JobDB`.
use c2j.Prelude.{String, Bool, true, false, ◌&&◌, Option, none, some, List, [], ◌∷◌, ◌≡◌, refl}
use c2j.Prelude.{contains, keep_if, every, is_nil, string_eq, arith, Bool-cases, inl, inr}
use c2j.Prelude.{and-eq_true}
use c2j.Permissions.Grant.{JobDb, intersect, subset, common_names, within}

pub data Action : Type 0 where
  resolve_secret : String → Action
  submit_to : String → Action
  create_cell : String → Action

-- nil restricts nothing
unfoldable pub permits : Option (List String) → String → Bool
permits none name = true
permits (some names) name = contains names name

unfoldable pub allows : JobDb → Action → Bool
unfolding permits
allows g (resolve_secret name) = contains g.secrets.resolve name
allows g (submit_to cell) = g.jobs.submit && permits g.jobs.cell_names cell
allows g (create_cell name) = g.cells.create && permits g.cells.cell_names name

-- The actions of one grant are actions of the other.
abbrev pub Le : JobDb → JobDb → Type 0
Le a b = (x : Action) → allows a x ≡ true → allows b x ≡ true

pub contains-keep_if :
    (f : String → Bool) (xs : List String) (a : String)
    → contains (keep_if f xs) a ≡ (contains xs a && f a)
unfolding contains keep_if
contains-keep_if f [] a = refl
contains-keep_if f (x ∷ xs) a = elim (Bool-cases (string_eq.beq x a)) [
  | inl same ↦
      let e : x ≡ a = (string_eq.beq_iff x a).0 same in
      ground (arith, ap_test f x a e, contains-keep_if f xs a)
  | inr other ↦ ground (arith, contains-keep_if f xs a)
]
  where
    ap_test : (f : String → Bool) (x a : String) → x ≡ a → f x ≡ f a
    ap_test f x a e = cc

contains_of_is_nil : (xs : List String) (a : String) → is_nil xs ≡ true → contains xs a ≡ false
unfolding contains
contains_of_is_nil [] a h = refl
contains_of_is_nil (x ∷ xs) a h = cc

permits-common_names :
    (action : Bool) (a b : Option (List String)) (x : String)
    → ((common_names action a b).0 && permits (common_names action a b).1 x)
      ≡ (action && permits a x && permits b x)
unfolding common_names permits
permits-common_names false a b x = refl
permits-common_names true none b x = refl
permits-common_names true (some a) none x = ground arith
permits-common_names true (some a) (some b) x =
    ground (arith, contains-keep_if (contains b) a x, contains_of_is_nil (keep_if (contains b) a) x)

-- An intersection allows exactly the actions that both grants allow.
pub allows-intersect :
    (a b : JobDb) (x : Action) → allows (intersect a b) x ≡ (allows a x && allows b x)
unfolding allows intersect
allows-intersect a b (Action.resolve_secret name) = contains-keep_if _ _ name
allows-intersect a b (Action.submit_to cell) = ground (
  arith,
  permits-common_names (a.jobs.submit && b.jobs.submit) a.jobs.cell_names b.jobs.cell_names cell,
)
allows-intersect a b (Action.create_cell name) = ground (
  arith,
  permits-common_names (a.cells.create && b.cells.create) a.cells.cell_names b.cells.cell_names
      name,
)

pub intersect-Le_left : (a b : JobDb) → Le (intersect a b) a
intersect-Le_left a b x h = ground (arith, allows-intersect a b x)

pub intersect-Le_right : (a b : JobDb) → Le (intersect a b) b
intersect-Le_right a b x h = ground (arith, allows-intersect a b x)

pub contains_of_every :
    (f : String → Bool) (xs : List String) (a : String)
    → every f xs ≡ true
    → contains xs a ≡ true
    → f a ≡ true
unfolding contains every
contains_of_every f [] a h m = cc
contains_of_every f (x ∷ xs) a h m = elim (Bool-cases (string_eq.beq x a)) [
  | inl same ↦ use_head x a ((string_eq.beq_iff x a).0 same) (and-eq_true _ _ h).0
  | inr other ↦ contains_of_every f xs a (and-eq_true _ _ h).1 (ground arith)
]
  where
    use_head : (x a : String) → x ≡ a → f x ≡ true → f a ≡ true
    use_head x a e p = cc

permits_of_within :
    (a b : Option (List String)) (x : String)
    → within a b ≡ true
    → permits a x ≡ true
    → permits b x ≡ true
unfolding within permits
permits_of_within a none x h m = refl
permits_of_within none (some b) x h m = cc
permits_of_within (some a) (some b) x h m = contains_of_every (contains b) a x h m

-- A grant that passes the test `subset` allows no action that the other denies.
pub subset-Le : (a b : JobDb) → subset a b ≡ true → Le a b
unfolding subset allows
subset-Le a b h (Action.resolve_secret name) m =
    contains_of_every (contains b.secrets.resolve) a.secrets.resolve name (ground arith) m
subset-Le a b h (Action.submit_to cell) m =
    ground (arith, permits_of_within a.jobs.cell_names b.jobs.cell_names cell)
subset-Le a b h (Action.create_cell name) m =
    ground (arith, permits_of_within a.cells.cell_names b.cells.cell_names name)
