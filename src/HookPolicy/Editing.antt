-- ===== src/HookPolicy/Editing.antt =====
-- pkg/hookpolicy/policy.go: `Edit`, and the operations on a Go map, the list of its entries. The error
-- of `Edit` comes with a document that its caller drops: the model returns the error alone.
pub mod Laws
pub mod Selection
use c2j.Prelude.{
  String, Bool, true, false, not, ◌&&◌, ◌||◌, Option, none, some, List, [], ◌∷◌, ◌++◌, map,
}
use c2j.Prelude.{◌==◌, string_eq, keep_if, lookup, contains, is_nil, if◌then◌else◌}
use c2j.Prelude.{Result, ok, err, ◌>>=◌, ◌>>◌, reject_if}
use c2j.Prelude.Sorting.{sort}
use c2j.Permissions.Grant.{JobDb}
use c2j.Permissions.Scope.{Spec}
use c2j.HookPolicy.{
  Error, inherit_needs_cell, needs_entry, nothing_selected, needs_replace, unknown_edit, only_error,
  Trust, SourceTrust, Entry, Document, Snapshot, hook_path, validate_trust, validate_entry,
  grant_of, empty_entry, hooks_of, select,
}

module _ {ℓ} {A : Type ℓ} where
  -- `delete(m, key)`
  unfoldable pub erase : String → List (String × A) → List (String × A)
  erase key [] = []
  erase key ((k, a) ∷ m) = let rest = erase key m in if k == key then rest else (k, a) ∷ rest

  -- `m[key] = a`
  abbrev pub assign : String → A → List (String × A) → List (String × A)
  assign key a m = (key, a) ∷ erase key m

  unfoldable pub map_values : (A → A) → List (String × A) → List (String × A)
  map_values f [] = []
  map_values f ((k, a) ∷ m) = (k, f a) ∷ map_values f m

abbrev pub with_grant : JobDb → Entry → Entry
with_grant g e = record e { perms = record e.perms { job_db = some g } }

-- `slices.DeleteFunc(names, func(v string) bool { return v == n })`
abbrev pub without : String → List String → List String
without name names = keep_if (λ v. not (v == name)) names

-- `e.Perms.JobDB`, which is not nil where an edit reads it
abbrev pub grant : Entry → JobDb
grant e = grant_of e.perms.job_db

abbrev pub remove_secret : String → Entry → Entry
remove_secret name e =
    record (with_grant
      (record (grant e) { secrets = record { resolve = without name (grant e).secrets.resolve } })
      e) { trust = record e.trust { secrets = erase name e.trust.secrets } }

abbrev pub add_name : String → List String → List String
add_name name names = if contains names name then names else names ++ name ∷ []

abbrev pub add_secret : String → Trust → Entry → Entry
add_secret name trust e =
    record (with_grant
      (record (grant e) { secrets = record { resolve = add_name name (grant e).secrets.resolve } })
      e) { trust = record e.trust { secrets = assign name trust e.trust.secrets } }

abbrev pub same_trust : Trust → Trust → Bool
same_trust a b = a.mode == b.mode && a.commit == b.commit

-- `old != trust && !replace`
abbrev pub conflicts : Option Trust → Trust → Bool → Bool
conflicts none trust replace = false
conflicts (some old) trust replace = not (same_trust old trust) && not replace

-- The loop over the names, for "remove" and for "add"
unfoldable pub remove_secrets : List String → Entry → Entry
remove_secrets [] e = e
remove_secrets (name ∷ names) e = remove_secrets names (remove_secret name e)

unfoldable pub add_secrets : List String → Trust → Bool → Entry → Result Error Entry
add_secrets [] trust replace e = ok e
add_secrets (name ∷ names) trust replace e =
    reject_if (conflicts (lookup name e.trust.secrets) trust replace) needs_replace
    >> add_secrets names trust replace (add_secret name trust e)

abbrev pub set_submit : Bool → Option Trust → Entry → Entry
set_submit submit trust e =
    record (with_grant (record (grant e) { jobs = record (grant e).jobs { submit = submit } }) e) {
      trust = record e.trust { submit = trust };
    }

unfoldable pub remove_selected : List String → Bool → Entry → Result Error Entry
remove_selected names submit e = do
  reject_if (is_nil names && not submit) nothing_selected
  let e' = remove_secrets names e
  ok (if submit then set_submit false none e' else e')

unfoldable pub add_selected : List String → Bool → Trust → Bool → Entry → Result Error Entry
add_selected names submit trust replace e = do
  reject_if (is_nil names && not submit) nothing_selected
  validate_trust trust
  e' ← add_secrets names trust replace e
  reject_if (submit && conflicts e'.trust.submit trust replace) needs_replace
  ok (if submit then set_submit true (some trust) e' else e')

-- The arguments of `Edit` that follow the operation
pub record Change : Type 0 where
  pub names : List String
  pub submit : Bool
  pub trust : Trust
  pub replace : Bool
  pub entry : Option Entry

abbrev pub sorted : Entry → Entry
sorted e = elim e.perms.job_db [
  | none ↦ e
  | some g ↦ with_grant (record g { secrets = record { resolve = sort g.secrets.resolve } }) e
]

abbrev pub base_of : Bool → Snapshot → Option Document
base_of true s = s.cell
base_of false s = s.tenant

abbrev pub repository_of : Bool → Snapshot → String
repository_of true s = s.repository
repository_of false s = ""

-- `if e.Perms.JobDB == nil { e.Perms.JobDB = &permissions.JobDB{} }`
abbrev pub ensure_grant : Entry → Entry
ensure_grant e = with_grant (grant e) e

module _ (clone : Entry → Entry) where
  -- The entry that the switch leaves, where it is not "inherit"
  unfoldable pub change_entry : String → Change → Entry → Result Error Entry
  change_entry operation c e =
      if operation == "clear"
      then ok empty_entry
      else if operation == "set"
      then elim c.entry [ none ↦ err needs_entry | some given ↦ ok (clone given) ]
      else if operation == "add"
      then add_selected c.names c.submit c.trust c.replace e
      else if operation == "remove"
      then remove_selected c.names c.submit e
      else err (unknown_edit operation)

  abbrev pub cloned_or_empty : Option Entry → Entry
  cloned_or_empty none = empty_entry
  cloned_or_empty (some e) = clone e

  -- The entry that the edit starts from, with the hooks of the new document
  unfoldable pub current_entry : Bool → Snapshot → String → List (String × Entry) → Entry
  current_entry cell s hook hooks =
      ensure_grant (if cell then (select clone s hook).0 else cloned_or_empty (lookup hook hooks))

module _ (clean : String → String) (clone : Entry → Entry) (valid_cell : String → Bool) where
  unfoldable pub replace_entry :
      String → Entry → List (String × Entry) → Result Error (List (String × Entry))
  replace_entry hook e hooks =
      validate_entry valid_cell (sorted e) >> ok (assign hook (sorted e) hooks)

  -- The hooks of the new document
  unfoldable pub edit_hooks :
      Bool
      → String
      → String
      → Change
      → Snapshot
      → List (String × Entry)
      → Result Error (List (String × Entry))
  edit_hooks cell hook operation c s hooks =
      if operation == "inherit"
      then (if cell then ok (erase hook hooks) else err inherit_needs_cell)
      else change_entry clone operation c (current_entry clone cell s hook hooks) >>= λ e.
          replace_entry hook e hooks

  -- `Edit`
  unfoldable pub edit : Snapshot → Bool → String → String → Change → Result Error Document
  edit s cell hook operation c = do
    only_error (hook_path clean hook)
    hooks ← edit_hooks cell hook operation c s (map_values clone (hooks_of (base_of cell s)))
    ok (record { version = 1; repository = repository_of cell s; hooks = some hooks })
