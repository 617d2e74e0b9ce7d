-- ===== src/HookPolicy.antt =====
-- pkg/hookpolicy/policy.go: the entries, trusts and documents of a hook policy, their validation and
-- `Select`. A Go map is the list of its entries. `clean` is `path.Clean`, and `valid_cell` is
-- `jobdb.ValidateCellName`; where a copy is made, the parameter `clone` stands for `clone x` of a codec. Reading a method of a nil `*Trust` panics: `nil_trust`.
pub mod Delegation
pub mod Editing
pub mod Reading
mod Tests
use c2j.Prelude.{
  ℕ, String, Bool, true, false, not, ◌&&◌, ◌||◌, Option, none, some, List, [], ◌∷◌, codes, Bytes,
}
use c2j.Prelude.{
  ◌==◌, string_eq, nat_eq, contains, every, keep_if, lookup, has_prefix, length, leb, nat_beq,
  if◌then◌else◌,
}
use c2j.Prelude.{Result, ok, err, ◌>>=◌, ◌>>◌, reject_if}
use c2j.Permissions.Errors as PermissionErrors
use c2j.Permissions.Grant.{JobDb}
use c2j.Permissions.Scope.{Spec, State, is_some, validate_spec, enter, current_version}

pub data Error : Type 0 where
  bad_path bad_trust needs_complete_grant submit_trust_mismatch create_trust_mismatch : Error
  bad_document nil_trust inherit_needs_cell needs_entry nothing_selected needs_replace : Error
  secret_needs_trust ungranted_trust : String → Error
  secret_untrusted : String → String → Error
  submit_untrusted create_untrusted : String → Error
  unknown_edit : String → Error
  not_a_reference bad_yaml bad_json more_documents null_or_alias : Error
  duplicate_field : String → Error
  in_document : String → Error → Error
  permission : PermissionErrors.Error → Error
  in_hook : String → Error → Error

abbrev pub lift {ℓ} : {A : Type ℓ} → Result PermissionErrors.Error A → Result Error A
lift (ok a) = ok a
lift (err e) = err (permission e)

abbrev pub within_hook : String → Result Error (Unit {0}) → Result Error (Unit {0})
within_hook hook (ok u) = ok u
within_hook hook (err e) = err (in_hook hook e)

-- `if _, err := e; err != nil`
abbrev pub only_error {ℓ} : {E A : Type ℓ} → Result E A → Result E (Unit {0})
only_error (ok a) = ok tt
only_error (err e) = err e

pub record Trust : Type 0 where
  pub mode : String
  pub commit : String

pub record SourceTrust : Type 0 where
  pub secrets : List (String × Trust)
  pub submit : Option Trust
  pub create_cells : Option Trust

pub record Entry : Type 0 where
  pub perms : Spec
  pub trust : SourceTrust

-- `json.Marshal` and `json.Unmarshal` of an `Entry`: what they return, an error put aside
pub record Codec : Type 0 where
  pub marshal : Entry → Bytes
  pub unmarshal : Bytes → Entry

-- `Clone`
abbrev pub clone : Codec → Entry → Entry
clone x e = x.unmarshal (x.marshal e)

pub record Document : Type 0 where
  pub version : ℕ
  pub repository : String
  pub hooks : Option (List (String × Entry))

pub record Snapshot : Type 0 where
  pub revision : String
  pub repository : String
  pub tenant : Option Document
  pub cell : Option Document

-- `strings.ContainsAny(s, "\\\x00\r\n") || strings.Contains(s, ":")`
abbrev pub plain : ℕ → Bool
plain c = not (nat_beq c b'\\' || nat_beq c 0 || nat_beq c 13 || nat_beq c 10 || nat_beq c b':')

-- `Path`
unfoldable pub hook_path : (String → String) → String → Result Error String
hook_path clean s =
    if s == ""
      || not (clean s == s)
      || has_prefix s "/"
      || s == "."
      || s == ".."
      || has_prefix s "../"
      || not (every plain (codes s))
    then err bad_path
    else ok s

-- `^[0-9a-f]{40}$`
abbrev pub is_hex : ℕ → Bool
is_hex c = (leb b'0' c && leb c b'9') || (leb b'a' c && leb c b'f')

unfoldable pub is_hash : String → Bool
is_hash s = nat_beq (length (codes s)) 40 && every is_hex (codes s)

-- `Trust.Validate`
unfoldable pub validate_trust : Trust → Result Error (Unit {0})
validate_trust t =
    if t.mode == "candidate" && t.commit == ""
    then ok tt
    else if t.mode == "commit" && is_hash t.commit
    then ok tt
    else err bad_trust

-- `Trust.Allows`
unfoldable pub allows_commit : Trust → String → Bool
allows_commit t commit = t.mode == "candidate" || (t.mode == "commit" && t.commit == commit)

abbrev pub no_grant : JobDb
no_grant = record {
  secrets = record { resolve = [] };
  jobs = record { cell_names = none; submit = false };
  cells = record { create = false; cell_names = none };
}

abbrev pub grant_of : Option JobDb → JobDb
grant_of none = no_grant
grant_of (some g) = g

-- `Empty`
abbrev pub empty_entry : Entry
empty_entry = record {
  perms = record { job_db = some no_grant; limit = none; inherit = false; overrides = none };
  trust = record { secrets = []; submit = none; create_cells = none };
}

-- `permissions.State{Version: permissions.Version}`
abbrev pub no_state : State
no_state = record {
  child_grant = none;
  child_policy = [];
  version = current_version;
  grant = none;
  limit = none;
  inputs = none;
  overrides = [];
}

abbrev pub check_trust : String → Option Trust → Result Error (Unit {0})
check_trust name none = err (secret_needs_trust name)
check_trust name (some t) = validate_trust t

-- The loop over the granted secrets.
unfoldable pub check_trusts : List (String × Trust) → List String → Result Error (Unit {0})
check_trusts trusts [] = ok tt
check_trusts trusts (name ∷ names) =
    check_trust name (lookup name trusts) >> check_trusts trusts names

-- The loop over the trusts.
unfoldable pub check_granted : List String → List (String × Trust) → Result Error (Unit {0})
check_granted granted [] = ok tt
check_granted granted ((name, t) ∷ trusts) =
    reject_if (not (contains granted name)) (ungranted_trust name) >> check_granted granted trusts

-- A grant and its trust come together.
abbrev pub check_pair : Bool → Option Trust → Error → Result Error (Unit {0})
check_pair true none e = err e
check_pair true (some t) e = validate_trust t
check_pair false none e = ok tt
check_pair false (some t) e = err e

module _ (valid_cell : String → Bool) where
  -- `Entry.Validate`
  unfoldable pub validate_entry : Entry → Result Error (Unit {0})
  validate_entry e = do
    reject_if e.perms.inherit needs_complete_grant
    lift (validate_spec valid_cell e.perms)
    lift (only_error (enter valid_cell no_state (some e.perms)))
    let g = grant_of e.perms.job_db
    check_trusts e.trust.secrets g.secrets.resolve
    check_granted g.secrets.resolve e.trust.secrets
    check_pair g.jobs.submit e.trust.submit submit_trust_mismatch
    check_pair g.cells.create e.trust.create_cells create_trust_mismatch

module _ (clean : String → String) (valid_cell : String → Bool) where
  unfoldable pub validate_hooks : List (String × Entry) → Result Error (Unit {0})
  validate_hooks [] = ok tt
  validate_hooks ((path, e) ∷ hooks) = do
    p ← hook_path clean path
    within_hook p (validate_entry valid_cell e)
    validate_hooks hooks

  -- `Document.Validate`
  unfoldable pub validate_document : String → Document → Result Error (Unit {0})
  validate_document repository d = elim d.hooks [
    | none ↦ err bad_document
    | some hooks ↦
        if nat_beq d.version 1 && d.repository == repository
        then validate_hooks hooks
        else err bad_document
  ]

abbrev pub hooks_of : Option Document → List (String × Entry)
hooks_of none = []
hooks_of (some d) = elim d.hooks [ none ↦ [] | some hooks ↦ hooks ]

module _ (clone : Entry → Entry) where
  -- `Select`, where the tenant or nothing is left
  abbrev pub select_tenant : Option Entry → Entry × String
  select_tenant none = (empty_entry, "none")
  select_tenant (some e) = (clone e, "tenant")

  abbrev pub select_first : Option Entry → Option Entry → Entry × String
  select_first none tenant = select_tenant tenant
  select_first (some e) tenant = (clone e, "cell")

  -- `Select`
  unfoldable pub select : Snapshot → String → Entry × String
  select s hook = select_first (lookup hook (hooks_of s.cell)) (lookup hook (hooks_of s.tenant))
