-- ===== src/HookPolicy/Tests.antt =====
-- The theorems on hook policies at a concrete policy.
use c2j.Prelude.{String, Bool, true, false, ◌&&◌, none, some, [], ◌∷◌, ◌≡◌, ◌≢◌, refl}
use c2j.Prelude.{string_eq, nat_eq, contains, every, keep_if, lookup, ok, err}
use c2j.Prelude.Sorting.{sort, compact}
use c2j.Permissions.Errors.{jobs_need_submit}
use c2j.Permissions.Grant.{
  JobDb, subset, validate, check_names, check_cell_names, secret_name, within,
}
use c2j.Permissions.Scope.{
  State, resolve, declared, start, apply_all, check_limit, enter, entered, validate_spec,
}
use c2j.Permissions.Authority.{Action, allows}
use c2j.Permissions.Confinement.{ceiling}
use c2j.HookPolicy.{
  permission, duplicate_field, nil_trust, Trust, Entry, Document, Snapshot, allows_commit, grant_of,
  empty_entry, no_state, hooks_of, hook_path, is_hash, validate_trust, check_trusts, check_granted,
  validate_entry, validate_hooks, validate_document, select,
}
use c2j.HookPolicy.Delegation.{
  is_candidate, limits, narrow_all, hook_state, check_secrets, child_grant, check_hook, enter_call,
  authority,
}
use c2j.HookPolicy.Delegation.Confinement.{
  under_all, trusted, authority-confined, authority-child_grant,
}
use c2j.HookPolicy.Delegation.Safety.{authority_no_panic}
use c2j.HookPolicy.Editing.{
  Change, erase, map_values, add_secrets, remove_secrets, add_selected, remove_selected,
  change_entry, current_entry, replace_entry, edit_hooks, edit,
}
use c2j.HookPolicy.Reading.{
  node, end, more, mapping_node, scalar_node, Formats, ConfigurationSnapshot, tenant_key,
  duplicate_key, check, check_all, decode, read_document, capture, reference,
}
use c2j.Prelude.{Bool-cases, inl, inr, is_nil, if◌then◌else◌, codes}
use c2j.HookPolicy.{Codec, clone}
use c2j.HookPolicy.Reading.Laws.{stored, key_of, with_document, edit-captured}
use c2j.HookPolicy.Editing.Selection.{Grants, edit_adds}

abbrev any : String → Bool
any name = true

abbrev path : String → String
path p = p

abbrev copy : Entry → Entry
copy e = e

abbrev candidate : Trust
candidate = record { mode = "candidate"; commit = "" }

abbrev fixed : Trust
fixed = record { mode = "commit"; commit = "0123456789abcdef0123456789abcdef01234567" }

-- A hook that may read a secret of one commit, and submit jobs of any candidate.
abbrev hook_entry : Entry
hook_entry = record {
  perms = record {
    job_db = some (record {
      secrets = record { resolve = "token" ∷ [] };
      jobs = record { cell_names = none; submit = true };
      cells = record { create = false; cell_names = none };
    });
    limit = none;
    inherit = false;
    overrides = none;
  };
  trust = record { secrets = ("token", fixed) ∷ []; submit = some candidate; create_cells = none };
}

abbrev hook_grant : JobDb
hook_grant = grant_of hook_entry.perms.job_db

abbrev no_child : JobDb
no_child = record {
  secrets = record { resolve = [] };
  jobs = record { cell_names = none; submit = true };
  cells = record { create = false; cell_names = none };
}

entry_is_valid : validate_entry any hook_entry ≡ ok tt
unfolding validate_entry validate_spec enter entered resolve declared start apply_all check_limit
    validate check_names check_cell_names secret_name check_trusts check_granted validate_trust
    is_hash sort compact every contains lookup
entry_is_valid = refl

abbrev state : State
state = hook_state hook_grant no_child

runs : authority any hook_entry fixed.commit no_state none ≡ ok state
unfolding authority check_hook check_secrets child_grant enter_call narrow_all validate_entry
    validate_spec enter entered resolve declared start apply_all check_limit validate check_names
    check_cell_names secret_name check_trusts check_granted validate_trust allows_commit is_hash
    sort compact every contains lookup keep_if
runs = refl

authority-confined_example :
    (allows (grant_of hook_entry.perms.job_db) (Action.submit_to "east") ≡ true)
    × (under_all (limits hook_entry no_state none) (Action.submit_to "east") ≡ true)
    × (trusted (λ t. allows_commit t fixed.commit) hook_entry.trust (Action.submit_to "east")
        ≡ true)
unfolding resolve declared start apply_all check_limit subset within validate check_names
    check_cell_names secret_name sort compact every contains allows
authority-confined_example =
    authority-confined any hook_entry fixed.commit no_state none state [] hook_grant
      (Action.submit_to "east") runs refl refl

authority-child_grant_example :
    (c : JobDb) × (state.child_grant ≡ some c)
    × (allows c (Action.resolve_secret "token") ≡ (
        ceiling state.limit (Action.resolve_secret "token")
        && trusted is_candidate hook_entry.trust (Action.resolve_secret "token")))
authority-child_grant_example =
    authority-child_grant any hook_entry fixed.commit no_state none state
      (Action.resolve_secret "token") runs

authority_no_panic_example :
    authority any empty_entry "" no_state (some empty_entry.perms) ≢ err nil_trust
authority_no_panic_example = authority_no_panic any empty_entry "" no_state (some empty_entry.perms)

abbrev tenant : Document
tenant = record { version = 1; repository = ""; hooks = some (("lint.yaml", hook_entry) ∷ []) }

abbrev snapshot : Snapshot
snapshot = record { revision = "1"; repository = "repo"; tenant = some tenant; cell = none }

abbrev selection : Change
selection = record {
  names = "pin" ∷ [];
  submit = false;
  trust = candidate;
  replace = false;
  entry = none;
}

-- The policy of the repository starts from what the tenant has for the hook.
abbrev added : Document
added = record {
  version = 1;
  repository = "repo";
  hooks = some (
      (
        "lint.yaml",
        record {
          perms = record hook_entry.perms {
            job_db =
                some (record hook_grant { secrets = record { resolve = "pin" ∷ "token" ∷ [] } });
          };
          trust = record hook_entry.trust { secrets = ("pin", candidate) ∷ ("token", fixed) ∷ [] };
        },
      )
      ∷ []);
}

adds : edit path copy any snapshot true "lint.yaml" "add" selection ≡ ok added
unfolding edit edit_hooks replace_entry current_entry change_entry add_selected add_secrets
    map_values erase select hook_path validate_entry validate_spec enter entered resolve declared
    start apply_all check_limit validate check_names check_cell_names secret_name check_trusts
    check_granted validate_trust is_hash sort compact every contains lookup
adds = refl

-- Every text is the document of the tenant, which as YAML is a mapping of one key.
abbrev formats : Formats
formats = record {
  parse_yaml = λ raw. some (
      node mapping_node "!!map" "" (
        more (node scalar_node "!!str" "version" end)
          (more (node scalar_node "!!int" "1" end) end)));
  parse_json = λ raw. some (tenant, false);
  sha256_hex = λ s. s;
}

abbrev configuration : ConfigurationSnapshot
configuration = record { revision = "1"; values = (tenant_key, []) ∷ [] }

captures : capture formats path any configuration "repo" ≡ ok snapshot
unfolding capture read_document decode check check_all duplicate_key validate_document
    validate_hooks hook_path validate_entry validate_spec enter entered resolve declared start
    apply_all check_limit validate check_names check_cell_names secret_name check_trusts
    check_granted validate_trust is_hash sort compact every contains lookup
captures = refl

-- A key that stands twice is refused, before the JSON is read.
doubled :
    check (
      node mapping_node "!!map" "" (
        more (node scalar_node "!!str" "version" end) (
          more (node scalar_node "!!int" "1" end) (
            more
              (node scalar_node "!!str" "version" end)
              (more (node scalar_node "!!int" "2" end) end)))))
    ≡ err (duplicate_field "version")
unfolding check check_all duplicate_key contains
doubled = refl

refers : reference path "cell://hooks/lint.yaml" ≡ ok "hooks/lint.yaml"
unfolding reference hook_path every
refers = refl

-- The two entries of the test, told apart by their trusts
abbrev codec : Codec
codec = record {
  marshal = λ e. if is_nil e.trust.secrets then [] else codes "hook";
  unmarshal = λ raw. if is_nil raw then empty_entry else hook_entry;
}

empty_is_valid : validate_entry any empty_entry ≡ ok tt
unfolding validate_entry validate_spec enter entered resolve declared start apply_all check_limit
    validate check_names check_cell_names check_trusts check_granted sort compact every contains
    lookup
empty_is_valid = refl

codec-valid :
    (e : Entry)
    → validate_entry any e ≡ ok tt
    → validate_entry any (codec.unmarshal (codec.marshal e)) ≡ ok tt
codec-valid e h = elim (Bool-cases (is_nil e.trust.secrets)) [
  | inl bare ↦ rw bare empty_is_valid
  | inr trusting ↦ rw trusting entry_is_valid
]

adds_by_codec : edit path (clone codec) any snapshot true "lint.yaml" "add" selection ≡ ok added
unfolding edit edit_hooks replace_entry current_entry change_entry add_selected add_secrets
    map_values erase select hook_path validate_entry validate_spec enter entered resolve declared
    start apply_all check_limit validate check_names check_cell_names secret_name check_trusts
    check_granted validate_trust is_hash sort compact every contains lookup
adds_by_codec = refl

-- The empty text is the document of the tenant, and any other the edited one.
abbrev both_documents : Formats
both_documents = record formats {
  parse_json = λ raw. some (if is_nil raw then tenant else added, false);
}

captures_both : capture both_documents path any configuration "repo" ≡ ok snapshot
unfolding capture read_document decode check check_all duplicate_key validate_document
    validate_hooks hook_path validate_entry validate_spec enter entered resolve declared start
    apply_all check_limit validate check_names check_cell_names secret_name check_trusts
    check_granted validate_trust is_hash sort compact every contains lookup
captures_both = refl

decodes_added : decode both_documents (codes "{}") ≡ ok added
unfolding decode check check_all duplicate_key contains
decodes_added = refl

edit-captured_example :
    capture both_documents path any
      (stored (key_of both_documents true "repo") (codes "{}") configuration)
      "repo"
    ≡ ok (with_document true added snapshot)
edit-captured_example =
    edit-captured both_documents path any codec configuration "repo" snapshot true "lint.yaml" "add"
      selection added (codes "{}") codec-valid captures_both adds_by_codec refl decodes_added

edit_adds_example :
    (e : Entry) × (lookup "lint.yaml" (hooks_of (some added)) ≡ some e) × Grants "pin" candidate e
unfolding contains
edit_adds_example =
    edit_adds path copy any snapshot true "lint.yaml" selection added "pin" adds refl

abbrev removal : Change
removal = record {
  names = "token" ∷ [];
  submit = false;
  trust = candidate;
  replace = false;
  entry = none;
}

abbrev removed : Document
removed = record {
  version = 1;
  repository = "repo";
  hooks = some (
      (
        "lint.yaml",
        record {
          perms = record hook_entry.perms {
            job_db = some (record hook_grant { secrets = record { resolve = [] } });
          };
          trust = record hook_entry.trust { secrets = [] };
        },
      )
      ∷ []);
}

removes : edit path copy any snapshot true "lint.yaml" "remove" removal ≡ ok removed
unfolding edit edit_hooks replace_entry current_entry change_entry remove_selected remove_secrets
    map_values erase select hook_path validate_entry validate_spec enter entered resolve declared
    start apply_all check_limit validate check_names check_cell_names check_trusts check_granted
    validate_trust sort compact every keep_if lookup
removes = refl

-- The submission of jobs cannot be taken from an entry that restricts it to cells: the list of cells
-- stays behind and is invalid without it.
abbrev restricted : Entry
restricted = record {
  perms = record hook_entry.perms {
    job_db = some (record {
      secrets = record { resolve = [] };
      jobs = record { cell_names = some ("east" ∷ []); submit = true };
      cells = record { create = false; cell_names = none };
    });
  };
  trust = record { secrets = []; submit = some candidate; create_cells = none };
}

abbrev restricted_tenant : Snapshot
restricted_tenant = record {
  revision = "1";
  repository = "";
  tenant =
      some (record { version = 1; repository = ""; hooks = some (("lint.yaml", restricted) ∷ []) });
  cell = none;
}

abbrev no_submission : Change
no_submission = record {
  names = [];
  submit = true;
  trust = candidate;
  replace = false;
  entry = none;
}

submission_stays :
    edit path copy any restricted_tenant false "lint.yaml" "remove" no_submission
    ≡ err (permission jobs_need_submit)
unfolding edit edit_hooks replace_entry current_entry change_entry remove_selected remove_secrets
    map_values erase hook_path validate_entry validate_spec validate check_names check_cell_names
    sort every lookup
submission_stays = refl
