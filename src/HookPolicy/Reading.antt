-- ===== src/HookPolicy/Reading.antt =====
-- pkg/hookpolicy/policy.go: `Reference`, `Decode` of a document and `Capture`. `yaml.Unmarshal`, the two
-- calls of a strict `json.Decoder` and `sha256.Sum256` are the parameter `Formats`. `Capture` goes over a
-- map of the two keys in any order: here the tenant comes first, which only chooses between two errors.
pub mod Laws
use Prim.Native.Char.{code}
use Prim.Native.String.{◌++◌ as text_append}
use c2j.Prelude.{ℕ, String, Bool, true, false, not, ◌&&◌, ◌||◌, Option, none, some, List, [], ◌∷◌}
use c2j.Prelude.{◌==◌, string_eq, contains, lookup, nat_beq, if◌then◌else◌, Bytes}
use c2j.Prelude.{Result, ok, err, ◌>>=◌, ◌>>◌, reject_if}
use c2j.HookPolicy.{
  Error, not_a_reference, bad_yaml, bad_json, more_documents, null_or_alias, duplicate_field,
  in_document, Document, Snapshot, hook_path, validate_document,
}

pub data Kind : Type 0 where
  document_node sequence_node mapping_node scalar_node alias_node : Kind

-- `yaml.Node`
mutual
  pub data Node : Type 0 where
    node : Kind → String → String → Nodes → Node

  pub data Nodes : Type 0 where
    end : Nodes
    more : Node → Nodes → Nodes

pub record Formats : Type 0 where
  pub parse_yaml : Bytes → Option Node
  -- The document, and whether anything follows it
  pub parse_json : Bytes → Option (Document × Bool)
  pub sha256_hex : String → String

abbrev pub value_of : Node → String
value_of (node kind tag value content) = value

-- The loop over the keys, which stand at the even places: the first that was seen before
unfoldable pub duplicate_key : List String → Nodes → Option String
duplicate_key seen end = none
duplicate_key seen (more k end) = if contains seen (value_of k) then some (value_of k) else none
duplicate_key seen (more k (more v rest)) =
    let found = duplicate_key (value_of k ∷ seen) rest in
    if contains seen (value_of k) then some (value_of k) else found

abbrev pub duplicates : Kind → Nodes → Option String
duplicates mapping_node content = duplicate_key [] content
duplicates _ content = none

abbrev pub is_alias : Kind → Bool
is_alias alias_node = true
is_alias _ = false

abbrev pub reject_duplicate : Option String → Result Error (Unit {0})
reject_duplicate none = ok tt
reject_duplicate (some key) = err (duplicate_field key)

-- `check`
unfoldable mutual
  pub check : Node → Result Error (Unit {0})
  check (node kind tag value content) =
      reject_if (tag == "!!null" || is_alias kind) null_or_alias
      >> (reject_duplicate (duplicates kind content) >> check_all content)

  pub check_all : Nodes → Result Error (Unit {0})
  check_all end = ok tt
  check_all (more n ns) = check n >> check_all ns

-- `strings.HasPrefix` and `strings.TrimPrefix`
abbrev pub cut_prefix : String → String → Option String
cut_prefix String.[] s = some s
cut_prefix (String.◌∷◌ d p) String.[] = none
cut_prefix (String.◌∷◌ d p) (String.◌∷◌ c s) =
    if nat_beq (code c) (code d) then cut_prefix p s else none

-- `Reference`
unfoldable pub reference : (String → String) → String → Result Error String
reference clean s = elim (cut_prefix "cell://" s) [
  | none ↦ err not_a_reference
  | some path ↦ hook_path clean path
]

abbrev pub tenant_key : String
tenant_key = "_c2j_hook_policy_tenant"

-- `jobdb.ConfigurationSnapshot`
pub record ConfigurationSnapshot : Type 0 where
  pub revision : String
  pub values : List (String × Bytes)

abbrev pub in_key : {A : Type 0} → String → Result Error A → Result Error A
in_key key (ok a) = ok a
in_key key (err e) = err (in_document key e)

module _ (x : Formats) where
  abbrev pub checked_yaml : Option Node → Result Error (Unit {0})
  checked_yaml none = err bad_yaml
  checked_yaml (some n) = check n

  abbrev pub single : Option (Document × Bool) → Result Error Document
  single none = err bad_json
  single (some (d, false)) = ok d
  single (some (d, true)) = err more_documents

  -- `Decode`
  unfoldable pub decode : Bytes → Result Error Document
  decode raw = checked_yaml (x.parse_yaml raw) >> single (x.parse_json raw)

  -- `CellKey`
  abbrev pub cell_key : String → String
  cell_key repository = text_append "_c2j_hook_policy_cell_" (x.sha256_hex repository)

  module _ (clean : String → String) (valid_cell : String → Bool) where
    -- The body of the loop over the keys
    unfoldable pub read_document : String → String → Option Bytes → Result Error (Option Document)
    read_document key expected none = ok none
    read_document key expected (some raw) = do
      d ← in_key key (decode raw)
      in_key key (validate_document clean valid_cell expected d)
      ok (some d)

    abbrev pub read_cell : String → List (String × Bytes) → Result Error (Option Document)
    read_cell repository values =
        if repository == ""
        then ok none
        else read_document (cell_key repository) repository (lookup (cell_key repository) values)

    -- `Capture`
    unfoldable pub capture : ConfigurationSnapshot → String → Result Error Snapshot
    capture s repository = do
      tenant ← read_document tenant_key "" (lookup tenant_key s.values)
      cell ← read_cell repository s.values
      ok (record { revision = s.revision; repository = repository; tenant = tenant; cell = cell })
