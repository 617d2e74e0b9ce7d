-- ===== src/HookPolicy/Reading/Laws.antt =====
-- What `Capture` reads is valid, and an edit of it, once stored, is captured again.
use mathlib.Core.Path.{subst}
use c2j.Prelude.{String, Bool, true, false, Option, none, some, List, ◌≡◌, refl, arith}
use c2j.Prelude.{◌==◌, string_eq, lookup, if◌then◌else◌, Bytes, Option-cases}
use c2j.Prelude.{Result, ok, err, >>=-eq-ok}
use c2j.Prelude.{sym, ◌∷◌, ◌&&◌, ◌≢◌, beq_refl, Bool-cases, inl, inr}
use text.Mathlib.Text.{starts_with}
use text.Mathlib.TextPositions.{starts_with-append}
use c2j.HookPolicy.{Codec, clone}
use c2j.HookPolicy.{
  Error, Entry, Document, Snapshot, validate_entry, validate_hooks, validate_document, hooks_of,
}
use c2j.HookPolicy.Editing.{Change, base_of, repository_of, edit}
use c2j.HookPolicy.Editing.Laws.{edit-valid}
use c2j.HookPolicy.Reading.{
  Formats, ConfigurationSnapshot, in_key, decode, cell_key, tenant_key, read_document, read_cell,
  capture,
}

ok_injective :
    {A : Type 0} (a b : Option A) → ◌≡◌ {A = Result Error (Option A)} (ok a) (ok b) → a ≡ b
ok_injective a b h = ground arith

snapshot_injective : (a b : Snapshot) → ◌≡◌ {A = Result Error Snapshot} (ok a) (ok b) → a ≡ b
snapshot_injective a b h = ground arith

-- The document is put in the configuration under a key.
abbrev pub stored : String → Bytes → ConfigurationSnapshot → ConfigurationSnapshot
stored key raw c = record c { values = (key, raw) ∷ c.values }

-- The key that an edit of the policy of a repository, or of the tenant, is stored under
abbrev pub key_of : Formats → Bool → String → String
key_of x true repository = cell_key x repository
key_of x false repository = tenant_key

abbrev pub with_document : Bool → Document → Snapshot → Snapshot
with_document true d s = record s { cell = some d }
with_document false d s = record s { tenant = some d }

keys_differ : (x : Formats) (repository : String) → cell_key x repository ≢ tenant_key
keys_differ x repository e =
    let found : starts_with tenant_key "_c2j_hook_policy_cell_" ≡ true =
      subst (λ key. starts_with key "_c2j_hook_policy_cell_" ≡ true) e
        (starts_with-append "_c2j_hook_policy_cell_" (x.sha256_hex repository)) in
    let missing : starts_with tenant_key "_c2j_hook_policy_cell_" ≡ false = refl in cc

beq_ne : (a b : String) → a ≢ b → string_eq.beq a b ≡ false
beq_ne a b n = elim (Bool-cases (string_eq.beq a b)) [
  | inl e ↦ absurd (n ((string_eq.beq_iff a b).0 e))
  | inr e ↦ e
]

module _ (x : Formats) (clean : String → String) (valid : String → Bool) where
  document_hooks :
      (repository : String) (d : Document)
      → validate_document clean valid repository d ≡ ok tt
      → validate_hooks clean valid (hooks_of (some d)) ≡ ok tt
  unfolding validate_document
  document_hooks repository d h = ground (arith, Option-cases d.hooks)

  in_key_ok :
      {A : Type 0} (key : String) (r : Result Error A) (a : A) → in_key key r ≡ ok a → r ≡ ok a
  in_key_ok key (ok b) a h = ground arith
  in_key_ok key (err e) a h = absurd (ground arith)

  read_document-valid :
      (key expected : String) (raw : Option Bytes) (out : Option Document)
      → read_document x clean valid key expected raw ≡ ok out
      → validate_hooks clean valid (hooks_of out) ≡ ok tt
  unfolding read_document
  read_document-valid key expected none out h =
      subst (λ o. validate_hooks clean valid (hooks_of o) ≡ ok tt) (ok_injective none out h)
        (unfold validate_hooks in refl)
  read_document-valid key expected (some raw) out h =
      let (d, _, h1) = >>=-eq-ok (in_key key (decode x raw)) _ h in
      let (tt, checked, h2) =
        >>=-eq-ok (in_key key (validate_document clean valid expected d)) (λ _. ok (some d)) h1 in
      subst (λ o. validate_hooks clean valid (hooks_of o) ≡ ok tt) (ok_injective (some d) out h2)
        (document_hooks expected d
          (in_key_ok key (validate_document clean valid expected d) tt checked))

  read_cell-valid :
      (repository : String) (values : List (String × Bytes)) (out : Option Document)
      → read_cell x clean valid repository values ≡ ok out
      → validate_hooks clean valid (hooks_of out) ≡ ok tt
  read_cell-valid repository values out h = by_repository (repository == "") h
    where
      by_repository :
          (b : Bool)
          → (if b
              then ok none
              else read_document x clean valid
                  (cell_key x repository)
                  repository
                  (lookup (cell_key x repository) values))
            ≡ ok out
          → validate_hooks clean valid (hooks_of out) ≡ ok tt
      by_repository true h =
          subst (λ o. validate_hooks clean valid (hooks_of o) ≡ ok tt) (ok_injective none out h)
            (unfold validate_hooks in refl)
      by_repository false h =
          read_document-valid (cell_key x repository) repository
            (lookup (cell_key x repository) values) out h

  capture-valid :
      (c : ConfigurationSnapshot) (repository : String) (s : Snapshot)
      → capture x clean valid c repository ≡ ok s
      → (validate_hooks clean valid (hooks_of s.tenant) ≡ ok tt)
        × (validate_hooks clean valid (hooks_of s.cell) ≡ ok tt)
        × (s.repository ≡ repository)
  unfolding capture
  capture-valid c repository s h =
      let (tenant, read_tenant, h1) =
        >>=-eq-ok (read_document x clean valid tenant_key "" (lookup tenant_key c.values)) _ h in
      let (cell, read, h2) = >>=-eq-ok (read_cell x clean valid repository c.values) _ h1 in
      let v = read_document-valid tenant_key "" (lookup tenant_key c.values) tenant read_tenant in
      let v' = read_cell-valid repository c.values cell read in
      subst
        (λ s.
          (validate_hooks clean valid (hooks_of s.tenant) ≡ ok tt)
          × (validate_hooks clean valid (hooks_of s.cell) ≡ ok tt)
          × (s.repository ≡ repository))
        (snapshot_injective _ s h2) (v, v', refl)

  edit-valid_for :
      (y : Codec) (c : ConfigurationSnapshot) (repository : String) (s : Snapshot) (cell : Bool)
      (hook operation : String) (change : Change) (d : Document)
      → ((e : Entry) → validate_entry valid e ≡ ok tt → validate_entry valid (clone y e) ≡ ok tt)
      → capture x clean valid c repository ≡ ok s
      → edit clean (clone y) valid s cell hook operation change ≡ ok d
      → validate_document clean valid (if cell then repository else "") d ≡ ok tt
  edit-valid_for y c repository s cell hook operation change d keeps read edited =
      let (v, v', same) = capture-valid c repository s read in
      by_document cell v v' same
        (λ base. edit-valid clean (clone y) valid s cell hook operation change d keeps base edited)
    where
      by_document :
          (cell : Bool)
          → validate_hooks clean valid (hooks_of s.tenant) ≡ ok tt
          → validate_hooks clean valid (hooks_of s.cell) ≡ ok tt
          → s.repository ≡ repository
          → (validate_hooks clean valid (hooks_of (base_of cell s)) ≡ ok tt
              → validate_document clean valid (repository_of cell s) d ≡ ok tt)
          → validate_document clean valid (if cell then repository else "") d ≡ ok tt
      by_document true v v' same f =
          subst (λ r. validate_document clean valid r d ≡ ok tt) same (f v')
      by_document false v v' same f = f v

  -- The stages of a Capture that succeeds.
  pub record Captured (c : ConfigurationSnapshot) (repository : String) (s : Snapshot)
      : Type 0 where
    pub read_tenant :
        read_document x clean valid tenant_key "" (lookup tenant_key c.values) ≡ ok s.tenant
    pub read_own : read_cell x clean valid repository c.values ≡ ok s.cell
    pub same_repository : s.repository ≡ repository
    pub same_revision : s.revision ≡ c.revision

  capture-Captured :
      (c : ConfigurationSnapshot) (repository : String) (s : Snapshot)
      → capture x clean valid c repository ≡ ok s
      → Captured c repository s
  unfolding capture
  capture-Captured c repository s h =
      let (tenant, e, h1) =
        >>=-eq-ok (read_document x clean valid tenant_key "" (lookup tenant_key c.values)) _ h in
      let (cell, e', h2) = >>=-eq-ok (read_cell x clean valid repository c.values) _ h1 in
      subst (Captured c repository) (snapshot_injective _ s h2)
        (record { read_tenant = e; read_own = e'; same_repository = refl; same_revision = refl })

  Captured-capture :
      (c : ConfigurationSnapshot) (repository : String) (s : Snapshot)
      → Captured c repository s
      → capture x clean valid c repository ≡ ok s
  unfolding capture
  Captured-capture c repository s v =
      rw (v.read_tenant, v.read_own, sym v.same_repository, sym v.same_revision) refl

  read_stored :
      (key expected : String) (raw : Bytes) (d : Document)
      → decode x raw ≡ ok d
      → validate_document clean valid expected d ≡ ok tt
      → read_document x clean valid key expected (some raw) ≡ ok (some d)
  unfolding read_document
  read_stored key expected raw d e v = rw (e, v) refl

  lookup_stored :
      (key : String) (raw : Bytes) (values : List (String × Bytes))
      → lookup key ((key, raw) ∷ values) ≡ some raw
  unfolding lookup
  lookup_stored key raw values = rw (beq_refl key) refl

  lookup_beside :
      (key other : String) (raw : Bytes) (values : List (String × Bytes))
      → string_eq.beq key other ≡ false
      → lookup other ((key, raw) ∷ values) ≡ lookup other values
  unfolding lookup
  lookup_beside key other raw values e = rw e refl

  stored-Captured :
      (c : ConfigurationSnapshot) (repository : String) (s : Snapshot) (cell : Bool) (raw : Bytes)
      (d : Document)
      → Captured c repository s
      → decode x raw ≡ ok d
      → validate_document clean valid (if cell then repository else "") d ≡ ok tt
      → (cell && repository == "") ≡ false
      → Captured (stored (key_of x cell repository) raw c) repository (with_document cell d s)
  stored-Captured c repository s true raw d v e fits named = record {
    read_tenant =
        rw (lookup_beside _ tenant_key raw c.values (beq_ne _ _ (keys_differ x repository)))
          v.read_tenant;
    read_own =
        rw (named, lookup_stored (cell_key x repository) raw c.values)
          (read_stored (cell_key x repository) repository raw d e fits);
    same_repository = v.same_repository;
    same_revision = v.same_revision;
  }
  stored-Captured c repository s false raw d v e fits named = record {
    read_tenant =
        rw (lookup_stored tenant_key raw c.values) (read_stored tenant_key "" raw d e fits);
    read_own =
        rw
          (lookup_beside tenant_key (cell_key x repository) raw c.values
            (beq_ne _ _ (λ e. keys_differ x repository (sym e))))
          v.read_own;
    same_repository = v.same_repository;
    same_revision = v.same_revision;
  }

  -- Where an edit of what Capture has read succeeds, and bytes that Decode reads as its document are
  -- stored under the key of the repository, which has a name, or of the tenant, Capture accepts them
  -- and has that document in its place, the other policy being as it was. An entry that is valid is
  -- to stay so where it is encoded and decoded as JSON.
  pub edit-captured :
      (y : Codec) (c : ConfigurationSnapshot) (repository : String) (s : Snapshot) (cell : Bool)
      (hook operation : String) (change : Change) (d : Document) (raw : Bytes)
      → ((e : Entry)
          → validate_entry valid e ≡ ok tt
          → validate_entry valid (y.unmarshal (y.marshal e)) ≡ ok tt)
      → capture x clean valid c repository ≡ ok s
      → edit clean (clone y) valid s cell hook operation change ≡ ok d
      → (cell && repository == "") ≡ false
      → decode x raw ≡ ok d
      → capture x clean valid (stored (key_of x cell repository) raw c) repository
        ≡ ok (with_document cell d s)
  edit-captured y c repository s cell hook operation change d raw keeps read edited named decoded =
      Captured-capture _ repository (with_document cell d s) (
        stored-Captured c repository s cell raw d (capture-Captured c repository s read) decoded
          (edit-valid_for y c repository s cell hook operation change d keeps read edited) named)
