-- ===== src/HookPolicy/Editing/Selection.antt =====
-- What "add" and "remove" do to the selected secrets.
use mathlib.Core.Path.{subst}
use c2j.Prelude.{
  String, Bool, true, false, not, ◌&&◌, ◌||◌, Option, none, some, List, [], ◌∷◌, ◌≡◌, refl, sym, ap,
  ◌∙◌, arith,
}
use c2j.Prelude.{
  ◌==◌, string_eq, beq_refl, lookup, contains, contains-append, is_nil, if◌then◌else◌, Bool-cases,
  Option-cases, inl, inr,
}
use c2j.Prelude.{Result, ok, >>=-eq-ok, reject_if}
use c2j.Prelude.Sorting.{contains-sort}
use c2j.Permissions.Authority.{contains-keep_if}
use c2j.HookPolicy.{
  Error, nothing_selected, needs_replace, Trust, Entry, Document, Snapshot, validate_trust,
  hooks_of,
}
use c2j.HookPolicy.Editing.{
  erase, assign, map_values, grant, remove_secret, add_name, add_secret, conflicts, remove_secrets,
  add_secrets, set_submit, remove_selected, add_selected, Change, sorted, change_entry, base_of,
  current_entry, edit,
}
use c2j.HookPolicy.Editing.Laws.{lookup-erase_ne, lookup-erase_self, edit_stages, edit_hooks_ok}

ok_injective : (a b : Entry) → ◌≡◌ {A = Result Error Entry} (ok a) (ok b) → a ≡ b
ok_injective a b h = ground arith

-- The entry grants a secret, and says whom it trusts with it.
abbrev pub Grants : String → Trust → Entry → Type 0
Grants name trust e =
    (contains (grant e).secrets.resolve name ≡ true) × (lookup name e.trust.secrets ≡ some trust)

abbrev pub Lacks : String → Entry → Type 0
Lacks name e =
    (contains (grant e).secrets.resolve name ≡ false) × (lookup name e.trust.secrets ≡ none)

lookup-assign_self :
    {A : Type 0} (key : String) (a : A) (m : List (String × A))
    → lookup key (assign key a m) ≡ some a
unfolding lookup
lookup-assign_self key a m = ground (arith, beq_refl key)

lookup-assign_ne :
    {A : Type 0} (key k : String) (a : A) (m : List (String × A))
    → string_eq.beq key k ≡ false
    → lookup k (assign key a m) ≡ lookup k m
unfolding lookup
lookup-assign_ne key k a m n =
    rw n (lookup-erase_ne key k m (λ e. ground (arith, (string_eq.beq_iff key k).1 (sym e))))

contains-add_name :
    (name n : String) (names : List String)
    → contains (add_name name names) n ≡ (contains names n || string_eq.beq name n)
unfolding contains
contains-add_name name n names = elim (Bool-cases (contains names name)) [
  | inl there ↦ rw there (elim (Bool-cases (string_eq.beq name n)) [
    | inl same ↦
        let here = subst (λ k. contains names k ≡ true) ((string_eq.beq_iff name n).0 same) there in
        ground arith
    | inr other ↦ ground arith
  ])
  | inr new ↦ rw (new, contains-append names (name ∷ []) n) (ground arith)
]

add_secret-Grants :
    (name : String) (trust : Trust) (e : Entry) → Grants name trust (add_secret name trust e)
add_secret-Grants name trust e = (
  ground (arith, contains-add_name name name (grant e).secrets.resolve, beq_refl name),
  lookup-assign_self name trust e.trust.secrets,
)

add_secret_keeps :
    (name n : String) (trust : Trust) (e : Entry)
    → Grants n trust e
    → Grants n trust (add_secret name trust e)
add_secret_keeps name n trust e (p, q) = elim (Bool-cases (string_eq.beq name n)) [
  | inl same ↦ (
    ground (arith, contains-add_name name n (grant e).secrets.resolve),
    subst (λ k. lookup k (assign name trust e.trust.secrets) ≡ some trust)
        ((string_eq.beq_iff name n).0 same) (lookup-assign_self name trust e.trust.secrets),
  )
  | inr other ↦ (
    ground (arith, contains-add_name name n (grant e).secrets.resolve),
    lookup-assign_ne name n trust e.trust.secrets other ∙ q,
  )
]

add_secrets_keeps :
    (names : List String) (n : String) (trust : Trust) (replace : Bool) (e out : Entry)
    → add_secrets names trust replace e ≡ ok out
    → Grants n trust e
    → Grants n trust out
unfolding add_secrets
add_secrets_keeps [] n trust replace e out h g = subst (Grants n trust) (ok_injective e out h) g
add_secrets_keeps (name ∷ names) n trust replace e out h g =
    let (tt, _, h') =
      >>=-eq-ok (reject_if (conflicts (lookup name e.trust.secrets) trust replace) _)
        (λ _. add_secrets names trust replace (add_secret name trust e)) h in
    add_secrets_keeps names n trust replace (add_secret name trust e) out h'
      (add_secret_keeps name n trust e g)

add_secrets-Grants :
    (names : List String) (n : String) (trust : Trust) (replace : Bool) (e out : Entry)
    → add_secrets names trust replace e ≡ ok out
    → contains names n ≡ true
    → Grants n trust out
unfolding add_secrets contains
add_secrets-Grants [] n trust replace e out h m = cc
add_secrets-Grants (name ∷ names) n trust replace e out h m =
    let (tt, _, h') =
      >>=-eq-ok (reject_if (conflicts (lookup name e.trust.secrets) trust replace) _)
        (λ _. add_secrets names trust replace (add_secret name trust e)) h in
    elim (Bool-cases (string_eq.beq name n)) [
      | inl same ↦ add_secrets_keeps names n trust replace (add_secret name trust e) out h' (
          subst (λ k. Grants k trust (add_secret name trust e)) ((string_eq.beq_iff name n).0 same)
            (add_secret-Grants name trust e))
      | inr other ↦
          add_secrets-Grants names n trust replace (add_secret name trust e) out h' (ground arith)
    ]

erase_keeps-none :
    {A : Type 0} (key k : String) (m : List (String × A))
    → lookup k m ≡ none
    → lookup k (erase key m) ≡ none
unfolding lookup erase
erase_keeps-none key k [] h = refl
erase_keeps-none key k ((j, a) ∷ m) h = ground (arith, erase_keeps-none key k m)

remove_secret-Lacks : (name : String) (e : Entry) → Lacks name (remove_secret name e)
remove_secret-Lacks name e = (
  ground (
    arith,
    contains-keep_if (λ v. not (v == name)) (grant e).secrets.resolve name,
    beq_refl name,
  ),
  lookup-erase_self name e.trust.secrets,
)

remove_secret_keeps : (name n : String) (e : Entry) → Lacks n e → Lacks n (remove_secret name e)
remove_secret_keeps name n e (p, q) = (
  ground (arith, contains-keep_if (λ v. not (v == name)) (grant e).secrets.resolve n),
  erase_keeps-none name n e.trust.secrets q,
)

remove_secrets_keeps :
    (names : List String) (n : String) (e : Entry) → Lacks n e → Lacks n (remove_secrets names e)
unfolding remove_secrets
remove_secrets_keeps [] n e g = g
remove_secrets_keeps (name ∷ names) n e g =
    remove_secrets_keeps names n (remove_secret name e) (remove_secret_keeps name n e g)

remove_secrets-Lacks :
    (names : List String) (n : String) (e : Entry)
    → contains names n ≡ true
    → Lacks n (remove_secrets names e)
unfolding remove_secrets contains
remove_secrets-Lacks [] n e m = cc
remove_secrets-Lacks (name ∷ names) n e m = elim (Bool-cases (string_eq.beq name n)) [
  | inl same ↦ remove_secrets_keeps names n (remove_secret name e) (
      subst (λ k. Lacks k (remove_secret name e)) ((string_eq.beq_iff name n).0 same)
        (remove_secret-Lacks name e))
  | inr other ↦ remove_secrets-Lacks names n (remove_secret name e) (ground arith)
]

-- Sorting changes neither.
contains-sorted :
    (e : Entry) (n : String)
    → contains (grant (sorted e)).secrets.resolve n ≡ contains (grant e).secrets.resolve n
contains-sorted e n = elim (Option-cases e.perms.job_db) [
  | inl absent ↦ ground arith
  | inr (g, present) ↦ ground (arith, contains-sort g.secrets.resolve n)
]

trust-sorted : (e : Entry) → (sorted e).trust ≡ e.trust
trust-sorted e = elim (Option-cases e.perms.job_db) [
  | inl absent ↦ ground arith
  | inr (g, present) ↦ ground arith
]

-- The submission of jobs is selected apart from the secrets.
with_submit :
    (P : Entry → Type 0) (submit granted : Bool) (trust : Option Trust) (e out : Entry)
    → ◌≡◌ {A = Result Error Entry} (ok (if submit then set_submit granted trust e else e)) (ok out)
    → P e
    → P (set_submit granted trust e)
    → P out
with_submit P true granted trust e out h p q = subst P (ok_injective _ _ h) q
with_submit P false granted trust e out h p q = subst P (ok_injective _ _ h) p

add_selected-Grants :
    (c : Change) (n : String) (e out : Entry)
    → add_selected c.names c.submit c.trust c.replace e ≡ ok out
    → contains c.names n ≡ true
    → Grants n c.trust out
unfolding add_selected
add_selected-Grants c n e out h m =
    let (_, _, h1) = >>=-eq-ok (reject_if (is_nil c.names && not c.submit) nothing_selected) _ h in
    let (_, _, h2) = >>=-eq-ok (validate_trust c.trust) _ h1 in
    let (e', added, h3) = >>=-eq-ok (add_secrets c.names c.trust c.replace e) _ h2 in
    let (_, _, h4) =
      >>=-eq-ok (reject_if (c.submit && conflicts e'.trust.submit c.trust c.replace) needs_replace)
        _ h3 in
    let g = add_secrets-Grants c.names n c.trust c.replace e e' added m in
    with_submit (Grants n c.trust) c.submit true (some c.trust) e' out h4 g g

remove_selected-Lacks :
    (c : Change) (n : String) (e out : Entry)
    → remove_selected c.names c.submit e ≡ ok out
    → contains c.names n ≡ true
    → Lacks n out
unfolding remove_selected
remove_selected-Lacks c n e out h m =
    let (_, _, h1) = >>=-eq-ok (reject_if (is_nil c.names && not c.submit) nothing_selected) _ h in
    let g = remove_secrets-Lacks c.names n e m in
    with_submit (Lacks n) c.submit false none (remove_secrets c.names e) out h1 g g

module _ (clean : String → String) (clone : Entry → Entry) (valid : String → Bool) where
  -- An edit other than "inherit" leaves at its hook the entry that the switch made, sorted.
  edit-entry :
      (s : Snapshot) (cell : Bool) (hook operation : String) (c : Change) (d : Document)
      → edit clean clone valid s cell hook operation c ≡ ok d
      → (operation == "inherit") ≡ false
      → (e : Entry) × (change_entry clone operation c
            (current_entry clone cell s hook (map_values clone (hooks_of (base_of cell s))))
          ≡ ok e)
        × (lookup hook (hooks_of (some d)) ≡ some (sorted e))
  edit-entry s cell hook operation c d h other =
      let before = map_values clone (hooks_of (base_of cell s)) in
      let (_, hooks, q, same) = edit_stages clean clone valid s cell hook operation c d h in
      elim (edit_hooks_ok clean clone valid cell hook operation c s before hooks q) [
        | inl (inherits, _) ↦ absurd (ground arith)
        | inr (e, made, _, out) ↦
            (e, made, rw (same, out) (lookup-assign_self hook (sorted e) before))
      ]

  -- After "add", the entry of the hook grants each selected secret and trusts it as the edit says.
  pub edit_adds :
      (s : Snapshot) (cell : Bool) (hook : String) (c : Change) (d : Document) (n : String)
      → edit clean clone valid s cell hook "add" c ≡ ok d
      → contains c.names n ≡ true
      → (e : Entry) × (lookup hook (hooks_of (some d)) ≡ some e) × Grants n c.trust e
  unfolding change_entry
  edit_adds s cell hook c d n h m =
      let (e, made, found) = edit-entry s cell hook "add" c d h refl in
      let (p, q) = add_selected-Grants c n _ e made m in
      (
        sorted e,
        found,
        (contains-sorted e n ∙ p, ap (λ t. lookup n t.secrets) (trust-sorted e) ∙ q),
      )

  -- After "remove", the entry of the hook neither grants a selected secret nor trusts anybody with it.
  pub edit_removes :
      (s : Snapshot) (cell : Bool) (hook : String) (c : Change) (d : Document) (n : String)
      → edit clean clone valid s cell hook "remove" c ≡ ok d
      → contains c.names n ≡ true
      → (e : Entry) × (lookup hook (hooks_of (some d)) ≡ some e) × Lacks n e
  unfolding change_entry
  edit_removes s cell hook c d n h m =
      let (e, made, found) = edit-entry s cell hook "remove" c d h refl in
      let (p, q) = remove_selected-Lacks c n _ e made m in
      (
        sorted e,
        found,
        (contains-sorted e n ∙ p, ap (λ t. lookup n t.secrets) (trust-sorted e) ∙ q),
      )
