-- ===== src/HookPolicy/Editing/Laws.antt =====
-- What an edit changes, and that a valid document stays valid.
use c2j.Prelude.{
  String, Bool, true, false, Option, none, some, List, [], ◌∷◌, ◌≡◌, ◌≢◌, refl, sym, ◌∙◌, arith,
}
use c2j.Prelude.{◌==◌, string_eq, lookup, if◌then◌else◌, Bool-cases, inl, inr, ◌⊎◌, beq_refl}
use c2j.Prelude.{Result, ok, err, ◌>>=◌, >>=-eq-ok, ◌>>◌}
use c2j.HookPolicy.{
  Error, only_error, Entry, Document, Snapshot, hook_path, validate_entry, validate_hooks,
  validate_document, hooks_of, within_hook,
}
use c2j.HookPolicy.Editing.{
  erase, assign, map_values, Change, sorted, change_entry, base_of, repository_of, current_entry,
  replace_entry, edit_hooks, edit,
}

abbrev pub map_option : {A B : Type 0} → (A → B) → Option A → Option B
map_option f none = none
map_option f (some a) = some (f a)

module _ {A : Type 0} where
  pub lookup-erase_ne :
      (key k : String) (m : List (String × A)) → k ≢ key → lookup k (erase key m) ≡ lookup k m
  unfolding lookup erase
  lookup-erase_ne key k [] n = refl
  lookup-erase_ne key k ((j, a) ∷ m) n =
      ground (arith, lookup-erase_ne key k m n, string_eq.beq_iff j key, string_eq.beq_iff j k)

  pub lookup-erase_self : (key : String) (m : List (String × A)) → lookup key (erase key m) ≡ none
  unfolding lookup erase
  lookup-erase_self key [] = refl
  lookup-erase_self key ((j, a) ∷ m) = ground (arith, lookup-erase_self key m)

  lookup-map_values :
      (f : A → A) (k : String) (m : List (String × A))
      → lookup k (map_values f m) ≡ map_option f (lookup k m)
  unfolding lookup map_values
  lookup-map_values f k [] = refl
  lookup-map_values f k ((j, a) ∷ m) = ground (arith, lookup-map_values f k m)

within_hook_ok :
    (hook : String) (r : Result Error (Unit {0})) → within_hook hook r ≡ ok tt → r ≡ ok tt
within_hook_ok hook (ok u) h = refl
within_hook_ok hook (err e) h = absurd (ground arith)

module _ (clean : String → String) (valid : String → Bool) where
  -- A hook whose path and entry are valid
  record IsValid (hook : String) (e : Entry) : Type 0 where
    path : only_error (hook_path clean hook) ≡ ok tt
    entry : validate_entry valid e ≡ ok tt

  validate_hooks-head :
      (k : String) (e : Entry) (m : List (String × Entry))
      → validate_hooks clean valid ((k, e) ∷ m) ≡ ok tt
      → IsValid k e × (validate_hooks clean valid m ≡ ok tt)
  unfolding validate_hooks
  validate_hooks-head k e m h =
      let (p, path, h') = >>=-eq-ok (hook_path clean k) _ h in
      let (tt, valid_entry, rest) =
        >>=-eq-ok (within_hook p (validate_entry valid e)) (λ _. validate_hooks clean valid m) h' in
      (
        record {
          path = rw path refl;
          entry = within_hook_ok p (validate_entry valid e) valid_entry;
        },
        rest,
      )

  validate_hooks-cons :
      (k : String) (e : Entry) (m : List (String × Entry))
      → IsValid k e
      → validate_hooks clean valid m ≡ ok tt
      → validate_hooks clean valid ((k, e) ∷ m) ≡ ok tt
  unfolding validate_hooks
  validate_hooks-cons k e m v h = by_path (hook_path clean k) v.path
    where
      by_path :
          (r : Result Error String)
          → only_error r ≡ ok tt
          → (r >>= λ p. within_hook p (validate_entry valid e) >> validate_hooks clean valid m)
            ≡ ok tt
      by_path (ok p) q = rw (v.entry) h
      by_path (err why) q = absurd (ground arith)

  validate_hooks-erase :
      (k : String) (m : List (String × Entry))
      → validate_hooks clean valid m ≡ ok tt
      → validate_hooks clean valid (erase k m) ≡ ok tt
  unfolding erase
  validate_hooks-erase k [] h = h
  validate_hooks-erase k ((j, e) ∷ m) h =
      let (v, rest) = validate_hooks-head j e m h in
      ground (arith, validate_hooks-erase k m rest, validate_hooks-cons j e (erase k m) v)

  validate_hooks-map_values :
      (f : Entry → Entry) (m : List (String × Entry))
      → ((e : Entry) → validate_entry valid e ≡ ok tt → validate_entry valid (f e) ≡ ok tt)
      → validate_hooks clean valid m ≡ ok tt
      → validate_hooks clean valid (map_values f m) ≡ ok tt
  unfolding map_values
  validate_hooks-map_values f [] keeps h = h
  validate_hooks-map_values f ((j, e) ∷ m) keeps h =
      let (v, rest) = validate_hooks-head j e m h in
      validate_hooks-cons j (f e) (map_values f m)
        (record { path = v.path; entry = keeps e v.entry })
        (validate_hooks-map_values f m keeps rest)

module _ (clean : String → String) (clone : Entry → Entry) (valid : String → Bool) where
  pub edit_stages :
      (s : Snapshot) (cell : Bool) (hook operation : String) (c : Change) (d : Document)
      → edit clean clone valid s cell hook operation c ≡ ok d
      → (only_error (hook_path clean hook) ≡ ok tt)
        × (hooks : List (String × Entry)) × (edit_hooks clean clone valid cell hook operation c s
              (map_values clone (hooks_of (base_of cell s)))
            ≡ ok hooks)
        × (d ≡ record { version = 1; repository = repository_of cell s; hooks = some hooks })
  unfolding edit
  edit_stages s cell hook operation c d h =
      let (tt, p, h') = >>=-eq-ok (only_error (hook_path clean hook)) _ h in
      let (hooks, q, r) =
        >>=-eq-ok
          (edit_hooks clean clone valid cell hook operation c s
            (map_values clone (hooks_of (base_of cell s))))
          _ h' in
      (p, hooks, q, ground arith)

  replace_entry_ok :
      (hook : String) (e : Entry) (hooks out : List (String × Entry))
      → replace_entry clean clone valid hook e hooks ≡ ok out
      → (validate_entry valid (sorted e) ≡ ok tt) × (out ≡ assign hook (sorted e) hooks)
  unfolding replace_entry
  replace_entry_ok hook e hooks out h = ground arith

  -- An edit takes the hook away, or it puts a valid entry there.
  pub edit_hooks_ok :
      (cell : Bool) (hook operation : String) (c : Change) (s : Snapshot)
      (hooks out : List (String × Entry))
      → edit_hooks clean clone valid cell hook operation c s hooks ≡ ok out
      → (((operation == "inherit") ≡ true) × (out ≡ erase hook hooks))
        ⊎ ((e : Entry) × (change_entry clone operation c (current_entry clone cell s hook hooks)
              ≡ ok e)
            × (validate_entry valid (sorted e) ≡ ok tt)
            × (out ≡ assign hook (sorted e) hooks))
  unfolding edit_hooks
  edit_hooks_ok cell hook operation c s hooks out h = elim (Bool-cases (operation == "inherit")) [
    | inl inherits ↦ inl (inherits, ground arith)
    | inr other ↦
        let (e, p, q) =
          >>=-eq-ok (change_entry clone operation c (current_entry clone cell s hook hooks))
            (λ e. replace_entry clean clone valid hook e hooks) (skip _ _ _ other h) in
        let (v, r) = replace_entry_ok hook e hooks out q in inr (e, p, v, r)
  ]
    where
      skip :
          (b : Bool) (first second : Result Error (List (String × Entry)))
          → b ≡ false
          → (if b then first else second) ≡ ok out
          → second ≡ ok out
      skip true first second e h = absurd (ground arith)
      skip false first second e h = h

  -- An edit that succeeds leaves the entry of every other hook as it was, up to the copy that is made
  -- of each entry.
  pub edit-others :
      (s : Snapshot) (cell : Bool) (hook operation : String) (c : Change) (d : Document)
      (other : String)
      → edit clean clone valid s cell hook operation c ≡ ok d
      → other ≢ hook
      → lookup other (hooks_of (some d))
        ≡ map_option clone (lookup other (hooks_of (base_of cell s)))
  unfolding lookup
  edit-others s cell hook operation c d other h n =
      let before = map_values clone (hooks_of (base_of cell s)) in
      let (_, hooks, q, e) = edit_stages s cell hook operation c d h in
      let kept = lookup-erase_ne hook other before n in
      let copied = lookup-map_values clone other (hooks_of (base_of cell s)) in
      elim (edit_hooks_ok cell hook operation c s before hooks q) [
        | inl (_, out) ↦ rw (e, out, kept) copied
        | inr (e', _, _, out) ↦
            rw (e, out)
              (elsewhere _ (sorted e') (λ same. n (sym ((string_eq.beq_iff hook other).0 same)))
                ∙ kept
                ∙ copied)
      ]
    where
      elsewhere :
          (m : List (String × Entry)) (a : Entry)
          → string_eq.beq hook other ≢ true
          → lookup other ((hook, a) ∷ m) ≡ lookup other m
      elsewhere m a n = ground arith

  -- An edit of a valid document that succeeds makes a document that is valid for the repository it is
  -- about, where the copy of a valid entry is valid.
  pub edit-valid :
      (s : Snapshot) (cell : Bool) (hook operation : String) (c : Change) (d : Document)
      → ((e : Entry) → validate_entry valid e ≡ ok tt → validate_entry valid (clone e) ≡ ok tt)
      → validate_hooks clean valid (hooks_of (base_of cell s)) ≡ ok tt
      → edit clean clone valid s cell hook operation c ≡ ok d
      → validate_document clean valid (repository_of cell s) d ≡ ok tt
  unfolding validate_document
  edit-valid s cell hook operation c d keeps v h =
      let before = map_values clone (hooks_of (base_of cell s)) in
      let (path, hooks, q, e) = edit_stages s cell hook operation c d h in
      let v' = validate_hooks-map_values clean valid clone (hooks_of (base_of cell s)) keeps v in
      let kept = validate_hooks-erase clean valid hook before v' in
      rw (e, beq_refl (repository_of cell s))
        (elim (edit_hooks_ok cell hook operation c s before hooks q) [
          | inl (_, out) ↦ rw out kept
          | inr (e', _, valid_entry, out) ↦ rw out (
              validate_hooks-cons clean valid hook (sorted e') (erase hook before)
                (record { path = path; entry = valid_entry }) kept)
        ])
