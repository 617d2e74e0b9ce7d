-- ===== src/Secrets/Values/Laws.antt =====
-- No reference is left in what Materialize returns.
use mathlib.Core.Path.{subst}
use c2j.Prelude.{
  String, Bool, true, false, not, ◌&&◌, Option, none, some, ◌≡◌, ◌≢◌, refl, ap, arith,
}
use c2j.Prelude.{◌==◌, string_eq, Result, ok, err, ◌>>=◌, >>=-eq-ok, and-eq_true}
use c2j.Secrets.Redactor.{Redactor}
use c2j.Secrets.Session.{
  Reference, Session, Error, Clock, Material, default_value, secret_value, omitted,
  materialize_reference,
}
use c2j.Secrets.Values.{
  Value, other, bool, text, bytes, array, object, reference, Items, end, item, Fields, last, field,
  ParseError, Parsed, no_reference, refers, malformed, wire_key, find, parse, parse_fields,
  read_reference, as_parsed, check_reference, Replaced, put, omit, TransformError, replacing,
  keep_item, keep_field, by_parsed, transform, transform_items, transform_fields,
  contains_reference, fails, as_replaced, whole, materialize,
}

-- No part of a value is a reference, or a map with the key of one.
unfoldable mutual
  pub is_plain : {N : Type 0} → Value N → Bool
  is_plain (array items) = items_plain items
  is_plain (object fields) = lacks_key fields && fields_plain fields
  is_plain (reference r) = false
  is_plain (other n) = true
  is_plain (bool b) = true
  is_plain (text s) = true
  is_plain (bytes s) = true

  items_plain : {N : Type 0} → Items N → Bool
  items_plain end = true
  items_plain (item v items) = is_plain v && items_plain items

  lacks_key : {N : Type 0} → Fields N → Bool
  lacks_key last = true
  lacks_key (field k v fields) = not (k == wire_key) && lacks_key fields

  fields_plain : {N : Type 0} → Fields N → Bool
  fields_plain last = true
  fields_plain (field k v fields) = is_plain v && fields_plain fields

-- What replaces a reference is no reference.
abbrev pub plain_result : {N : Type 0} → Replaced N → Bool
plain_result (put v) = is_plain v
plain_result omit = true

module _ {N : Type 0} where
  lacks_key-find : (fields : Fields N) → lacks_key fields ≡ true → find wire_key fields ≡ none
  unfolding lacks_key find
  lacks_key-find last h = refl
  lacks_key-find (field k v fields) h = ground (arith, lacks_key-find fields)

  find-lacks_key : (fields : Fields N) → find wire_key fields ≡ none → lacks_key fields ≡ true
  unfolding lacks_key find
  find-lacks_key last h = refl
  find-lacks_key (field k v fields) h = ground (arith, find-lacks_key fields)

  parse-lacks_key :
      (fields : Fields N) → parse (object fields) ≡ no_reference → lacks_key fields ≡ true
  unfolding parse
  parse-lacks_key fields h = find-lacks_key fields (unparsed (find wire_key fields) h)
    where
      unparsed : (o : Option (Value N)) → parse_fields o fields ≡ no_reference → o ≡ none
      unparsed none h = refl
      unparsed (some n) h = absurd (parsed (read_reference n fields) h)
        where
          parsed : (r : Result ParseError (Reference String)) → as_parsed r ≢ no_reference
          parsed (ok r) h = ground arith
          parsed (err e) h = ground arith

parse-reference : (N : Type 0) (r : Reference String) → parse {N = N} (reference r) ≢ no_reference
unfolding parse
parse-reference N r h = parsed (check_reference r) h
  where
    parsed : (r : Result ParseError (Reference String)) → as_parsed r ≢ no_reference
    parsed (ok r) h = ground arith
    parsed (err e) h = ground arith

module _ {N E : Type 0} (f : Reference String → Result E (Replaced N)) where
  mutual
    unfolding transform transform_items transform_fields parse is_plain items_plain fields_plain

    -- A plain value is left as it is.
    transform_plain : (v : Value N) → is_plain v ≡ true → transform f v ≡ ok (put v)
    transform_plain (array items) h = rw (transform_items_plain items h) refl
    transform_plain (object fields) h =
        let (p, q) = and-eq_true _ _ h in
        rw (lacks_key-find fields p, transform_fields_plain fields q) refl
    transform_plain (reference r) h = cc
    transform_plain (other n) h = refl
    transform_plain (bool b) h = refl
    transform_plain (text s) h = refl
    transform_plain (bytes s) h = refl

    transform_items_plain :
        (items : Items N) → items_plain items ≡ true → transform_items f items ≡ ok items
    transform_items_plain end h = refl
    transform_items_plain (item v items) h =
        let (p, q) = and-eq_true _ _ h in
        rw (transform_plain v p, transform_items_plain items q) refl

    transform_fields_plain :
        (fields : Fields N) → fields_plain fields ≡ true → transform_fields f fields ≡ ok fields
    transform_fields_plain last h = refl
    transform_fields_plain (field k v fields) h =
        let (p, q) = and-eq_true _ _ h in
        rw (transform_plain v p, transform_fields_plain fields q) refl

ok_same : {A E : Type 0} (a b : A) → ◌≡◌ {A = Result E A} (ok a) (ok b) → a ≡ b
ok_same a b h = ground arith

replacing_ok : {A E : Type 0} (r : Result E A) (a : A) → replacing r ≡ ok a → r ≡ ok a
replacing_ok (ok b) a h = ground arith
replacing_ok (err e) a h = absurd (ground arith)

keep_item-plain :
    {N E : Type 0} (n : Replaced N) (items out : Items N)
    → plain_result n ≡ true
    → items_plain items ≡ true
    → keep_item {E = E} n items ≡ ok out
    → items_plain out ≡ true
unfolding items_plain
keep_item-plain (put v) items out p q h =
    subst (λ o. items_plain o ≡ true) (ok_same (item v items) out h) (rw (p, q) refl)
keep_item-plain omit items out p q h = absurd (ground arith)

keep_field-plain :
    {N : Type 0} (k : String) (n : Replaced N) (fields : Fields N)
    → plain_result n ≡ true
    → fields_plain fields ≡ true
    → fields_plain (keep_field k n fields) ≡ true
unfolding fields_plain
keep_field-plain k (put v) fields p q = rw (p, q) refl
keep_field-plain k omit fields p q = q

not-eq_true : (b : Bool) → not b ≡ true → b ≡ false
not-eq_true b h = ground arith

keep_field-lacks_key :
    {N : Type 0} (k : String) (n : Replaced N) (fields : Fields N)
    → (k == wire_key) ≡ false
    → lacks_key fields ≡ true
    → lacks_key (keep_field k n fields) ≡ true
unfolding lacks_key
keep_field-lacks_key k (put v) fields p q = rw (p, q) refl
keep_field-lacks_key k omit fields p q = q

module _ {N E : Type 0} (f : Reference String → Result E (Replaced N))
    (clean : (r : Reference String) (n : Replaced N) → f r ≡ ok n → plain_result n ≡ true) where
  by_parsed-plain :
      (p : Parsed) (parts : Result (TransformError E) (Replaced N)) (n : Replaced N)
      → (p ≡ no_reference → parts ≡ ok n → plain_result n ≡ true)
      → by_parsed f p parts ≡ ok n
      → plain_result n ≡ true
  by_parsed-plain no_reference parts n go h = go refl h
  by_parsed-plain (refers r) parts n go h = clean r n (replacing_ok (f r) n h)
  by_parsed-plain (malformed e) parts n go h = absurd (ground arith)

  transform_fields-lacks_key :
      (fields out : Fields N)
      → lacks_key fields ≡ true
      → transform_fields f fields ≡ ok out
      → lacks_key out ≡ true
  unfolding transform_fields lacks_key
  transform_fields-lacks_key last out p h =
      subst (λ o. lacks_key o ≡ true) (ok_same last out h) refl
  transform_fields-lacks_key (field k v fields) out p h =
      let (n, made, h1) = >>=-eq-ok (transform f v) _ h in
      let (rest, made_rest, h2) =
        >>=-eq-ok (transform_fields f fields) (λ out. ok (keep_field k n out)) h1 in
      let (other_key, q) = and-eq_true _ _ p in
      subst (λ o. lacks_key o ≡ true) (ok_same (keep_field k n rest) out h2)
        (keep_field-lacks_key k n rest (not-eq_true (k == wire_key) other_key)
          (transform_fields-lacks_key fields rest q made_rest))

  mutual
    unfolding transform transform_items transform_fields is_plain items_plain fields_plain

    transform-plain : (v : Value N) (n : Replaced N) → transform f v ≡ ok n → plain_result n ≡ true
    transform-plain (array items) n h =
        let (out, made, h1) = >>=-eq-ok (transform_items f items) (λ out. ok (put (array out))) h in
        subst (λ n. plain_result n ≡ true) (ok_same (put (array out)) n h1)
          (transform_items-plain items out made)
    transform-plain (object fields) n h =
        by_parsed-plain (parse (object fields))
          (transform_fields f fields >>= λ out. ok (put (object out))) n
          (λ unparsed made_parts.
            let (out, made, h1) =
              >>=-eq-ok (transform_fields f fields) (λ out. ok (put (object out))) made_parts in
            subst (λ n. plain_result n ≡ true) (ok_same (put (object out)) n h1)
              (rw (transform_fields-lacks_key fields out (parse-lacks_key fields unparsed) made)
                (transform_fields-plain fields out made)))
          h
    transform-plain (reference r) n h =
        by_parsed-plain (parse {N = N} (reference r)) (ok (put (reference r))) n
          (λ unparsed _. absurd (parse-reference N r unparsed)) h
    transform-plain (other k) n h =
        subst (λ n. plain_result n ≡ true) (ok_same (put (other k)) n h) refl
    transform-plain (bool b) n h =
        subst (λ n. plain_result n ≡ true) (ok_same (put (bool b)) n h) refl
    transform-plain (text s) n h =
        subst (λ n. plain_result n ≡ true) (ok_same (put (text s)) n h) refl
    transform-plain (bytes s) n h =
        subst (λ n. plain_result n ≡ true) (ok_same (put (bytes s)) n h) refl

    transform_items-plain :
        (items out : Items N) → transform_items f items ≡ ok out → items_plain out ≡ true
    transform_items-plain end out h = subst (λ o. items_plain o ≡ true) (ok_same end out h) refl
    transform_items-plain (item v items) out h =
        let (n, made, h1) = >>=-eq-ok (transform f v) _ h in
        let (rest, made_rest, h2) = >>=-eq-ok (transform_items f items) (keep_item n) h1 in
        keep_item-plain n rest out (transform-plain v n made)
          (transform_items-plain items rest made_rest) h2

    transform_fields-plain :
        (fields out : Fields N) → transform_fields f fields ≡ ok out → fields_plain out ≡ true
    transform_fields-plain last out h = subst (λ o. fields_plain o ≡ true) (ok_same last out h) refl
    transform_fields-plain (field k v fields) out h =
        let (n, made, h1) = >>=-eq-ok (transform f v) _ h in
        let (rest, made_rest, h2) =
          >>=-eq-ok (transform_fields f fields) (λ out. ok (keep_field k n out)) h1 in
        subst (λ o. fields_plain o ≡ true) (ok_same (keep_field k n rest) out h2)
          (keep_field-plain k n rest (transform-plain v n made)
            (transform_fields-plain fields rest made_rest))

as_replaced-plain :
    {N E : Type 0} (m : Result (Error E) (Material String)) (n : Replaced N)
    → as_replaced m ≡ ok n
    → plain_result n ≡ true
unfolding is_plain
as_replaced-plain (ok (default_value d)) n h =
    subst (λ n. plain_result n ≡ true) (ok_same (put (text d)) n h) refl
as_replaced-plain (ok (secret_value v)) n h =
    subst (λ n. plain_result n ≡ true) (ok_same (put (bytes v)) n h) refl
as_replaced-plain (ok omitted) n h = subst (λ n. plain_result n ≡ true) (ok_same omit n h) refl
as_replaced-plain (err e) n h = absurd (ground arith)

whole_ok : {N E : Type 0} (n : Replaced N) (v : Value N) → whole {E = E} n ≡ ok v → n ≡ put v
whole_ok (put u) v h = ground arith
whole_ok omit v h = absurd (ground arith)

contains-plain : {N : Type 0} (v : Value N) → is_plain v ≡ true → contains_reference v ≡ false
unfolding contains_reference
contains-plain v h = ap fails (transform_plain (λ r. err tt) v h)

module _ {W T E N : Type 0} (clock : Clock W T E) where
  -- What Materialize returns is plain (no part of it, at any depth, is a reference or a map with the
  -- key of one), so that Contains finds no reference in it, and another call, with any session,
  -- returns it as it is.
  pub materialize-contains :
      (s s' : Option (Session T)) (redactor redactor' : Redactor) (w w' : W) (v out : Value N)
      → materialize clock s redactor w v ≡ ok out
      → (is_plain out ≡ true)
        × (contains_reference out ≡ false)
        × (materialize clock s' redactor' w' out ≡ ok out)
  unfolding materialize
  materialize-contains s s' redactor redactor' w w' v out h =
      let f : Reference String → Result (Error E) (Replaced N) =
        λ r. as_replaced (materialize_reference clock s redactor w r) in
      let (n, made, h1) = >>=-eq-ok (transform f v) whole h in
      let p =
        transform-plain f
          (λ r n e. as_replaced-plain (materialize_reference clock s redactor w r) n e) v n made in
      let q : is_plain out ≡ true = subst (λ n. plain_result n ≡ true) (whole_ok n out h1) p in
      (
        q,
        contains-plain out q,
        rw
            (transform_plain (λ r. as_replaced (materialize_reference clock s' redactor' w' r)) out
              q)
            refl,
      )
