-- ===== src/Secrets/Values.antt =====
-- pkg/secrets/reference.go: `Parse`, `Transform` and `Contains`, and `Materialize` of session.go. A value
-- is JSON-shaped data, where `N` stands for numbers and all else that is left alone. A Go map is the list
-- of its entries: its order chooses at most between two errors.
pub mod Laws
mod Tests
use c2j.Prelude.{String, Bool, true, false, not, ◌&&◌, ◌||◌, Option, none, some, List, [], ◌∷◌}
use c2j.Prelude.{
  ◌==◌, string_eq, contains, if◌then◌else◌, Bytes, Result, ok, err, ◌>>=◌, ◌>>◌, reject_if,
}
use c2j.Permissions.Grant.{secret_name}
use c2j.Secrets.Redactor.{Redactor}
use c2j.Secrets.Session.{
  Reference, Session, Error, Clock, Material, default_value, secret_value, omitted,
  materialize_reference, is_none,
}

mutual
  pub data Value (N : Type 0) : Type 0 where
    other : N → Value N
    bool : Bool → Value N
    text : String → Value N
    -- A string that a provider returned
    bytes : Bytes → Value N
    array : Items N → Value N
    object : Fields N → Value N
    -- A Go value of the type `Reference`
    reference : Reference String → Value N

  pub data Items (N : Type 0) : Type 0 where
    end : Items N
    item : Value N → Items N → Items N

  pub data Fields (N : Type 0) : Type 0 where
    last : Fields N
    field : String → Value N → Fields N → Fields N

pub data ParseError : Type 0 where
  invalid_reference invalid_name default_not_string invalid_fallback : ParseError

pub data Parsed : Type 0 where
  no_reference : Parsed
  refers : Reference String → Parsed
  malformed : ParseError → Parsed

abbrev pub wire_key : String
wire_key = "$c2j_secret"

abbrev pub known_keys : List String
known_keys = wire_key ∷ "default" ∷ "omit_if_unavailable" ∷ "required" ∷ []

-- The tests behind the switch
unfoldable pub check_reference : Reference String → Result ParseError (Reference String)
check_reference r =
    if (r.omit_if_unavailable && not (is_none r.fallback))
      || (r.required && not r.omit_if_unavailable)
    then err invalid_fallback
    else if not (secret_name r.name) && not (r.name == "" && not (is_none r.fallback))
    then err invalid_name
    else ok r

abbrev pub as_parsed : Result ParseError (Reference String) → Parsed
as_parsed (ok r) = refers r
as_parsed (err e) = malformed e

module _ {N : Type 0} where
  unfoldable pub find : String → Fields N → Option (Value N)
  find key last = none
  find key (field k v fields) = let found = find key fields in if k == key then some v else found

  -- The loop over the keys of a reference
  unfoldable pub all_known : Fields N → Bool
  all_known last = true
  all_known (field k v fields) = contains known_keys k && all_known fields

  abbrev pub read_bool : Option (Value N) → Result ParseError Bool
  read_bool none = ok false
  read_bool (some (bool b)) = ok b
  read_bool (some _) = err invalid_reference

  abbrev pub read_name : Value N → Result ParseError String
  read_name (text name) = ok name
  read_name _ = err invalid_name

  abbrev pub read_default : Option (Value N) → Result ParseError (Option String)
  read_default none = ok none
  read_default (some (text d)) = ok (some d)
  read_default (some _) = err default_not_string

  unfoldable pub read_reference : Value N → Fields N → Result ParseError (Reference String)
  read_reference n fields = do
    reject_if (not (all_known fields)) invalid_reference
    omits ← read_bool (find "omit_if_unavailable" fields)
    required ← read_bool (find "required" fields)
    name ← read_name n
    fallback ← read_default (find "default" fields)
    check_reference (record {
      name = name;
      fallback = fallback;
      omit_if_unavailable = omits;
      required = required;
    })

  abbrev pub parse_fields : Option (Value N) → Fields N → Parsed
  parse_fields none fields = no_reference
  parse_fields (some n) fields = as_parsed (read_reference n fields)

  -- `Parse`
  unfoldable pub parse : Value N → Parsed
  parse (object fields) = parse_fields (find wire_key fields) fields
  parse (reference r) = as_parsed (check_reference r)
  parse _ = no_reference

-- What a reference is transformed into: a value, or `omitted{}`.
pub data Replaced (N : Type 0) : Type 0 where
  put : Value N → Replaced N
  omit : Replaced N

pub data TransformError (E : Type 0) : Type 0 where
  parse_failed : ParseError → TransformError E
  omitted_element : TransformError E
  replacing_failed : E → TransformError E

abbrev pub replacing : {A E : Type 0} → Result E A → Result (TransformError E) A
replacing (ok a) = ok a
replacing (err e) = err (replacing_failed e)

abbrev pub keep_item : {N E : Type 0} → Replaced N → Items N → Result (TransformError E) (Items N)
keep_item (put v) items = ok (item v items)
keep_item omit items = err omitted_element

abbrev pub keep_field : {N : Type 0} → String → Replaced N → Fields N → Fields N
keep_field k (put v) fields = field k v fields
keep_field k omit fields = fields

module _ {N E : Type 0} (f : Reference String → Result E (Replaced N)) where
  -- What `Parse` says of a value comes before its parts.
  abbrev pub by_parsed :
      Parsed → Result (TransformError E) (Replaced N) → Result (TransformError E) (Replaced N)
  by_parsed no_reference parts = parts
  by_parsed (refers r) parts = replacing (f r)
  by_parsed (malformed e) parts = err (parse_failed e)

  -- `Transform`
  unfoldable mutual
    pub transform : Value N → Result (TransformError E) (Replaced N)
    transform (array items) =
        by_parsed no_reference (transform_items items >>= λ out. ok (put (array out)))
    transform (object fields) =
        by_parsed (parse (object fields)) (transform_fields fields >>= λ out. ok (put (object out)))
    transform (reference r) = by_parsed (parse {N = N} (reference r)) (ok (put (reference r)))
    transform (other n) = ok (put (other n))
    transform (bool b) = ok (put (bool b))
    transform (text s) = ok (put (text s))
    transform (bytes s) = ok (put (bytes s))

    pub transform_items : Items N → Result (TransformError E) (Items N)
    transform_items end = ok end
    transform_items (item v items) =
        transform v >>= λ n. transform_items items >>= λ out. keep_item n out

    pub transform_fields : Fields N → Result (TransformError E) (Fields N)
    transform_fields last = ok last
    transform_fields (field k v fields) =
        transform v >>= λ n. transform_fields fields >>= λ out. ok (keep_field k n out)

abbrev pub fails : {E A : Type 0} → Result E A → Bool
fails (ok a) = false
fails (err e) = true

-- `Contains`: the flag that is set at a reference is an error here, which counts as much.
unfoldable pub contains_reference : {N : Type 0} → Value N → Bool
contains_reference {N} v = fails (transform {N = N} {E = Unit {0}} (λ r. err tt) v)

abbrev pub as_replaced :
    {N E : Type 0} → Result (Error E) (Material String) → Result (Error E) (Replaced N)
as_replaced (ok (default_value d)) = ok (put (text d))
as_replaced (ok (secret_value v)) = ok (put (bytes v))
as_replaced (ok omitted) = ok omit
as_replaced (err e) = err e

abbrev pub whole : {N E : Type 0} → Replaced N → Result (TransformError E) (Value N)
whole (put v) = ok v
whole omit = err omitted_element

module _ {W T E N : Type 0} (clock : Clock W T E) where
  -- `Materialize`
  unfoldable pub materialize :
      Option (Session T) → Redactor → W → Value N → Result (TransformError (Error E)) (Value N)
  materialize s redactor w v =
      transform (λ r. as_replaced (materialize_reference clock s redactor w r)) v >>= whole
