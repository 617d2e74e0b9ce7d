-- ===== src/Secrets/Values/Tests.antt =====
-- The theorem on materialized values at a map with two references.
use c2j.Prelude.{ℕ, String, true, false, none, some, [], ◌∷◌, ◌≡◌, refl}
use c2j.Prelude.{leb, string_eq, codes, contains, lookup, every, ok}
use c2j.Permissions.Grant.{secret_name}
use c2j.Secrets.Redactor.{new_redactor}
use c2j.Secrets.Session.{Session, Clock, expired, materialize_reference}
use c2j.Secrets.Values.{
  Value, other, text, bytes, object, reference, last, field, find, all_known, read_reference,
  check_reference, parse, transform, contains_reference, materialize,
}
use c2j.Secrets.Values.Laws.{is_plain, materialize-contains}

abbrev clock : Clock ℕ ℕ String
clock = record { passed = λ w t. leb t w; context_err = λ w. none }

-- A map with a reference, and one that may be omitted
abbrev input : Value ℕ
input = object (
    field "auth" (object (field "$c2j_secret" (text "token") last)) (
      field "extra"
        (reference
          (record { name = "none"; fallback = none; omit_if_unavailable = true; required = false }))
        (field "count" (other 3) last)))

abbrev ready_session : Session ℕ
ready_session = record {
  values = ("token", record { value = codes "key"; expires_at = none }) ∷ [];
  closed = false;
}

abbrev materialized : Value ℕ
materialized = object (field "auth" (bytes (codes "key")) (field "count" (other 3) last))

materializes : materialize clock (some ready_session) new_redactor 0 input ≡ ok materialized
unfolding materialize transform materialize_reference expired parse find all_known read_reference
    check_reference secret_name every contains lookup
materializes = refl

materialize-contains_example :
    (is_plain materialized ≡ true)
    × (contains_reference materialized ≡ false)
    × (materialize clock none new_redactor 0 materialized ≡ ok materialized)
materialize-contains_example =
    materialize-contains clock (some ready_session) none new_redactor new_redactor 0 0 input
      materialized materializes
