-- ===== src/Secrets/Tests.antt =====
-- The theorems on redaction and on sessions at concrete values.
use c2j.Prelude.{ℕ, suc, String, true, false, none, some, List, [], ◌∷◌, ◌≡◌, refl}
use c2j.Prelude.{leb, Bytes, bytes_eq, string_eq, codes, contains, lookup}
use c2j.Execution.Text.{has_prefix}
use c2j.Execution.Selector.{has_suffix}
use c2j.Secrets.Masks.{
  Encodings, index, mark_occurrences, mark_tail, mark_variant, mark_value, mark_values, render,
  render_parts, concat, redact_parts,
}
use c2j.Secrets.Masks.Laws.{hidden, redact_parts-hidden}
use c2j.Secrets.Redactor.{
  Pool, new_redactor, Call, opens, closes_session, registers, closes_redactor, clear_closed, close,
  release_session, add, new_session, close_session, close_at, step, run,
}
use c2j.Secrets.Redactor.Laws.{IsConsistent, unreleased, run-IsConsistent, run_keeps, stays_live}
use c2j.Secrets.Session.{
  Reference, Values, secrets, Resolver, Clock, Env, names_of, required_of, ready, store_values,
  take_answer, resolve_batches, prepare_references, expired,
}
use c2j.Secrets.Session.Prepared.{IsPrepared, prepare_references-IsPrepared}

-- Every byte is written with a backslash before it.
abbrev escape : Bytes → Bytes
escape [] = []
escape (c ∷ s) = 92 ∷ c ∷ escape s

abbrev escapes : Encodings
escapes = record { quoted = escape; encoded = λ v. v }

abbrev masks : List Bytes
masks = codes "key" ∷ []

-- The mask is cut by the boundary of the parts.
abbrev parts : List Bytes
parts = codes "a ke" ∷ codes "y, ke" ∷ []

shown_across : redact_parts escapes masks parts false ≡ codes "a [REDACTED]" ∷ codes ", ke" ∷ []
unfolding redact_parts mark_values mark_value mark_variant mark_occurrences mark_tail index render
    render_parts concat has_prefix has_suffix
shown_across = refl

-- The end of an incomplete text may be the beginning of a mask.
shown_incomplete :
    redact_parts escapes masks parts true ≡ codes "a [REDACTED]" ∷ codes ", [REDACTED]" ∷ []
unfolding redact_parts mark_values mark_value mark_variant mark_occurrences mark_tail index render
    render_parts concat has_prefix has_suffix
shown_incomplete = refl

redact_parts-hidden_example :
    redact_parts escapes masks parts true
    ≡ render_parts (hidden escapes true (concat parts) masks) 0 parts
redact_parts-hidden_example = redact_parts-hidden escapes masks parts true

abbrev new_pool : Pool
new_pool = record { redactor = new_redactor; handles = [] }

-- The redactor is closed while one of its sessions is open, which is closed twice.
abbrev calls : List Call
calls =
    opens false
    ∷ registers (codes "key")
    ∷ closes_redactor
    ∷ closes_session 0
    ∷ closes_session 0
    ∷ []

run-IsConsistent_example :
    IsConsistent (run new_pool calls).redactor (unreleased (run new_pool calls).handles)
run-IsConsistent_example =
    run-IsConsistent new_pool calls (unfold unreleased in record { counted = refl; forgets = refl })

forgotten_with_the_session : (run new_pool calls).redactor.masks ≡ []
unfolding run step new_session add close clear_closed close_at close_session release_session
    contains
forgotten_with_the_session = refl

abbrev live_pool : Pool
live_pool = record {
  redactor = record { masks = masks; closed = false; sessions = 1 };
  handles = record { owns_redactor = false; released = false } ∷ [];
}

run_keeps_example :
    contains
      (run live_pool (closes_redactor ∷ registers (codes "pin") ∷ [])).redactor.masks
      (codes "key")
    ≡ true
unfolding contains stays_live step add close clear_closed
run_keeps_example =
    run_keeps live_pool (closes_redactor ∷ registers (codes "pin") ∷ []) (codes "key") refl refl

-- Times are numbers, and the world is the time.
abbrev clock : Clock ℕ ℕ String
clock = record { passed = λ w t. leb t w; context_err = λ w. none }

-- Each name has the value "key", for ten units of time.
abbrev answer : List String → Values ℕ
answer [] = []
answer (name ∷ names) = (name, record { value = codes "key"; expires_at = some 10 }) ∷ answer names

abbrev resolver : Resolver ℕ ℕ
resolver names r w = (secrets (answer names), r, suc w)

abbrev reference : Reference ℕ
reference = record { name = "token"; fallback = none; omit_if_unavailable = false; required = true }

abbrev env : Env ℕ ℕ
env = record {
  session = record { values = []; closed = false };
  redactor = new_redactor;
  world = 0;
}

prepare_references-IsPrepared_example :
    IsPrepared clock
      (reference ∷ [])
      (prepare_references clock (some resolver) (reference ∷ []) env)
prepare_references-IsPrepared_example =
    prepare_references-IsPrepared clock (some resolver) (reference ∷ []) env
      (λ names r w value h. h)

prepared_values :
    (prepare_references clock (some resolver) (reference ∷ []) env).1.redactor.masks
    ≡ codes "key" ∷ []
unfolding prepare_references resolve_batches take_answer store_values names_of required_of ready
    expired add contains lookup
prepared_values = refl
