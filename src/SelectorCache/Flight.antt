-- ===== src/SelectorCache/Flight.antt =====
-- pkg/git/selectorcache/cache.go: `Cache.do`, under any interleaving of its callers. Caller `i` asks for
-- the key `keys i`, and its own body would return `body i`. A call in flight goes by the caller that
-- made it. A turn is what a caller does between two points where another may go on: the block under
-- the mutex, the body up to `close(current.done)`, the deletion, the end of a wait.
pub mod Laws
pub mod Progress
mod Tests
use c2j.Prelude.{
  ℕ, String, Bool, true, false, Option, none, some, List, [], ◌∷◌, nat_beq, string_eq, ◌==◌,
  if◌then◌else◌,
}

pub data Phase (R : Type 0) : Type 0 where
  calling running : Phase R
  closed : R → Phase R
  waiting : ℕ → Phase R
  returned : R → Phase R

-- `inFlight`, and where each caller is
pub record Cache (R : Type 0) : Type 0 where
  pub in_flight : String → Option ℕ
  pub phase : ℕ → Phase R

-- What `existing.err` holds, once `existing.done` is closed
abbrev pub result_of : {R : Type 0} → Phase R → Option R
result_of calling = none
result_of running = none
result_of (closed r) = some r
result_of (waiting j) = none
result_of (returned r) = some r

abbrev pub assign_phase : {R : Type 0} → ℕ → Phase R → (ℕ → Phase R) → ℕ → Phase R
assign_phase i p phases j = if nat_beq j i then p else phases j

abbrev pub assign_call : String → Option ℕ → (String → Option ℕ) → String → Option ℕ
assign_call key c calls k = if k == key then c else calls k

abbrev pub new_cache : {R : Type 0} → Cache R
new_cache = record { in_flight = λ key. none; phase = λ i. calling }

module _ {R : Type 0} (keys : ℕ → String) (body : ℕ → R) where
  abbrev pub go_to : Cache R → ℕ → Phase R → Cache R
  go_to s i p = record s { phase = assign_phase i p s.phase }

  -- The block under the mutex
  abbrev pub enter : Cache R → ℕ → Option ℕ → Cache R
  enter s i none = record {
    in_flight = assign_call (keys i) (some i) s.in_flight;
    phase = assign_phase i running s.phase;
  }
  enter s i (some j) = go_to s i (waiting j)

  abbrev pub wake : Cache R → ℕ → Option R → Cache R
  wake s i none = s
  wake s i (some r) = go_to s i (returned r)

  abbrev pub turn_at : Cache R → ℕ → Phase R → Cache R
  turn_at s i calling = enter s i (s.in_flight (keys i))
  turn_at s i running = go_to s i (closed (body i))
  turn_at s i (closed r) = record {
    in_flight = assign_call (keys i) none s.in_flight;
    phase = assign_phase i (returned r) s.phase;
  }
  turn_at s i (waiting j) = wake s i (result_of (s.phase j))
  turn_at s i (returned r) = s

  -- A turn of one caller
  unfoldable pub turn : Cache R → ℕ → Cache R
  turn s i = turn_at s i (s.phase i)

  unfoldable pub run : Cache R → List ℕ → Cache R
  run s [] = s
  run s (i ∷ order) = run (turn s i) order
