-- ===== src/Execution/Demand/Laws.antt =====
-- What a filter takes, and what an inspected view says.
use c2j.Prelude.{Bool, true, false, ◌||◌, Option, none, some, [], ◌≡◌, ◌≢◌, is_nil}
use c2j.Prelude.{if◌then◌else◌, Result, ok, err, ◌>>=◌, arith, ◌⊎◌}
use c2j.Execution.Requirements.{Error, malformed, Formats}
use c2j.Execution.Compare.{compare}
use c2j.Execution.Demand.{Demand, Submission, View, Filter, matches, match_view, fits, inspect}
use c2j.Execution.Demand.{submitted, unresolved_view, is_resolved}

fits_sound :
    (f : Formats) (filter : Filter) (o : Option Demand)
    → fits f filter o ≡ ok true
    → (d : Demand) × (o ≡ some d) × (compare f d.effective filter.allocation ≡ ok [])
unfolding fits
fits_sound f filter o h = ground arith

-- A filter takes a view only if the view has no diagnostic, and either its demand is met by the
-- filter's allocation, without a mismatch, or nothing is known of its demand. An unresolved view
-- is taken only if the filter includes such views.
pub matches_sound :
    (f : Formats) (filter : Filter) (v : View)
    → matches f filter v ≡ ok true
    → (v.diagnostic ≡ none)
      × ((v.status ≢ unresolved_view) ⊎ (filter.include_unresolved ≡ true))
      × (((d : Demand) × (v.demand ≡ some d) × (compare f d.effective filter.allocation ≡ ok []))
          ⊎ ((v.status ≡ unresolved_view) × (v.demand ≡ none)))
unfolding matches match_view
matches_sound f filter v h =
    (ground arith, ground arith, ground (arith, fits_sound f filter v.demand))

-- The demand that counts: the one that was published last.
abbrev pub newest : Option Submission → Option Demand → Option Demand
newest first none = submitted first
newest first (some d) = some d

-- What the filter is to say of a demand, told from the demand alone.
abbrev pub verdict : Formats → Filter → Option Demand → Result Error Bool
verdict f filter none = ok filter.include_unresolved
verdict f filter (some d) =
    if is_resolved d.recipe_resolution || filter.include_unresolved
    then (compare f d.effective filter.allocation >>= λ m. ok (is_nil m))
    else ok false

-- The same, where metadata or payload may be unreadable.
abbrev pub decide :
    Formats
    → Filter
    → Result Error (Option Submission)
    → Result Error (Option Demand)
    → Result Error Bool
decide f filter (err e) payload = err malformed
decide f filter (ok first) (err e) = err malformed
decide f filter (ok first) (ok payload) = verdict f filter (newest first payload)

-- `Match` of what `Inspect` shows is an error where metadata or payload is unreadable, and
-- otherwise the verdict on the demand published last, the payload's or else the submission's, which
-- is an error where the comparison with the allocation is.
pub matches-inspect :
    (f : Formats) (filter : Filter) (metadata : Result Error (Option Submission))
    (payload : Result Error (Option Demand))
    → matches f filter (inspect metadata payload) ≡ decide f filter metadata payload
unfolding matches match_view inspect fits
matches-inspect f filter (err e) payload = ground arith
matches-inspect f filter (ok first) (err e) = ground arith
matches-inspect f filter (ok first) (ok payload) = ground arith
