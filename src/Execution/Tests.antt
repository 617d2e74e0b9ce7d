-- ===== src/Execution/Tests.antt =====
-- The theorems on requirements at concrete demands and allocations.
use c2j.Prelude.{true, false, none, some, List, [], ◌∷◌, ◌++◌, ◌≡◌, ◌≢◌, refl, ◌↔◌, ◌⊎◌}
use c2j.Prelude.{String, Bytes, codes, bytes_eq, contains, Result, ok, arith}
use c2j.Execution.Selector.{match_base, strip, after_first, has_suffix}
use c2j.Execution.Selector.Meaning.{Glob}
use c2j.Execution.Selector.Correct.{match_base_iff}
use c2j.Execution.Text.{take_digits, utf8_valid, contains_any}
use c2j.Execution.Text.Decimal.{decimal, value}
use c2j.Execution.Quantity.{
  Quantity, Parser, exact, number, cpu_exact, byte_exact, amount, parse_quantity, normalize_cpu,
  normalize_bytes, kilobytes, trim_right,
}
use c2j.Execution.Quantity.Normal.{ReadsCores, normalize_cpu_same, exact-plain, exact-milli}
use c2j.Execution.Quantity.Accepted.{Accepted, parse_quantity-Accepted}
use c2j.Execution.Requirements.{
  Error, Formats, Requirements, Resources, Allocation, no_requirements, overlay, merge_packages,
  merge_capabilities,
}
use c2j.Execution.Requirements.Laws.{Fresh, merge_packages-Fresh}
use c2j.Execution.Fields.{package_ok, check_packages, validate_base, validate_capabilities}
use c2j.Execution.Normalize.{
  normalize, normalize_field, check_base, normalize_allocation, normalize_legacy, check_allocation,
}
use c2j.Execution.Compare.{compare, mismatches, missing, check, check_resource, check_image}
use c2j.Execution.Compare.Laws.{Satisfies, compare_iff}
use c2j.Execution.Demand.{Demand, Filter, matches, inspect, resolved}
use c2j.Execution.Demand.Laws.{decide, matches-inspect}
use c2j.Execution.Negotiate.{negotiate, keep_larger, combine_base, override_conflict}
use c2j.Execution.Negotiate.Laws.{Strengthens, negotiate-Strengthens}

-- A parser that holds each text exactly, and prints it as it stands.
exact_parser : Parser
unfolding exact number cpu_exact byte_exact take_digits value
exact_parser s = elim (exact true s) [
  | some x ↦ some (record { numerator = x.top; denominator = x.bottom; text = s })
  | none ↦ elim (exact false s) [
    | some x ↦ some (record { numerator = x.top; denominator = x.bottom; text = s })
    | none ↦ none
  ]
]

stars : match_base (codes "ubuntu-*/x*64") (codes "ubuntu-24/linux/x86_64") ≡ true
unfolding match_base strip after_first has_suffix
stars = refl

no_overlap : match_base (codes "ab*ba") (codes "aba") ≡ false
unfolding match_base strip after_first has_suffix
no_overlap = refl

match_base_iff_example :
    (match_base (codes "u*4") (codes "u24") ≡ true)
    ↔ ((codes "u*4" ≡ b'*' ∷ []) ⊎ ((codes "u24" ≢ []) × Glob (codes "u*4") (codes "u24")))
match_base_iff_example = match_base_iff (codes "u*4") (codes "u24")

half_core :
    parse_quantity exact_parser (codes "0.5") true
    ≡ some (record { numerator = 5; denominator = 10; text = codes "0.5" }, 500)
unfolding parse_quantity amount exact_parser
half_core = refl

cores_in_full : normalize_cpu exact_parser (codes "2000m") ≡ some (codes "2")
unfolding normalize_cpu parse_quantity amount exact_parser decimal
cores_in_full = refl

small_bytes : kilobytes 1500 ≡ codes "1.5k"
unfolding kilobytes trim_right decimal
small_bytes = refl

gibibytes :
    parse_quantity exact_parser (codes "1.5Gi") false
    ≡ some (record { numerator = 16106127360; denominator = 10; text = codes "1.5Gi" }, 1610612736)
unfolding parse_quantity amount exact_parser
gibibytes = refl

parse_quantity-Accepted_example :
    Accepted true (codes "0.5") (record { numerator = 5; denominator = 10; text = codes "0.5" }) 500
parse_quantity-Accepted_example =
    parse_quantity-Accepted exact_parser (codes "0.5") true
      (record { numerator = 5; denominator = 10; text = codes "0.5" }) 500 half_core

exact_parser-ReadsCores : ReadsCores exact_parser
unfolding exact_parser
exact_parser-ReadsCores = record {
  cores = λ n h. (
    record { numerator = n; denominator = 1; text = decimal n },
    ground (arith, exact-plain n),
    omega arith,
  );
  millicores = λ n h. (
    record { numerator = n; denominator = 1000; text = decimal n ++ b'm' ∷ [] },
    ground (arith, exact-milli n),
    omega arith,
  );
}

normalize_cpu_same_example :
    (q : Quantity) × (parse_quantity exact_parser (codes "2") true ≡ some (q, 2000))
unfolding normalize_cpu parse_quantity amount exact_parser decimal
normalize_cpu_same_example =
    normalize_cpu_same exact_parser exact_parser-ReadsCores (codes "2000m") (codes "2")
      (record { numerator = 2000; denominator = 1000; text = codes "2000m" }) 2000 refl refl

abbrev formats : Formats
formats = record {
  quantity = exact_parser;
  reference = λ s. some s;
  pinned = λ s. none;
  digest_valid = λ s. true;
  lower = λ s. s;
  trim = λ s. s;
}

abbrev docker : List Bytes
docker = codes "docker" ∷ []

abbrev cores_of : String → Resources
cores_of s = record { cpu = some (codes s); memory = none; storage = none }

abbrev wanted : Requirements
wanted = record no_requirements {
  capabilities = docker;
  base = some (codes "ubuntu-*");
  resources = cores_of "1";
}

abbrev machine : Allocation
machine = record {
  base = codes "ubuntu-24";
  capabilities = docker;
  schema_version = 2;
  image = record { reference = []; manifest_digest = []; image_id = [] };
  platform = none;
  resources = cores_of "2";
}

-- Every definition that a comparison computes with.
normal : Requirements → Result Error Requirements
unfolding normalize normalize_field check_base overlay utf8_valid contains_any merge_packages
    merge_capabilities validate_base validate_capabilities check_packages package_ok normalize_cpu
    normalize_bytes parse_quantity amount exact_parser decimal contains
normal r = normalize formats r

normal_allocation : Allocation → Result Error Allocation
unfolding normal normalize_allocation normalize_legacy check_allocation
normal_allocation a = normalize_allocation formats a

compare_iff_example : (compare formats wanted machine ≡ ok []) ↔ Satisfies formats wanted machine
unfolding normal_allocation
compare_iff_example = compare_iff formats wanted machine wanted machine refl refl

merge_packages-Fresh_example : Fresh [] (merge_packages docker docker)
merge_packages-Fresh_example = merge_packages-Fresh docker docker

abbrev demand : Demand
demand = record {
  overrides = no_requirements;
  schema_version = 4;
  recipe_resolution = resolved;
  effective = wanted;
}

abbrev needs : Requirements
needs = record no_requirements { base = some (codes "ubuntu-24"); resources = cores_of "500m" }

abbrev negotiated : Demand
negotiated = record demand {
  effective = record wanted { base = some (codes "ubuntu-24"); resources = cores_of "1" };
}

-- Less than the demand has: the demand's amount stays, and the base is refined.
negotiation : negotiate formats demand needs ≡ ok negotiated
unfolding normal_allocation negotiate keep_larger combine_base override_conflict compare mismatches
    missing check check_resource check_image match_base strip has_suffix
negotiation = refl

negotiate-Strengthens_example : Strengthens formats demand needs negotiated
negotiate-Strengthens_example = negotiate-Strengthens formats demand needs negotiated negotiation

abbrev filter : Filter
filter = record { allocation = machine; include_unresolved = false }

matches-inspect_example :
    matches formats filter (inspect (ok none) (ok (some demand)))
    ≡ decide formats filter (ok none) (ok (some demand))
matches-inspect_example = matches-inspect formats filter (ok none) (ok (some demand))
