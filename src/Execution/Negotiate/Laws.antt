-- ===== src/Execution/Negotiate/Laws.antt =====
-- A negotiated demand is no weaker than the demand before it.
use c2j.Prelude.{Bool, true, false, ◌||◌, Option, none, some, [], ◌≡◌, ◌≢◌, refl}
use c2j.Prelude.{Bytes, bytes_eq, contains, ok, err, arith, ◌⊎◌, inl, inr, Bool-cases, ltb}
use native.Mathlib.Nat.{le_refl}
use c2j.Execution.Quantity.{Parser, normalize_cpu, normalize_bytes}
use c2j.Execution.Requirements.{
  Error, nil_pointer, bad_cpu, bad_memory, bad_storage, Formats, Requirements, overlay,
  no_requirements, choose,
}
use c2j.Execution.Requirements.{merge_packages, merge_capabilities}
use c2j.Execution.Requirements.Laws.{contains-merge_packages, contains-merge_capabilities}
use c2j.Execution.Normalize.{normalize, normalize_field}
use c2j.Execution.Compare.{amount_of, compare}
use c2j.Execution.Compare.Laws.{Covers}
use c2j.Execution.Demand.{Demand}
use c2j.Execution.Negotiate.{negotiate, keep_larger, combine_base, override_conflict, of_resources}
use c2j.Execution.Selector.{match_base}

-- The lists of a normal form are the lists of the requirements, merged with nothing.
normalize_lists :
    (f : Formats) (r out : Requirements)
    → normalize f r ≡ ok out
    → (out.capabilities ≡ merge_capabilities r.capabilities [])
      × (out.packages ≡ merge_packages r.packages [])
unfolding normalize overlay
normalize_lists f r out h = ground arith

contains-normalize :
    (f : Formats) (r out : Requirements) (k : Bytes)
    → normalize f r ≡ ok out
    → (contains out.capabilities k ≡ contains r.capabilities k)
      × (contains out.packages k ≡ contains r.packages k)
unfolding contains
contains-normalize f r out k h =
    let (c, p) = normalize_lists f r out h in
    (
      ground (arith, contains-merge_capabilities r.capabilities [] k),
      ground (arith, contains-merge_packages r.packages [] k),
    )

keep_larger-Covers :
    (parser : Parser) (cpu : Bool) (prior next out : Option Bytes)
    → keep_larger parser cpu prior next ≡ ok out
    → Covers parser cpu prior out
unfolding keep_larger
keep_larger-Covers parser cpu none next out h = tt
keep_larger-Covers parser cpu (some prior) none out h = absurd (cc)
keep_larger-Covers parser cpu (some prior) (some next) out h =
    elim (Bool-cases (ltb (amount_of parser cpu next) (amount_of parser cpu prior))) [
      | inl less ↦
          let e : some prior ≡ out = ground arith in rw (← e) (le_refl (amount_of parser cpu prior))
      | inr not_less ↦ let e : some next ≡ out = ground arith in rw (← e) (ground arith)
    ]

-- One selector is the other or is matched by it.
abbrev pub Refines : Option Bytes → Option Bytes → Type 0
Refines none base = Unit {0}
Refines (some prior) none = ⊥
Refines (some prior) (some base) = (base ≡ prior) ⊎ (match_base prior base ≡ true)

combine_base-Refines :
    (current requested out : Option Bytes)
    → (current ≢ none → requested ≢ none)
    → combine_base current requested ≡ ok out
    → Refines current out
unfolding combine_base
combine_base-Refines none requested out p h = tt
combine_base-Refines (some current) none out p h = absurd (p (λ e. cc) refl)
combine_base-Refines (some current) (some requested) out p h =
    elim (Bool-cases (match_base current requested)) [
      | inl refines ↦ let e : some requested ≡ out = ground arith in rw (← e) (inr refines)
      | inr other ↦ let e : some current ≡ out = ground arith in rw (← e) (inl refl)
    ]

normalize_base : (f : Formats) (r out : Requirements) → normalize f r ≡ ok out → out.base ≡ r.base
unfolding normalize overlay
normalize_base f r out h = ground arith

choose-ne_none : (a b c : Option Bytes) → a ≢ none → choose (choose a b) c ≢ none
choose-ne_none a b c h = ground arith

-- The steps behind a successful negotiation.
record Stages (f : Formats) (d : Demand) (needs : Requirements) (d' : Demand) : Type 0 where
  effective : Requirements
  normal : normalize f (overlay (overlay d.effective needs) d.overrides) ≡ ok effective
  allowed : override_conflict needs.base d.overrides.base ≡ false
  met :
      compare f
        (record no_requirements { resources = needs.resources })
        (of_resources effective.resources)
      ≡ ok []
  base : combine_base d.effective.base effective.base ≡ ok d'.effective.base
  cpu :
      keep_larger f.quantity true d.effective.resources.cpu effective.resources.cpu
      ≡ ok d'.effective.resources.cpu
  memory :
      keep_larger f.quantity false d.effective.resources.memory effective.resources.memory
      ≡ ok d'.effective.resources.memory
  storage :
      keep_larger f.quantity false d.effective.resources.storage effective.resources.storage
      ≡ ok d'.effective.resources.storage
  capabilities : d'.effective.capabilities ≡ effective.capabilities
  packages : d'.effective.packages ≡ effective.packages

negotiate_normal :
    (f : Formats) (d : Demand) (needs : Requirements) (d' : Demand)
    → negotiate f d needs ≡ ok d'
    → (effective : Requirements) × (normalize f (overlay (overlay d.effective needs) d.overrides)
        ≡ ok effective)
unfolding negotiate
negotiate_normal f d needs d' h = ground arith

stages :
    (f : Formats) (d : Demand) (needs : Requirements) (d' : Demand)
    → negotiate f d needs ≡ ok d'
    → Stages f d needs d'
unfolding negotiate
stages f d needs d' h =
    let (effective, normal) = negotiate_normal f d needs d' h in
    record {
      effective = effective;
      normal = normal;
      allowed = ground arith;
      met = ground arith;
      base = ground arith;
      cpu = ground arith;
      memory = ground arith;
      storage = ground arith;
      capabilities = ground arith;
      packages = ground arith;
    }

-- What negotiation adds to: every capability and package of the demand and of the needs stays, no
-- amount of the demand falls, the base is the demand's or refines it, and the overrides are kept.
pub record Strengthens (f : Formats) (d : Demand) (needs : Requirements) (d' : Demand)
    : Type 0 where
  pub capabilities :
      (k : Bytes)
      → (contains d.effective.capabilities k || contains needs.capabilities k) ≡ true
      → contains d'.effective.capabilities k ≡ true
  pub packages :
      (k : Bytes)
      → (contains d.effective.packages k || contains needs.packages k) ≡ true
      → contains d'.effective.packages k ≡ true
  pub cpu : Covers f.quantity true d.effective.resources.cpu d'.effective.resources.cpu
  pub memory : Covers f.quantity false d.effective.resources.memory d'.effective.resources.memory
  pub storage : Covers f.quantity false d.effective.resources.storage d'.effective.resources.storage
  pub base : Refines d.effective.base d'.effective.base

pub negotiate-Strengthens :
    (f : Formats) (d : Demand) (needs : Requirements) (d' : Demand)
    → negotiate f d needs ≡ ok d'
    → Strengthens f d needs d'
unfolding overlay
negotiate-Strengthens f d needs d' h =
    let s = stages f d needs d' h in
    let whole = overlay (overlay d.effective needs) d.overrides in
    record {
      capabilities = λ k m. ground (
        arith,
        s.capabilities,
        (contains-normalize f whole s.effective k s.normal).0,
        contains-merge_capabilities (merge_capabilities d.effective.capabilities needs.capabilities)
            d.overrides.capabilities k,
        contains-merge_capabilities d.effective.capabilities needs.capabilities k,
      );
      packages = λ k m. ground (
        arith,
        s.packages,
        (contains-normalize f whole s.effective k s.normal).1,
        contains-merge_packages (merge_packages d.effective.packages needs.packages)
            d.overrides.packages k,
        contains-merge_packages d.effective.packages needs.packages k,
      );
      cpu =
          keep_larger-Covers f.quantity true d.effective.resources.cpu s.effective.resources.cpu
            d'.effective.resources.cpu s.cpu;
      memory =
          keep_larger-Covers f.quantity false d.effective.resources.memory
            s.effective.resources.memory d'.effective.resources.memory s.memory;
      storage =
          keep_larger-Covers f.quantity false d.effective.resources.storage
            s.effective.resources.storage d'.effective.resources.storage s.storage;
      base =
          combine_base-Refines d.effective.base s.effective.base d'.effective.base
            (λ present.
              rw (normalize_base f whole s.effective s.normal)
                (choose-ne_none d.effective.base needs.base d.overrides.base present))
            s.base;
    }

normalize_field-present :
    (normal : Bytes → Option Bytes) (e : Error) (v out : Option Bytes)
    → normalize_field normal e v ≡ ok out
    → v ≢ none
    → out ≢ none
unfolding normalize_field
normalize_field-present normal e v out h p = ground arith

normalize_resources :
    (f : Formats) (r out : Requirements)
    → normalize f r ≡ ok out
    → (r.resources.cpu ≢ none → out.resources.cpu ≢ none)
      × (r.resources.memory ≢ none → out.resources.memory ≢ none)
      × (r.resources.storage ≢ none → out.resources.storage ≢ none)
unfolding normalize overlay
normalize_resources f r out h = (
  normalize_field-present (normalize_cpu f.quantity) bad_cpu r.resources.cpu out.resources.cpu
      (ground arith),
  normalize_field-present (normalize_bytes f.quantity) bad_memory r.resources.memory
      out.resources.memory (ground arith),
  normalize_field-present (normalize_bytes f.quantity) bad_storage r.resources.storage
      out.resources.storage (ground arith),
)

keep_larger_safe :
    (parser : Parser) (cpu : Bool) (prior next : Option Bytes)
    → (prior ≢ none → next ≢ none)
    → keep_larger parser cpu prior next ≢ err nil_pointer
unfolding keep_larger
keep_larger_safe parser cpu prior next h = ground arith

-- The canonical form of the overlay has each resource that the demand has, so that the nil pointer
-- of the last loop is never dereferenced.
pub negotiate_present :
    (f : Formats) (d : Demand) (needs effective : Requirements)
    → normalize f (overlay (overlay d.effective needs) d.overrides) ≡ ok effective
    → (keep_larger f.quantity true d.effective.resources.cpu effective.resources.cpu
        ≢ err nil_pointer)
      × (keep_larger f.quantity false d.effective.resources.memory effective.resources.memory
          ≢ err nil_pointer)
      × (keep_larger f.quantity false d.effective.resources.storage effective.resources.storage
          ≢ err nil_pointer)
unfolding overlay
negotiate_present f d needs effective h =
    let whole = overlay (overlay d.effective needs) d.overrides in
    let (cpu, memory, storage) = normalize_resources f whole effective h in
    let e = d.effective.resources in
    let n = needs.resources in
    let o = d.overrides.resources in
    (
      keep_larger_safe f.quantity true e.cpu effective.resources.cpu
          (λ p. cpu (choose-ne_none e.cpu n.cpu o.cpu p)),
      keep_larger_safe f.quantity false e.memory effective.resources.memory
          (λ p. memory (choose-ne_none e.memory n.memory o.memory p)),
      keep_larger_safe f.quantity false e.storage effective.resources.storage
          (λ p. storage (choose-ne_none e.storage n.storage o.storage p)),
    )
