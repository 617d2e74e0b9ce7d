-- ===== src/Machine/Loop/Halting.antt =====
-- Where no turn climbs, the loop of the state machine ends.
use mathlib.Core.Path.{subst}
use c2j.Prelude.{picked}
use c2j.Prelude.{
  ℕ, zero, suc, ◌+◌, ◌<◌, String, Bool, true, false, ◌&&◌, some, List, [], ◌∷◌, ◌≡◌, ◌≢◌, refl, sym,
  ap,
}
use c2j.Prelude.{inl, inr, and-eq_true, arith, ok, string_eq, ltb, every}
use c2j.Prelude.{lookup}
use c2j.Machine.Failure.{CatchClause, Transition, TransitionData}
use c2j.Machine.Transitions.{Conditions, TransitionDecision, evaluate_transitions}
use c2j.Machine.Transitions.Laws.{FirstTaken, taken, passed, evaluate_transitions_iff}
use c2j.Machine.Run.{State, StateMap, Engine}
use c2j.Machine.Loop.{
  Position, Next, go_on, break_at, caught, stop_with, visited, step, run, Outcome, finished,
  unfinished, broken, completed_by_catch,
}
use c2j.Machine.Loop.Laws.{
  Stay, Edge, routed, moved, Trail, at_start, after, decision_of, step-Edge,
}

less : (a b : ℕ) → ltb a b ≡ true → a < b
less a b h = ground arith

lower : {a b n : ℕ} → a < b → b < suc n → a < n
lower h k = omega arith

suc_add : (n k : ℕ) → suc (n + k) ≡ suc n + k
suc_add n k = omega arith

-- Every transition leads to a state of smaller rank than the one that it leaves.
unfoldable pub descends :
    {T Meta Body : Type 0} → (String → ℕ) → List (String × State T Meta Body) → Bool
descends rank [] = true
descends rank ((name, s) ∷ rest) =
    every (λ t. ltb (rank t.to) (rank name)) s.transitions && descends rank rest

descends-lookup :
    {T Meta Body : Type 0} (rank : String → ℕ) (states : List (String × State T Meta Body))
    (name : String) (s : State T Meta Body)
    → descends rank states ≡ true
    → lookup name states ≡ some s
    → every (λ t. ltb (rank t.to) (rank name)) s.transitions ≡ true
unfolding descends lookup
descends-lookup rank [] name s d h = cc
descends-lookup rank ((key, a) ∷ rest) name s d h =
    let (first, later) = and-eq_true _ _ d in
    elim (picked (string_eq.beq key name) _ a s h) [
      | inl (same, e) ↦
          subst (λ k. every (λ t. ltb (rank t.to) (rank k)) s.transitions ≡ true)
            ((string_eq.beq_iff key name).0 same)
            (subst (λ r. every (λ t. ltb (rank t.to) (rank key)) r.transitions ≡ true) e first)
      | inr h' ↦ descends-lookup rank rest name s later h'
    ]

module _ {W V T R : Type 0} (M : Type 0) (x : Conditions W V T R) where
  -- The target of the transition that was taken is one that the list declares.
  taken_within :
      (w : W) (s : String) (d : TransitionDecision V M) (ts : List (Transition T))
      (ok_to : String → Bool)
      → FirstTaken M x w s d ts
      → every (λ t. ok_to t.to) ts ≡ true
      → ok_to d.to ≡ true
  unfolding every
  taken_within w s d [] ok_to k h = elim k [ ]
  taken_within w s d (t ∷ ts) ok_to (taken k) h =
      subst (λ e. ok_to e.to ≡ true) (sym k.decided) (and-eq_true _ _ h).0
  taken_within w s d (t ∷ ts) ok_to (passed e k) h =
      taken_within w s d ts ok_to k (and-eq_true _ _ h).1

module _ {V M E W T Meta Body : Type 0} (x : Engine V M E W T Meta Body)
    (clauses : List (CatchClause T)) (m : StateMap T Meta Body) (rank : String → ℕ) where
  moved_down :
      (p q : Position V M W) (s : State T Meta Body)
      → descends rank m.states ≡ true
      → lookup p.name m.states ≡ some s
      → evaluate_transitions M x.conditions q.world p.name s.transitions
        ≡ ok (decision_of x clauses m q)
      → string_eq.beq q.name "" ≡ false
      → rank q.name < rank p.name
  moved_down p q s d k e named =
      elim ((evaluate_transitions_iff M x.conditions q.world p.name s.transitions _).0 e) [
        | inl (n, all) ↦ let same = (string_eq.beq_iff q.name "").1 (ap (λ d. d.to) n) in cc
        | inr found ↦ less _ _ (
            taken_within M x.conditions q.world p.name _ s.transitions
              (λ to. ltb (rank to) (rank p.name)) found
              (descends-lookup rank m.states p.name s d k))
      ]

  -- A run may visit as many states as the rank of the first, and one more.
  run_steps :
      (n : ℕ) (p q : Position V M W) (s : Next V M E W)
      → ((r : Position V M W) → s ≡ go_on r → rank r.name < n → run x clauses m n r ≢ unfinished q)
      → ((r : Position V M W) → s ≡ go_on r → rank r.name < n)
      → (elim s [
        | go_on r ↦ run x clauses m n r
        | break_at r ↦ finished r
        | caught r ↦ completed_by_catch r
        | stop_with e w ↦ broken e w
      ])
        ≢ unfinished q
  run_steps n p q (go_on r) rest down h = rest r refl (down r refl) h
  run_steps n p q (break_at r) rest down h = cc
  run_steps n p q (caught r) rest down h = cc
  run_steps n p q (stop_with e w) rest down h = cc

  -- The route of a visit, if it has one, leads to a state of smaller rank.
  abbrev pub RoutesDown : Position V M W → Type 0
  RoutesDown q =
      (s : State T Meta Body) (u : TransitionData V M) (w : W)
      → Stay x clauses m q s (visited (some u)) w
      → rank u.to < rank q.name

  Edge-down :
      (p q : Position V M W)
      → descends rank m.states ≡ true
      → RoutesDown p
      → Edge x clauses m p q
      → rank q.name < rank p.name
  Edge-down p q d routes (routed s s' stay known named) =
      subst (λ name. rank name < rank p.name) named (routes s q.transition q.world stay)
  Edge-down p q d routes (moved s stay inner e named) = moved_down p q s d stay.known e named

  -- If every transition leads to a state of smaller rank, and so does the route of each visit that the
  -- loop may come to from its first position, the loop is not cut short where it may visit more states
  -- than the rank of the first.
  pub run_halts :
      (n : ℕ) (p q : Position V M W)
      → descends rank m.states ≡ true
      → ((r : Position V M W) → Trail x clauses m p r → RoutesDown r)
      → rank p.name < n
      → run x clauses m n p ≢ unfinished q
  unfolding run
  run_halts zero p q d routes low = ground arith
  run_halts (suc n) p q d routes low =
      run_steps n p q (step x clauses m p)
        (λ r e k. run_halts n r q d (λ o t. routes o (after (step-Edge x clauses m p r e) t)) k)
        λ r e. lower (Edge-down p r d (routes p at_start) (step-Edge x clauses m p r e)) low

module _ {V M E W T Meta Body : Type 0} (x : Engine V M E W T Meta Body)
    (clauses : List (CatchClause T)) (m : StateMap T Meta Body) where
  -- More states than a run visits change nothing.
  more_steps :
      (n k : ℕ) (o : Outcome V M E W) (s : Next V M E W)
      → ((r : Position V M W) → run x clauses m n r ≡ o → run x clauses m (n + k) r ≡ o)
      → (elim s [
        | go_on r ↦ run x clauses m n r
        | break_at r ↦ finished r
        | caught r ↦ completed_by_catch r
        | stop_with e w ↦ broken e w
      ])
        ≡ o
      → (elim s [
        | go_on r ↦ run x clauses m (n + k) r
        | break_at r ↦ finished r
        | caught r ↦ completed_by_catch r
        | stop_with e w ↦ broken e w
      ])
        ≡ o
  more_steps n k o (go_on r) rest h = rest r h
  more_steps n k o (break_at r) rest h = h
  more_steps n k o (caught r) rest h = h
  more_steps n k o (stop_with e w) rest h = h

  -- A run that is not cut short ends in the same way where it may visit more states.
  pub run_more :
      (n k : ℕ) (p : Position V M W) (o : Outcome V M E W)
      → ((q : Position V M W) → o ≢ unfinished q)
      → run x clauses m n p ≡ o
      → run x clauses m (n + k) p ≡ o
  unfolding run
  run_more zero k p o whole h = elim (whole p (sym h)) [ ]
  run_more (suc n) k p o whole h =
      subst (λ l. run x clauses m l p ≡ o) (suc_add n k)
        (more_steps n k o (step x clauses m p) (λ r e. run_more n k r o whole e) h)
