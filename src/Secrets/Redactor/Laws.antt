-- ===== src/Secrets/Redactor/Laws.antt =====
-- Masks live as long as a session of the redactor may still write.
use mathlib.Core.Path.{subst}
use c2j.Prelude.{
  ℕ, zero, suc, ◌+◌, ◌-◌, Bool, true, false, not, ◌&&◌, ◌||◌, List, [], ◌∷◌, ◌≡◌, sym, arith,
}
use c2j.Prelude.{Bytes, bytes_eq, contains, is_nil, nat_beq, and-eq_true}
use c2j.Secrets.Redactor.{
  Redactor, Handle, Pool, Call, opens, closes_session, registers, closes_redactor, clear_closed,
  close, release_session, add, new_session, close_session, close_flags, close_at, step, run,
}

-- The sessions that are not released.
abbrev pub open_count : Bool → ℕ
open_count true = 0
open_count false = 1

unfoldable pub unreleased : List Handle → ℕ
unreleased [] = 0
unreleased (h ∷ hs) = open_count h.released + unreleased hs

regroup : (k n l : ℕ) → k + (n + l) ≡ (k + n) + l
regroup k n l = omega arith

zero_add : (n : ℕ) → 0 + n ≡ n
zero_add n = omega arith

one_less : (k n : ℕ) → k + (1 + n) ≡ suc (k + (0 + n))
one_less k n = omega arith

-- The count is that of the sessions that are not released, and a closed redactor without any has
-- forgotten its masks.
pub record IsConsistent (r : Redactor) (n : ℕ) : Type 0 where
  pub counted : r.sessions ≡ n
  pub forgets : (not (r.closed && nat_beq r.sessions 0) || is_nil r.masks) ≡ true

clear_closed-IsConsistent :
    (r : Redactor) (n : ℕ) → r.sessions ≡ n → IsConsistent (clear_closed r) n
unfolding clear_closed
clear_closed-IsConsistent r n e = ground arith

close-IsConsistent : (r : Redactor) (n : ℕ) → IsConsistent r n → IsConsistent (close r) n
unfolding close
close-IsConsistent r n v = clear_closed-IsConsistent (record r { closed = true }) n v.counted

release-IsConsistent :
    (r : Redactor) (n : ℕ) → IsConsistent r (suc n) → IsConsistent (release_session r) n
unfolding release_session
release-IsConsistent r n v =
    clear_closed-IsConsistent (record r { sessions = r.sessions - 1 }) n (omega (arith, v.counted))

close_flags-IsConsistent :
    (released owns : Bool) (r : Redactor) (k n : ℕ)
    → IsConsistent r (k + (open_count released + n))
    → IsConsistent (close_flags released owns r) (k + (0 + n))
close_flags-IsConsistent true owns r k n v = v
close_flags-IsConsistent false true r k n v =
    close-IsConsistent (release_session r) (k + (0 + n))
      (release-IsConsistent r (k + (0 + n)) (subst (IsConsistent r) (one_less k n) v))
close_flags-IsConsistent false false r k n v =
    release-IsConsistent r (k + (0 + n)) (subst (IsConsistent r) (one_less k n) v)

close_at-IsConsistent :
    (i : ℕ) (hs : List Handle) (r : Redactor) (k : ℕ)
    → IsConsistent r (k + unreleased hs)
    → IsConsistent (close_at i hs r).1 (k + unreleased (close_at i hs r).0)
unfolding close_at unreleased
close_at-IsConsistent i [] r k v = v
close_at-IsConsistent zero (h ∷ hs) r k v =
    unfold close_session in
    close_flags-IsConsistent h.released h.owns_redactor r k (unreleased hs) v
close_at-IsConsistent (suc i) (h ∷ hs) r k v =
    let n : ℕ = open_count h.released in
    let behind =
      close_at-IsConsistent i hs r (k + n)
        (subst (IsConsistent r) (regroup k n (unreleased hs)) v) in
    subst (IsConsistent (close_at i hs r).1) (sym (regroup k n (unreleased (close_at i hs r).0)))
      behind

opened-IsConsistent :
    (r : Redactor) (n : ℕ)
    → IsConsistent r n
    → IsConsistent (record r { sessions = suc r.sessions }) (1 + n)
opened-IsConsistent r n v = ground arith

add-IsConsistent :
    (r : Redactor) (value : Bytes) (n : ℕ) → IsConsistent r n → IsConsistent (add r value).0 n
unfolding add
add-IsConsistent r value n v = ground arith

step-IsConsistent :
    (p : Pool) (c : Call)
    → IsConsistent p.redactor (unreleased p.handles)
    → IsConsistent (step p c).redactor (unreleased (step p c).handles)
unfolding step
step-IsConsistent p (opens owns) v =
    unfold new_session unreleased in opened-IsConsistent p.redactor (unreleased p.handles) v
step-IsConsistent p (closes_session i) v =
    subst (IsConsistent (close_at i p.handles p.redactor).1) (zero_add _) (
      close_at-IsConsistent i p.handles p.redactor 0
        (subst (IsConsistent p.redactor) (sym (zero_add _)) v))
step-IsConsistent p (registers value) v = add-IsConsistent p.redactor value (unreleased p.handles) v
step-IsConsistent p closes_redactor v = close-IsConsistent p.redactor (unreleased p.handles) v

-- Whatever is called on a redactor and its sessions, in whatever order: the count of sessions is that
-- of the sessions that are not released, and a closed redactor without any has forgotten its masks.
pub run-IsConsistent :
    (p : Pool) (cs : List Call)
    → IsConsistent p.redactor (unreleased p.handles)
    → IsConsistent (run p cs).redactor (unreleased (run p cs).handles)
unfolding run
run-IsConsistent p [] v = v
run-IsConsistent p (c ∷ cs) v = run-IsConsistent (step p c) cs (step-IsConsistent p c v)

-- The redactor is open, or a session of it is.
abbrev pub is_live : Redactor → Bool
is_live r = not (r.closed && nat_beq r.sessions 0)

-- Also in each pool on the way
unfoldable pub stays_live : Pool → List Call → Bool
stays_live p [] = true
stays_live p (c ∷ cs) = is_live (step p c).redactor && stays_live (step p c) cs

abbrev Keeps : Redactor → Redactor → Type 0
Keeps r r' =
    (value : Bytes)
    → contains r.masks value ≡ true
    → is_live r' ≡ true
    → contains r'.masks value ≡ true

close-Keeps : (r : Redactor) → Keeps r (close r)
unfolding close clear_closed
close-Keeps r value h l = ground arith

release-Keeps : (r : Redactor) → Keeps r (release_session r)
unfolding release_session clear_closed
release-Keeps r value h l = ground arith

close_session-Keeps : (h : Handle) (r : Redactor) → Keeps r (close_session h r)
unfolding close_session close release_session clear_closed
close_session-Keeps h r value m l = ground arith

close_at-Keeps : (i : ℕ) (hs : List Handle) (r : Redactor) → Keeps r (close_at i hs r).1
unfolding close_at
close_at-Keeps i [] r value m l = m
close_at-Keeps zero (h ∷ hs) r value m l = close_session-Keeps h r value m l
close_at-Keeps (suc i) (h ∷ hs) r value m l = close_at-Keeps i hs r value m l

add-Keeps : (r : Redactor) (v : Bytes) → Keeps r (add r v).0
unfolding add contains
add-Keeps r v value m l = ground arith

step-Keeps : (p : Pool) (c : Call) → Keeps p.redactor (step p c).redactor
unfolding step
step-Keeps p (opens owns) value m l = unfold new_session in m
step-Keeps p (closes_session i) value m l = close_at-Keeps i p.handles p.redactor value m l
step-Keeps p (registers v) value m l = add-Keeps p.redactor v value m l
step-Keeps p closes_redactor value m l = close-Keeps p.redactor value m l

-- A value that is masked stays masked, as long as on the way the redactor is open or has a session
-- that is not released.
pub run_keeps :
    (p : Pool) (cs : List Call) (value : Bytes)
    → contains p.redactor.masks value ≡ true
    → stays_live p cs ≡ true
    → contains (run p cs).redactor.masks value ≡ true
unfolding run stays_live
run_keeps p [] value m l = m
run_keeps p (c ∷ cs) value m l =
    let (now, later) = and-eq_true _ _ l in
    run_keeps (step p c) cs value (step-Keeps p c value m now) later
