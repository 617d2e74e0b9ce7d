-- ===== src/Secrets/Redactor.antt =====
-- pkg/secrets/redactor.go and session.go: the life of a redactor and of its sessions. `sessions` is
-- decremented by the one release of each session, so that it is a number. The two kinds of session
-- are those that own their redactor and those that share it.
pub mod Laws
use c2j.Prelude.{ℕ, zero, suc, ◌+◌, ◌-◌, Bool, true, false, not, ◌&&◌, ◌||◌, Option, none, some}
use c2j.Prelude.{List, [], ◌∷◌, ◌++◌, Bytes, bytes_eq, contains, nat_beq, if◌then◌else◌}

-- A map of masks is the list of its keys.
pub record Redactor : Type 0 where
  pub masks : List Bytes
  pub closed : Bool
  pub sessions : ℕ

-- `NewRedactor`
abbrev pub new_redactor : Redactor
new_redactor = record { masks = []; closed = false; sessions = 0 }

-- `clearClosed`
unfoldable pub clear_closed : Redactor → Redactor
clear_closed r = if r.closed && nat_beq r.sessions 0 then record r { masks = [] } else r

-- `Redactor.Close`
unfoldable pub close : Redactor → Redactor
close r = clear_closed (record r { closed = true })

-- `releaseSession`
unfoldable pub release_session : Redactor → Redactor
release_session r = clear_closed (record r { sessions = r.sessions - 1 })

-- `add`, and `Register`: `false` is `ErrExecutionLeaseLost`.
unfoldable pub add : Redactor → Bytes → Redactor × Bool
add r value =
    if r.closed
    then (r, false)
    else (record r { masks = if contains r.masks value then r.masks else value ∷ r.masks }, true)

-- The flags of a session; its values are modelled with their preparation.
pub record Handle : Type 0 where
  pub owns_redactor : Bool
  pub released : Bool

-- A redactor with the sessions that were made of it, in their order.
pub record Pool : Type 0 where
  pub redactor : Redactor
  pub handles : List Handle

-- `Redactor.NewSession`; `NewSession` makes one that owns its redactor.
unfoldable pub new_session : Pool → Bool → Pool
new_session p owns = record {
  redactor = record p.redactor { sessions = suc p.redactor.sessions };
  handles = record { owns_redactor = owns; released = false } ∷ p.handles;
}

-- What `Session.Close` does to the redactor, by the flags `released` and `ownsRedactor`.
abbrev pub close_flags : Bool → Bool → Redactor → Redactor
close_flags true owns r = r
close_flags false true r = close (release_session r)
close_flags false false r = release_session r

unfoldable pub close_session : Handle → Redactor → Redactor
close_session h r = close_flags h.released h.owns_redactor r

-- The handle at a place, closed, and the redactor behind.
unfoldable pub close_at : ℕ → List Handle → Redactor → List Handle × Redactor
close_at i [] r = ([], r)
close_at zero (h ∷ hs) r = (record h { released = true } ∷ hs, close_session h r)
close_at (suc i) (h ∷ hs) r = let (hs', r') = close_at i hs r in (h ∷ hs', r')

-- What may be called on the pool, in any order.
pub data Call : Type 0 where
  opens : Bool → Call
  closes_session : ℕ → Call
  registers : Bytes → Call
  closes_redactor : Call

unfoldable pub step : Pool → Call → Pool
step p (opens owns) = new_session p owns
step p (closes_session i) =
    let (hs, r) = close_at i p.handles p.redactor in record { redactor = r; handles = hs }
step p (registers value) = record p { redactor = (add p.redactor value).0 }
step p closes_redactor = record p { redactor = close p.redactor }

unfoldable pub run : Pool → List Call → Pool
run p [] = p
run p (c ∷ cs) = run (step p c) cs
