-- ===== src/Process/Capture.antt =====
-- pkg/ops/process/capture.go: `captureWriter.Write`, `seal`, `Bytes`, `RawBytes` and `Truncated`. The
-- mutex makes each call one step. `T` stands for the time of an observation. `redactParts` is
-- `RedactParts` with the masks of both redactors. The rendering of a log is left out.
pub mod Laws
pub mod Sealing
use c2j.Prelude.{ℕ, zero, suc, ◌+◌, ◌-◌, ◌*◌, Bool, true, false, not, ◌&&◌, ◌||◌}
use c2j.Prelude.{List, [], ◌∷◌, ◌++◌, Bytes, ltb, leb, length, is_nil, if◌then◌else◌}
use c2j.Secrets.Masks.{Encodings, redact_parts, take, min, concat}

pub data Stream : Type 0 where
  stdout stderr : Stream

-- A Go array of two
pub record Both {ℓ} (A : Type ℓ) : Type ℓ where
  pub out : A
  pub err : A

module _ {ℓ} {A : Type ℓ} where
  abbrev pub at : Both A → Stream → A
  at b stdout = b.out
  at b stderr = b.err

  abbrev pub put : Both A → Stream → A → Both A
  put b stdout a = record b { out = a }
  put b stderr a = record b { err = a }

pub record Observation (T : Type 0) : Type 0 where
  pub stream : Stream
  pub time : T
  pub text : Bytes

pub record Capture (T : Type 0) : Type 0 where
  pub raw : Both Bytes
  pub raw_omitted : Both Bool
  pub events : List (Observation T)
  pub size : ℕ
  pub omitted : Both Bool

-- `CaptureLimit` and `observationLimit`
pub record Limits : Type 0 where
  pub capture : ℕ
  pub observations : ℕ

abbrev pub limits : Limits
limits = record { capture = 4 * 1024 * 1024; observations = 65536 }

abbrev pub new_capture : {T : Type 0} → Capture T
new_capture = record {
  raw = record { out = []; err = [] };
  raw_omitted = record { out = false; err = false };
  events = [];
  size = 0;
  omitted = record { out = false; err = false };
}

module _ {T : Type 0} (l : Limits) where
  -- The raw bytes: what still fits.
  unfoldable pub write_raw : Stream → Bytes → Capture T → Capture T
  write_raw s p c =
      let n = min (length p) (l.capture - length (at c.raw s)) in
      record c {
        raw = put c.raw s (at c.raw s ++ take n p);
        raw_omitted = put c.raw_omitted s (ltb n (length p) || at c.raw_omitted s);
      }

  -- How much of a write is observed.
  unfoldable pub observed_size : Capture T → Bytes → ℕ
  observed_size c p =
      if leb l.observations (length c.events) then 0 else min (length p) (l.capture - c.size)

  unfoldable pub observe : Stream → T → Bytes → Capture T → Capture T
  observe s time p c =
      let n = observed_size c p in
      record c {
        events =
            if ltb 0 n
            then c.events ++ record { stream = s; time = time; text = take n p } ∷ []
            else c.events;
        size = c.size + n;
        omitted = put c.omitted s (ltb n (length p) || at c.omitted s);
      }

  -- `captureWriter.Write`: all of the bytes count as written.
  unfoldable pub write : Capture T → Observation T → Capture T × ℕ
  write c o = (observe o.stream o.time o.text (write_raw o.stream o.text c), length o.text)

  unfoldable pub write_all : Capture T → List (Observation T) → Capture T
  write_all c [] = c
  write_all c (o ∷ os) = write_all (write c o).0 os

abbrev pub same_stream : Stream → Stream → Bool
same_stream stdout stdout = true
same_stream stdout stderr = false
same_stream stderr stdout = false
same_stream stderr stderr = true

-- The texts of one stream, in their order
unfoldable pub texts : {T : Type 0} → Stream → List (Observation T) → List Bytes
texts s [] = []
texts s (o ∷ os) = if same_stream o.stream s then o.text ∷ texts s os else texts s os

abbrev pub first_or_nil : List Bytes → Bytes
first_or_nil [] = []
first_or_nil (t ∷ ts) = t

abbrev pub rest_of : List Bytes → List Bytes
rest_of [] = []
rest_of (t ∷ ts) = ts

-- The loop that puts the safe texts of both streams in the places of the raw ones.
unfoldable pub replace_texts :
    {T : Type 0} → List (Observation T) → Both (List Bytes) → List (Observation T)
replace_texts [] safe = []
replace_texts (o ∷ os) safe =
    record o { text = first_or_nil (at safe o.stream) }
    ∷ replace_texts os (put safe o.stream (rest_of (at safe o.stream)))

module _ {T : Type 0} (x : Encodings) (masks : List Bytes) where
  -- `safeRaw`, and `Bytes`
  unfoldable pub safe_bytes : Capture T → Stream → Bytes
  safe_bytes c s = concat (redact_parts x masks (at c.raw s ∷ []) (at c.raw_omitted s))

  unfoldable pub safe_texts : Capture T → Stream → List Bytes
  safe_texts c s = redact_parts x masks (texts s c.events) (at c.omitted s)

  -- `seal`: the observations that a log is rendered from
  unfoldable pub seal : Capture T → List (Observation T)
  seal c = replace_texts c.events (record { out = safe_texts c stdout; err = safe_texts c stderr })
