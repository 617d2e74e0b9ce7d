-- ===== src/Process/Capture/Sealing.antt =====
-- What is shown of a capture: the redaction of all that was written, whatever its pieces were.
use mathlib.Core.List.{append_assoc, append-nil}
use c2j.Prelude.{
  ℕ, zero, suc, ◌+◌, Bool, true, false, ◌&&◌, ◌||◌, List, [], ◌∷◌, ◌++◌, ◌≡◌, refl, sym, ap, ◌∙◌,
  arith,
}
use c2j.Prelude.{Bytes, ltb, length, if◌then◌else◌}
use c2j.Secrets.Masks.{Encodings, Marks, render_parts, redact_parts, take, concat}
use c2j.Secrets.Masks.Boundaries.{concat-redact_parts}
use c2j.Process.Capture.{
  Stream, stdout, stderr, Both, at, put, Observation, Capture, Limits, new_capture, write_raw,
  observed_size, observe, write, write_all, same_stream, texts, first_or_nil, rest_of,
  replace_texts, safe_bytes, safe_texts, seal,
}
use c2j.Process.Capture.Laws.{write_all-Holds}

length-render_parts :
    (m : Marks) (offset : ℕ) (parts : List Bytes)
    → length (render_parts m offset parts) ≡ length parts
unfolding render_parts
length-render_parts m offset [] = refl
length-render_parts m offset (part ∷ parts) =
    ap suc (length-render_parts m (offset + length part) parts)

length-redact_parts :
    (x : Encodings) (values parts : List Bytes) (incomplete : Bool)
    → length (redact_parts x values parts incomplete) ≡ length parts
unfolding redact_parts
length-redact_parts x [] parts incomplete = refl
length-redact_parts x (v ∷ vs) parts incomplete = length-render_parts _ 0 parts

split_first :
    (ts us : List Bytes) (n : ℕ) → length ts ≡ suc n → us ≡ rest_of ts → first_or_nil ts ∷ us ≡ ts
split_first [] us n h e = absurd (omega (arith, h))
split_first (t ∷ ts) us n h e = ap (λ r. t ∷ r) e

length-rest_of : (ts : List Bytes) (n : ℕ) → length ts ≡ suc n → length (rest_of ts) ≡ n
length-rest_of [] n h = absurd (omega (arith, h))
length-rest_of (t ∷ ts) n h = omega (arith, h)

-- Each stream gets its own texts back, in order.
texts-replace :
    {T : Type 0} (es : List (Observation T)) (s : Stream) (safe : Both (List Bytes))
    → length (at safe s) ≡ length (texts s es)
    → texts s (replace_texts es safe) ≡ at safe s
unfolding texts replace_texts
texts-replace [] s safe h = nil_of (at safe s) h
  where
    nil_of : (ts : List Bytes) → length ts ≡ 0 → [] ≡ ts
    nil_of [] h = refl
    nil_of (t ∷ ts) h = absurd (omega (arith, h))
texts-replace {T} (o ∷ es) s safe h = replaced o.stream s (λ safe'. texts-replace es s safe') h
  where
    replaced :
        (from s : Stream)
        → ((safe' : Both (List Bytes))
            → length (at safe' s) ≡ length (texts s es)
            → texts s (replace_texts es safe') ≡ at safe' s)
        → length (at safe s)
          ≡ length (if same_stream from s then o.text ∷ texts s es else texts s es)
        → (if same_stream from s
            then first_or_nil (at safe from)
              ∷ texts s (replace_texts es (put safe from (rest_of (at safe from))))
            else texts s (replace_texts es (put safe from (rest_of (at safe from)))))
          ≡ at safe s
    replaced stdout stdout rest h =
        split_first safe.out _ _ h
          (rest (put safe stdout (rest_of safe.out)) (length-rest_of safe.out _ h))
    replaced stdout stderr rest h = rest (put safe stdout (rest_of safe.out)) h
    replaced stderr stdout rest h = rest (put safe stderr (rest_of safe.err)) h
    replaced stderr stderr rest h =
        split_first safe.err _ _ h
          (rest (put safe stderr (rest_of safe.err)) (length-rest_of safe.err _ h))

module _ {T : Type 0} (l : Limits) where
  omitted_stays :
      (c : Capture T) (os : List (Observation T)) (s : Stream)
      → at (write_all l c os).omitted s ≡ false
      → at c.omitted s ≡ false
  unfolding write_all write write_raw observe
  omitted_stays c [] s h = h
  omitted_stays c (o ∷ os) s h = kept o.stream s (omitted_stays (write l c o).0 os s h)
    where
      kept :
          (from s : Stream)
          → at
              (put c.omitted from (
                ltb (observed_size l (write_raw l o.stream o.text c) o.text) (length o.text)
                || at c.omitted from))
              s
            ≡ false
          → at c.omitted s ≡ false
      kept stdout stdout h = ground arith
      kept stdout stderr h = h
      kept stderr stdout h = h
      kept stderr stderr h = ground arith

texts-append :
    {T : Type 0} (s : Stream) (es fs : List (Observation T))
    → texts s (es ++ fs) ≡ texts s es ++ texts s fs
unfolding texts
texts-append s [] fs = refl
texts-append s (e ∷ es) fs = by_stream (same_stream e.stream s) e.text _ _ _ (texts-append s es fs)
  where
    by_stream :
        (b : Bool) (t : Bytes) (both front back : List Bytes)
        → both ≡ front ++ back
        → (if b then t ∷ both else both) ≡ (if b then t ∷ front else front) ++ back
    by_stream true t both front back e = ap (λ r. t ∷ r) e
    by_stream false t both front back e = e

concat-append : (ts us : List Bytes) → concat (ts ++ us) ≡ concat ts ++ concat us
unfolding concat
concat-append [] us = refl
concat-append (t ∷ ts) us =
    ap (λ r. t ++ r) (concat-append ts us) ∙ sym (append_assoc t (concat ts) (concat us))

take_whole : (n : ℕ) (p : Bytes) → ltb n (length p) ≡ false → take n p ≡ p
take_whole zero [] h = refl
take_whole zero (c ∷ p) h = absurd (ground arith)
take_whole (suc n) [] h = refl
take_whole (suc n) (c ∷ p) h = ap (λ r. c ∷ r) (take_whole n p (ground arith))

-- What one observation adds to the text of a stream
abbrev pub adds : Bool → Bytes → Bytes
adds b p = concat (if b then p ∷ [] else [])

adds-take :
    (b : Bool) (n : ℕ) (p : Bytes) → (b && ltb n (length p)) ≡ false → adds b (take n p) ≡ adds b p
adds-take true n p h = ap (adds true) (take_whole n p h)
adds-take false n p h = refl

zero_adds : (b : Bool) (p : Bytes) → (b && ltb 0 (length p)) ≡ false → adds b p ≡ []
unfolding concat
zero_adds true [] h = refl
zero_adds true (c ∷ p) h = absurd (ground arith)
zero_adds false p h = refl

-- An observation that has the whole text, or none for a text with no bytes
one_more :
    {T : Type 0} (from s : Stream) (t : T) (n : ℕ) (p : Bytes) (es : List (Observation T))
    → (same_stream from s && ltb n (length p)) ≡ false
    → concat (
        texts s
          (if ltb 0 n then es ++ record { stream = from; time = t; text = take n p } ∷ [] else es))
      ≡ concat (texts s es) ++ adds (same_stream from s) p
one_more from s t zero p es h =
    rw (zero_adds (same_stream from s) p h) (sym (append-nil (concat (texts s es))))
one_more from s t (suc n) p es h =
    let some_text : ltb 0 (suc n) ≡ true = ground arith in
    let e : Observation _ = record { stream = from; time = t; text = take (suc n) p } in
    rw some_text (
      ap concat (texts-append s es (e ∷ []))
      ∙ concat-append (texts s es) (texts s (e ∷ []))
      ∙ ap (λ r. concat (texts s es) ++ r)
          (unfold texts in adds-take (same_stream from s) (suc n) p h))

cons_adds :
    (b : Bool) (p : Bytes) (ts : List Bytes)
    → adds b p ++ concat ts ≡ concat (if b then p ∷ ts else ts)
unfolding concat
cons_adds true p ts = ap (λ r. r ++ concat ts) (append-nil p)
cons_adds false p ts = refl

module _ {T : Type 0} (l : Limits) where
  write_not_omitted :
      (c : Capture T) (o : Observation T) (s : Stream)
      → at (write l c o).0.omitted s ≡ false
      → (same_stream o.stream s
          && ltb (observed_size l (write_raw l o.stream o.text c) o.text) (length o.text))
        ≡ false
  unfolding write write_raw observe
  write_not_omitted c o s h = by_stream o.stream s h
    where
      by_stream :
          (from s : Stream)
          → at
              (put c.omitted from (
                ltb (observed_size l (write_raw l o.stream o.text c) o.text) (length o.text)
                || at c.omitted from))
              s
            ≡ false
          → (same_stream from s
              && ltb (observed_size l (write_raw l o.stream o.text c) o.text) (length o.text))
            ≡ false
      by_stream stdout stdout h = ground arith
      by_stream stdout stderr h = refl
      by_stream stderr stdout h = refl
      by_stream stderr stderr h = ground arith

  -- A write of which nothing was omitted is in the observations with its whole text.
  write-adds :
      (c : Capture T) (o : Observation T) (s : Stream)
      → at (write l c o).0.omitted s ≡ false
      → concat (texts s (write l c o).0.events)
        ≡ concat (texts s c.events) ++ adds (same_stream o.stream s) o.text
  unfolding write write_raw observe
  write-adds c o s h =
      one_more o.stream s o.time (observed_size l (write_raw l o.stream o.text c) o.text) o.text
        c.events (write_not_omitted c o s h)

  write_all-adds :
      (c : Capture T) (os : List (Observation T)) (s : Stream)
      → at (write_all l c os).omitted s ≡ false
      → concat (texts s (write_all l c os).events)
        ≡ concat (texts s c.events) ++ concat (texts s os)
  unfolding write_all concat texts
  write_all-adds c [] s h = sym (append-nil (concat (texts s c.events)))
  write_all-adds c (o ∷ os) s h =
      write_all-adds (write l c o).0 os s h
      ∙ ap (λ r. r ++ concat (texts s os))
          (write-adds c o s (omitted_stays l (write l c o).0 os s h))
      ∙ append_assoc (concat (texts s c.events)) (adds (same_stream o.stream s) o.text)
          (concat (texts s os))
      ∙ ap (λ r. concat (texts s c.events) ++ r)
          (unfold texts in cons_adds (same_stream o.stream s) o.text (texts s os))

module _ {T : Type 0} (x : Encodings) (masks : List Bytes) where
  -- The texts of a sealed stream are the redacted texts of the captured one.
  texts-seal : (c : Capture T) (s : Stream) → texts s (seal x masks c) ≡ safe_texts x masks c s
  unfolding seal
  texts-seal c stdout =
      texts-replace c.events stdout _
        (unfold safe_texts in length-redact_parts x masks (texts stdout c.events) c.omitted.out)
  texts-seal c stderr =
      texts-replace c.events stderr _
        (unfold safe_texts in length-redact_parts x masks (texts stderr c.events) c.omitted.err)

  shown_parts :
      (c : Capture T) (s : Stream) {h : Bytes}
      → at c.omitted s ≡ false
      → concat (texts s c.events) ≡ h
      → concat (safe_texts x masks c s) ≡ concat (redact_parts x masks (h ∷ []) false)
  unfolding safe_texts
  shown_parts c s {h} e e' =
      ap (λ b. concat (redact_parts x masks (texts s c.events) b)) e
      ∙ concat-redact_parts x masks (texts s c.events) false
      ∙ ap (λ t. concat (redact_parts x masks (t ∷ []) false)) e'

  -- Where nothing of a stream was omitted, the observations that `seal` leaves, put together, and the
  -- bytes that `Bytes` returns both are the redaction of all that was written to the stream, as one
  -- text: a value that came in several writes, with writes to the other stream between them, is hidden.
  pub sealed_complete :
      (l : Limits) (os : List (Observation T)) (s : Stream)
      → at (write_all l new_capture os).omitted s ≡ false
      → at (write_all l new_capture os).raw_omitted s ≡ false
      → (concat (texts s (seal x masks (write_all l new_capture os)))
          ≡ concat (redact_parts x masks (concat (texts s os) ∷ []) false))
        × (safe_bytes x masks (write_all l new_capture os) s
            ≡ concat (redact_parts x masks (concat (texts s os) ∷ []) false))
  sealed_complete l os s h h' =
      let c = write_all l new_capture os in
      let e : concat (texts s c.events) ≡ concat (texts s os) =
        unfold texts concat in write_all-adds l new_capture os s h in
      let r = write_all-Holds l os s in
      let e' : at c.raw s ≡ concat (texts s os) =
        r.prefix ∙ take_whole l.capture (concat (texts s os)) (sym r.flag ∙ h') in
      (ap concat (texts-seal c s) ∙ shown_parts c s h e, unfold safe_bytes in rw (h', e') refl)
