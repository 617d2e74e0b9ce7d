-- ===== src/Process/Capture/Laws.antt =====
-- What a capture holds of all that was written, and how much at most.
use mathlib.Core.Path.{subst}
use mathlib.Core.List.{append_assoc, append-nil}
use c2j.Prelude.{
  ℕ, zero, suc, ◌+◌, ◌-◌, ◌≤◌, Bool, true, false, ◌||◌, List, [], ◌∷◌, ◌++◌, ◌≡◌, refl, sym, ap,
  arith,
}
use c2j.Prelude.{Bytes, ltb, length, length-append, if◌then◌else◌}
use c2j.Secrets.Masks.{take, min, concat}
use c2j.Process.Capture.{
  Stream, stdout, stderr, at, Observation, Capture, Limits, new_capture, write_raw, observed_size,
  observe, write, write_all, same_stream, texts,
}

length-take : (n : ℕ) (p : Bytes) → length (take n p) ≡ min n (length p)
length-take zero p = ground arith
length-take (suc n) [] = ground arith
length-take (suc n) (c ∷ p) = ground (arith, length-take n p)

-- How many bytes the observations hold.
unfoldable pub observed_bytes : {T : Type 0} → List (Observation T) → ℕ
observed_bytes [] = 0
observed_bytes (o ∷ os) = length o.text + observed_bytes os

observed_bytes-append :
    {T : Type 0} (xs ys : List (Observation T))
    → observed_bytes (xs ++ ys) ≡ observed_bytes xs + observed_bytes ys
unfolding observed_bytes
observed_bytes-append [] ys = omega arith
observed_bytes-append (o ∷ xs) ys = ground (arith, observed_bytes-append xs ys)

module _ {T : Type 0} (l : Limits) where
  -- The memory that a capture takes is within the limits.
  pub record IsBounded (c : Capture T) : Type 0 where
    pub out_fits : length c.raw.out ≤ l.capture
    pub err_fits : length c.raw.err ≤ l.capture
    pub observed : observed_bytes c.events ≡ c.size
    pub observed_fit : observed_bytes c.events ≤ l.capture
    pub events_fit : length c.events ≤ l.observations

  raw-IsBounded :
      (s : Stream) (p : Bytes) (c : Capture T) → IsBounded c → IsBounded (write_raw l s p c)
  unfolding write_raw
  raw-IsBounded stdout p c v = ground (
    arith,
    length-append c.raw.out (take (min (length p) (l.capture - length c.raw.out)) p),
    length-take (min (length p) (l.capture - length c.raw.out)) p,
  )
  raw-IsBounded stderr p c v = ground (
    arith,
    length-append c.raw.err (take (min (length p) (l.capture - length c.raw.err)) p),
    length-take (min (length p) (l.capture - length c.raw.err)) p,
  )

  observe-IsBounded :
      (s : Stream) (t : T) (p : Bytes) (c : Capture T) → IsBounded c → IsBounded (observe l s t p c)
  unfolding observe observed_size observed_bytes
  observe-IsBounded s t p c v = ground (
    arith,
    length-take (observed_size l c p) p,
    observed_bytes-append c.events
        (record { stream = s; time = t; text = take (observed_size l c p) p } ∷ []),
    length-append c.events
        (record { stream = s; time = t; text = take (observed_size l c p) p } ∷ []),
  )

  write-IsBounded : (c : Capture T) (o : Observation T) → IsBounded c → IsBounded (write l c o).0
  unfolding write
  write-IsBounded c o v =
      observe-IsBounded o.stream o.time o.text _ (raw-IsBounded o.stream o.text c v)

  -- However much is written to a capture within its limits, in whatever pieces: each raw buffer, the
  -- texts of the observations together, and the number of observations stay within their limits, and
  -- the size that is kept is the size of those texts.
  pub write_all-IsBounded :
      (c : Capture T) (os : List (Observation T)) → IsBounded c → IsBounded (write_all l c os)
  unfolding write_all
  write_all-IsBounded c [] v = v
  write_all-IsBounded c (o ∷ os) v = write_all-IsBounded (write l c o).0 os (write-IsBounded c o v)

take-min : (n : ℕ) (p : Bytes) → take (min (length p) n) p ≡ take n p
take-min zero p = ground arith
take-min (suc n) [] = ground arith
take-min (suc n) (c ∷ p) = ground (arith, take-min n p)

take-append :
    (n : ℕ) (h p : Bytes)
    → take n h ++ take (min (length p) (n - length (take n h))) p ≡ take n (h ++ p)
take-append zero h p = let e : ◌≡◌ {A = ℕ} (0 - 0) 0 = refl in take-min 0 p
take-append (suc n) [] p = let e : suc n - 0 ≡ suc n = omega arith in rw e (take-min (suc n) p)
take-append (suc n) (c ∷ h) p =
    let e : suc n - suc (length (take n h)) ≡ n - length (take n h) = omega arith in
    rw e (ap (λ r. c ∷ r) (take-append n h p))

omits-append :
    (n : ℕ) (h p : Bytes)
    → (ltb (min (length p) (n - length (take n h))) (length p) || ltb n (length h))
      ≡ ltb n (length (h ++ p))
omits-append n h p = ground (arith, length-append h p, length-take n h)

-- The history with one more write
abbrev pub also : Stream → Stream → Bytes → Bytes → Bytes
also from s p h = if same_stream from s then h ++ p else h

held :
    (capacity : ℕ) (raw : Bytes) (omitted : Bool) (h p : Bytes)
    → raw ≡ take capacity h
    → omitted ≡ ltb capacity (length h)
    → (raw ++ take (min (length p) (capacity - length raw)) p ≡ take capacity (h ++ p))
      × ((ltb (min (length p) (capacity - length raw)) (length p) || omitted)
          ≡ ltb capacity (length (h ++ p)))
held capacity raw omitted h p e e' =
    (rw (e) (take-append capacity h p), rw (e, e') (omits-append capacity h p))

also-concat :
    (b : Bool) (h p : Bytes) (ts : List Bytes)
    → (if b then h ++ p else h) ++ concat ts ≡ h ++ concat (if b then p ∷ ts else ts)
unfolding concat
also-concat true h p ts = append_assoc h p (concat ts)
also-concat false h p ts = refl

nothing : (n : ℕ) → [] ≡ take n []
nothing zero = refl
nothing (suc n) = refl

module _ {T : Type 0} (l : Limits) where
  -- The raw buffer of a stream holds what fits of its history.
  pub record Holds (c : Capture T) (s : Stream) (h : Bytes) : Type 0 where
    pub prefix : at c.raw s ≡ take l.capture h
    pub flag : at c.raw_omitted s ≡ ltb l.capture (length h)

  write_raw-Holds :
      (from s : Stream) (p : Bytes) (c : Capture T) (h : Bytes)
      → Holds c s h
      → Holds (write_raw l from p c) s (also from s p h)
  unfolding write_raw
  write_raw-Holds stdout stdout p c h v =
      let (e, e') = held l.capture c.raw.out c.raw_omitted.out h p v.prefix v.flag in
      record { prefix = e; flag = e' }
  write_raw-Holds stdout stderr p c h v = record { prefix = v.prefix; flag = v.flag }
  write_raw-Holds stderr stdout p c h v = record { prefix = v.prefix; flag = v.flag }
  write_raw-Holds stderr stderr p c h v =
      let (e, e') = held l.capture c.raw.err c.raw_omitted.err h p v.prefix v.flag in
      record { prefix = e; flag = e' }

  write-Holds :
      (c : Capture T) (o : Observation T) (s : Stream) (h : Bytes)
      → Holds c s h
      → Holds (write l c o).0 s (also o.stream s o.text h)
  unfolding write observe
  write-Holds c o s h v =
      let k = write_raw-Holds o.stream s o.text c h v in record { prefix = k.prefix; flag = k.flag }

  write_all-Holds_from :
      (c : Capture T) (os : List (Observation T)) (s : Stream) (h : Bytes)
      → Holds c s h
      → Holds (write_all l c os) s (h ++ concat (texts s os))
  unfolding write_all texts
  write_all-Holds_from c [] s h v = unfold concat in subst (Holds c s) (sym (append-nil h)) v
  write_all-Holds_from c (o ∷ os) s h v =
      subst (Holds (write_all l (write l c o).0 os) s)
        (also-concat (same_stream o.stream s) h o.text (texts s os))
        (write_all-Holds_from (write l c o).0 os s _ (write-Holds c o s h v))

  -- The raw buffer of a stream is the beginning of all that was written to it, as far as it fits, and
  -- Truncated says whether something did not fit.
  pub write_all-Holds :
      (os : List (Observation T)) (s : Stream)
      → Holds (write_all l new_capture os) s (concat (texts s os))
  write_all-Holds os stdout =
      write_all-Holds_from new_capture os stdout []
        (record { prefix = nothing l.capture; flag = ground arith })
  write_all-Holds os stderr =
      write_all-Holds_from new_capture os stderr []
        (record { prefix = nothing l.capture; flag = ground arith })
