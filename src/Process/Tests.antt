-- ===== src/Process/Tests.antt =====
-- The theorems on captured output at a child process that writes to both streams.
use c2j.Prelude.{ℕ, true, false, List, [], ◌∷◌, ◌≡◌, refl, arith}
use c2j.Prelude.{Bytes, bytes_eq, codes}
use c2j.Secrets.Masks.{Encodings, concat, redact_parts}
use c2j.Process.Capture.{
  stdout, stderr, Observation, Limits, limits, new_capture, write_raw, observed_size, observe,
  write, write_all, texts, safe_bytes, seal,
}
use c2j.Process.Capture.Laws.{
  IsBounded, Holds, observed_bytes, write_all-IsBounded, write_all-Holds,
}
use c2j.Process.Capture.Sealing.{sealed_complete}

abbrev plain_text : Encodings
plain_text = record { quoted = λ v. v; encoded = λ v. v }

abbrev masks : List Bytes
masks = codes "key" ∷ []

-- The mask is written in two pieces, with a write to the other stream between them.
abbrev written : List (Observation ℕ)
written =
    record { stream = stdout; time = 1; text = codes "a ke" }
    ∷ record { stream = stderr; time = 2; text = codes "warn" }
    ∷ record { stream = stdout; time = 3; text = codes "y" }
    ∷ []

abbrev small : Limits
small = record { capture = 6; observations = 2 }

write_all-IsBounded_example : IsBounded small (write_all small new_capture written)
write_all-IsBounded_example = write_all-IsBounded small new_capture written (record {
  out_fits = omega arith;
  err_fits = omega arith;
  observed = unfold observed_bytes in refl;
  observed_fit = unfold observed_bytes in omega arith;
  events_fit = omega arith;
})

write_all-Holds_example :
    Holds small (write_all small new_capture written) stdout (concat (texts stdout written))
write_all-Holds_example = write_all-Holds small written stdout

-- The third write is no longer observed.
third_is_omitted : (write_all small new_capture written).omitted ≡ record { out = true; err = true }
unfolding write_all write write_raw observe observed_size
third_is_omitted = refl

sealed_complete_example :
    (concat (texts stdout (seal plain_text masks (write_all limits new_capture written)))
      ≡ concat (redact_parts plain_text masks (concat (texts stdout written) ∷ []) false))
    × (safe_bytes plain_text masks (write_all limits new_capture written) stdout
        ≡ concat (redact_parts plain_text masks (concat (texts stdout written) ∷ []) false))
unfolding write_all write write_raw observe observed_size
sealed_complete_example = sealed_complete plain_text masks limits written stdout refl refl
