-- ===== src/AicpuSampler/Bounds.antt =====
-- What a sample holds.
use hang_analyzer.Prelude.{ℕ, ◌≡◌, ◌⊎◌, refl, inl, inr, Option, Option-cases, none, some, [], Text}
use hang_analyzer.AicpuSampler.{Run, printed, failed, aicpu_of, sample, parse_usages}

-- Each row of `sample` has either a usage of the AICPU and no error, or an error and no values.
pub sample_lem :
    (search : Text → Text → Option ℕ) (device started ended : ℕ) (r : Run)
    → (let s = sample search device started ended r in
        (s.device ≡ device)
        × (((s.error ≡ none) × ((n : ℕ) × (aicpu_of s.values ≡ some n)))
            ⊎ ((s.values ≡ []) × ((m : Text) × (s.error ≡ some m)))))
unfolding sample
sample_lem search device started ended (failed m) = (refl, inr (refl, (m, refl)))
sample_lem search device started ended (printed stdout) =
    elim (Option-cases (aicpu_of (parse_usages search stdout))) [
      | inl none_found ↦ rw none_found (refl, inr (refl, (_, refl)))
      | inr (n, found) ↦ rw found (refl, inl (refl, (n, found)))
    ]
