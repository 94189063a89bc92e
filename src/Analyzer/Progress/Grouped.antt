-- ===== src/Analyzer/Progress/Grouped.antt =====
-- The progress of each stream is that of its own submissions.
use mathlib.Core.List.{append-nil, append_assoc}
use hang_analyzer.Prelude.{
  ℕ, ◌==◌, ◌≡◌, refl, sym, ap, subst, ◌∙◌, Given, Given-bind, Given-self, true, false, Option, none,
  some, List, [], ◌∷◌, ◌++◌, passing, sort_by, Dict, lookup, lookup-insert_self, lookup-insert_ne,
  insert, ℕ_discrete, ◌>>=◌, arith,
}
use hang_analyzer.Format.{Event}
use hang_analyzer.Analyzer.Progress.{
  CheckpointKey, exact_confirmations, by_stream, Progress, stream_progress, progress_of,
  device_progress,
}

-- The submissions of a stream, in the order of the scan.
abbrev pub submissions_of : ℕ → List Event → List Event
submissions_of stream es = passing (λ e. e.stream == stream) es

list_at : ℕ → Dict ℕ (List Event) → List Event
list_at stream d = elim (lookup ℕ_discrete stream d) [ none ↦ [] | some l ↦ l ]

list_at-insert :
    (stream : ℕ) (e : Event) (d : Dict ℕ (List Event))
    → list_at stream (insert ℕ_discrete e.stream (list_at e.stream d ++ e ∷ []) d)
      ≡ list_at stream d ++ submissions_of stream (e ∷ [])
unfolding list_at passing
list_at-insert stream e d = elim (ℕ_discrete e.stream stream) [
  | yes p ↦
      let v = list_at e.stream d ++ e ∷ [] in
      let here : (e.stream == stream) ≡ true = ground (arith, p) in
      rw here (
        ap (λ k. list_at k (insert ℕ_discrete e.stream v d)) (sym p)
        ∙ ap of_option (lookup-insert_self ℕ_discrete e.stream v d)
        ∙ ap (λ k. list_at k d ++ e ∷ []) p)
  | no n ↦
      let away : (e.stream == stream) ≡ false = ground (arith, n) in
      rw away (
        ap of_option
          (lookup-insert_ne ℕ_discrete e.stream stream (list_at e.stream d ++ e ∷ []) d n)
        ∙ sym (append-nil (list_at stream d)))
]
  where
    of_option : Option (List Event) → List Event
    of_option o = elim o [ none ↦ [] | some l ↦ l ]

list_at-by_stream :
    (stream : ℕ) (es : List Event) (d : Dict ℕ (List Event))
    → list_at stream (by_stream es d) ≡ list_at stream d ++ submissions_of stream es
unfolding by_stream passing list_at
list_at-by_stream stream [] d = sym (append-nil (list_at stream d))
list_at-by_stream stream (e ∷ es) d =
    list_at-by_stream stream es (insert ℕ_discrete e.stream (list_at e.stream d ++ e ∷ []) d)
    ∙ ap (λ l. l ++ submissions_of stream es) (list_at-insert stream e d)
    ∙ append_assoc (list_at stream d) (submissions_of stream (e ∷ [])) (submissions_of stream es)
    ∙ ap (λ l. list_at stream d ++ l) (ground arith)

-- The progress that a stream has in the dict.
abbrev Describes :
    Dict CheckpointKey Event → List Event → Dict ℕ (List Event) → ℕ → Dict ℕ Progress → Type 0
Describes exact not_ready d stream ps =
    lookup ℕ_discrete stream ps
    ≡ stream_progress exact not_ready (sort_by (λ (e : Event). e.seq) (list_at stream d))

Describes-cons :
    (exact : Dict CheckpointKey Event) (not_ready : List Event) (d : Dict ℕ (List Event)) (j : ℕ)
    (l : List Event) (stream : ℕ) (p : Progress) (ps : Dict ℕ Progress)
    → stream_progress exact not_ready (sort_by (λ (e : Event). e.seq) l) ≡ some p
    → Describes exact not_ready d stream ps
    → Describes exact not_ready ((j, l) ∷ d) stream ((j, p) ∷ ps)
unfolding lookup list_at
Describes-cons exact not_ready d j l stream p ps one rest = ground (arith, one, rest)

progress_of-Describes :
    (exact : Dict CheckpointKey Event) (not_ready : List Event) (d : Dict ℕ (List Event))
    (stream : ℕ)
    → Given (Describes exact not_ready d stream) (progress_of exact not_ready d)
unfolding progress_of list_at lookup stream_progress sort_by Given
progress_of-Describes exact not_ready [] stream = refl
progress_of-Describes exact not_ready ((j, l) ∷ d) stream =
    let o = stream_progress exact not_ready (sort_by (λ (e : Event). e.seq) l) in
    Given-bind (λ p. o ≡ some p) (Describes exact not_ready ((j, l) ∷ d) stream) o
      (λ p. do ps ← progress_of exact not_ready d; some ((j, p) ∷ ps)) (Given-self o)
      (λ p one.
        Given-bind (Describes exact not_ready d stream)
          (Describes exact not_ready ((j, l) ∷ d) stream) (progress_of exact not_ready d)
          (λ ps. some ((j, p) ∷ ps)) (progress_of-Describes exact not_ready d stream)
          (λ ps rest. Describes-cons exact not_ready d j l stream p ps one rest))

-- If the progress of a rank is computed, each stream has in it the progress of exactly the checkpoints
-- submitted on that stream, sorted by their numbers, and none if there are none.
pub device_progress-stream :
    (confirmed submitted not_ready : List Event) (stream : ℕ) {ps : Dict ℕ Progress}
    → device_progress confirmed submitted not_ready ≡ some ps
    → lookup ℕ_discrete stream ps
      ≡ stream_progress
          (exact_confirmations confirmed)
          not_ready
          (sort_by (λ (e : Event). e.seq) (submissions_of stream submitted))
unfolding device_progress Given list_at lookup
device_progress-stream confirmed submitted not_ready stream {ps} e =
    subst
      (Given (Describes (exact_confirmations confirmed) not_ready (by_stream submitted []) stream))
      e
      (progress_of-Describes (exact_confirmations confirmed) not_ready (by_stream submitted [])
        stream)
    ∙ ap
        (λ l.
          stream_progress (exact_confirmations confirmed) not_ready
            (sort_by (λ (e : Event). e.seq) l))
        (list_at-by_stream stream submitted [])
