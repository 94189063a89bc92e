-- ===== src/Analyzer/Progress/Settled.antt =====
-- When a stream has no unconfirmed checkpoint.
use mathlib.Core.List.{append-nil, get_last?}
use hang_analyzer.Prelude.{
  ◌≡◌, ◌↔◌, refl, sym, ap, subst, ◌∙◌, true, false, inl, inr, some, List, [], ◌∷◌, ◌++◌, length,
  All, List-cases, Dict, arith,
}
use hang_analyzer.Format.{Event}
use hang_analyzer.Analyzer.Progress.{CheckpointKey, is_confirmed, Progress, stream_progress}
use hang_analyzer.Analyzer.Progress.Streams.{Describes, stream_progress-Describes}

get_last?-append :
    (xs : List Event) (y : Event) (ys : List Event) → get_last? (xs ++ y ∷ ys) ≡ get_last? (y ∷ ys)
get_last?-append [] y ys = refl
get_last?-append (x ∷ []) y ys = refl
get_last?-append (x ∷ z ∷ xs) y ys = get_last?-append (z ∷ xs) y ys

last-All :
    (P : Event → Type 0) (es : List Event) (l : Event) → All P es → get_last? es ≡ some l → P l
last-All P [] l h q = cc
last-All P (x ∷ []) l h q = subst P (cc q) h.0
last-All P (x ∷ y ∷ es) l h q = last-All P (y ∷ es) l h.1 q

pub cons_last : (y : Event) (ys : List Event) → (l : Event) × (get_last? (y ∷ ys) ≡ some l)
cons_last y [] = (y, refl)
cons_last y (z ∷ ys) = cons_last z ys

module _ (exact : Dict CheckpointKey Event) where
  -- The last of the checkpoints is exactly confirmed.
  abbrev pub LastConfirmed : List Event → Type 0
  LastConfirmed checkpoints =
      (last : Event) → get_last? checkpoints ≡ some last → is_confirmed exact last ≡ true

  none_open-LastConfirmed :
      (not_ready checkpoints : List Event) (r : Progress)
      → Describes exact not_ready checkpoints r
      → r.unconfirmed_count ≡ 0
      → LastConfirmed checkpoints
  none_open-LastConfirmed not_ready checkpoints r d none_left last found =
      let closed : d.open_ ≡ [] = length_zero d.open_ (sym d.open_count ∙ none_left) in
      let whole : checkpoints ≡ d.through =
        d.parts ∙ ap (λ l. d.through ++ l) closed ∙ append-nil d.through in
      elim d.last [
        | inl (empty, _, _) ↦ cc (sym found ∙ ap get_last? (whole ∙ empty))
        | inr (before, e, q, h, _, _) ↦
            let same : some last ≡ some e =
              sym found ∙ ap get_last? (whole ∙ q) ∙ get_last?-append before e [] in
            subst (λ x. is_confirmed exact x ≡ true) (cc same) h
      ]
    where
      length_zero : (es : List Event) → length es ≡ 0 → es ≡ []
      length_zero [] h = refl
      length_zero (x ∷ es) h = absurd (omega arith)

  LastConfirmed-none_open :
      (not_ready checkpoints : List Event) (r : Progress)
      → Describes exact not_ready checkpoints r
      → LastConfirmed checkpoints
      → r.unconfirmed_count ≡ 0
  LastConfirmed-none_open not_ready checkpoints r d confirmed = elim (List-cases d.open_) [
    | inl closed ↦ d.open_count ∙ ap length closed
    | inr (y, ys, eq) ↦
        let (l, found) = cons_last y ys in
        let at_end : get_last? checkpoints ≡ some l =
          ap get_last? (d.parts ∙ ap (λ es. d.through ++ es) eq)
          ∙ get_last?-append d.through y ys
          ∙ found in
        let left : is_confirmed exact l ≡ false =
          last-All (λ e. is_confirmed exact e ≡ false) d.open_ l d.none_open
            (ap get_last? eq ∙ found) in
        cc (confirmed l at_end, left)
  ]

  -- A stream has no unconfirmed checkpoint if and only if its last one is exactly confirmed.
  pub unconfirmed_iff :
      (not_ready checkpoints : List Event) {r : Progress}
      → stream_progress exact not_ready checkpoints ≡ some r
      → (r.unconfirmed_count ≡ 0) ↔ LastConfirmed checkpoints
  unfolding stream_progress
  unconfirmed_iff not_ready [] q = cc
  unconfirmed_iff not_ready (c ∷ cs) {r} q =
      let (p, computed, d) = stream_progress-Describes exact not_ready (c ∷ cs) (λ e. cc) in
      let same : p ≡ r = cc (sym computed ∙ q) in
      let own = subst (Describes exact not_ready (c ∷ cs)) same d in
      (
        none_open-LastConfirmed not_ready (c ∷ cs) r own,
        LastConfirmed-none_open not_ready (c ∷ cs) r own,
      )
