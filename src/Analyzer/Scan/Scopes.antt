-- ===== src/Analyzer/Scan/Scopes.antt =====
-- The host scopes that are open after the events of a rank.
use hang_analyzer.Prelude.{
  ◌≡◌, refl, sym, ap, subst, ◌∙◌, true, false, ◌⊎◌, inl, inr, ◌↔◌, none, some, List, [], ◌∷◌, ◌++◌,
  All, All-mem, Memᴰ, contains, Text-discrete, ℕ_discrete, ends_with, replace, keys, Text, codes,
  Dict, lookup, insert, delete, lookup-insert_self, lookup-insert_ne, lookup-delete_self,
  lookup-delete_ne, Bool-cases,
}
use hang_analyzer.Format.{Event}
use hang_analyzer.Analyzer.Scan.{
  ScopeKey, ScopeKey-discrete, pairs, opens, closes, opened_key, closed_key, track_scope, scan_rank,
  scan_events, fresh, RankScan,
}

-- The event begins a scope with this key.
abbrev pub Opens : ScopeKey → Event → Type 0
Opens k e = (opens e ≡ true) × (opened_key e ≡ k)

-- The event ends the scopes with this key.
abbrev pub Closes : ScopeKey → Event → Type 0
Closes k e = (opens e ≡ false) × (closes e ≡ true) × (closed_key e ≡ k)

-- After `b` with key `k`, no event of the list begins or ends a scope with this key.
abbrev pub IsQuiet : ScopeKey → List Event → Type 0
IsQuiet k es = All (λ e. ¬ Opens k e × ¬ Closes k e) es

-- `b` is the last event of the list that begins a scope with key `k`, and none behind it ends it.
abbrev pub IsLastOpen : ScopeKey → Event → List Event → Type 0
IsLastOpen k b es =
    (before : List Event) × (behind : List Event) × (es ≡ before ++ b ∷ behind)
    × Opens k b
    × IsQuiet k behind

track_scope-Opens :
    (k : ScopeKey) (e : Event) (d : Dict ScopeKey Event)
    → Opens k e
    → lookup ScopeKey-discrete k (track_scope e d) ≡ some e
unfolding track_scope
track_scope-Opens k e d (o, q) = rw o (
    subst (λ j. lookup ScopeKey-discrete j (insert ScopeKey-discrete (opened_key e) e d) ≡ some e) q
      (lookup-insert_self ScopeKey-discrete (opened_key e) e d))

track_scope-Closes :
    (k : ScopeKey) (e : Event) (d : Dict ScopeKey Event)
    → Closes k e
    → lookup ScopeKey-discrete k (track_scope e d) ≡ none
unfolding track_scope
track_scope-Closes k e d (o, c, q) =
    rw (o, c)
      (subst (λ j. lookup ScopeKey-discrete j (delete ScopeKey-discrete (closed_key e) d) ≡ none) q
        (lookup-delete_self ScopeKey-discrete (closed_key e) d))

track_scope-quiet :
    (k : ScopeKey) (e : Event) (d : Dict ScopeKey Event)
    → ¬ Opens k e
    → ¬ Closes k e
    → lookup ScopeKey-discrete k (track_scope e d) ≡ lookup ScopeKey-discrete k d
unfolding track_scope
track_scope-quiet k e d no_open no_close = elim (Bool-cases (opens e)) [
  | inl o ↦ rw o (lookup-insert_ne ScopeKey-discrete (opened_key e) k e d (λ q. no_open (o, q)))
  | inr o ↦ elim (Bool-cases (closes e)) [
    | inl c ↦
        rw (o, c) (lookup-delete_ne ScopeKey-discrete (closed_key e) k d (λ q. no_close (o, c, q)))
    | inr c ↦ rw (o, c)
  ]
]

-- What an event does to one key.
data Effect (k : ScopeKey) (e : Event) : Type 0 where
  begins : Opens k e → Effect k e
  ends : Closes k e → Effect k e
  quiet : ¬ Opens k e → ¬ Closes k e → Effect k e

effect : (k : ScopeKey) (e : Event) → Effect k e
effect k e = elim (Bool-cases (opens e)) [
  | inl o ↦ elim (ScopeKey-discrete (opened_key e) k) [
    | yes q ↦ begins (o, q)
    | no n ↦ quiet (λ h. n h.1) (λ h. cc)
  ]
  | inr o ↦ elim (Bool-cases (closes e)) [
    | inl c ↦ elim (ScopeKey-discrete (closed_key e) k) [
      | yes q ↦ ends (o, c, q)
      | no n ↦ quiet (λ h. cc) (λ h. n h.2)
    ]
    | inr c ↦ quiet (λ h. cc) (λ h. cc)
  ]
]

-- The scope is open after `es` from a state in which the dict is `d`.
abbrev IsOpenAfter : ScopeKey → Event → List Event → Dict ScopeKey Event → Type 0
IsOpenAfter k b es d = IsLastOpen k b es ⊎ IsQuiet k es × (lookup ScopeKey-discrete k d ≡ some b)

track : List Event → Dict ScopeKey Event → Dict ScopeKey Event
track [] d = d
track (e ∷ es) d = track es (track_scope e d)

track-IsOpenAfter :
    (k : ScopeKey) (b : Event) (es : List Event) (d : Dict ScopeKey Event)
    → (lookup ScopeKey-discrete k (track es d) ≡ some b)
    → IsOpenAfter k b es d
unfolding track
track-IsOpenAfter k b [] d h = inr (tt, h)
track-IsOpenAfter k b (e ∷ es) d h = elim (track-IsOpenAfter k b es (track_scope e d) h) [
  | inl (before, behind, q, o, s) ↦ inl (e ∷ before, behind, ap (◌∷◌ e) q, o, s)
  | inr (s, found) ↦ elim (effect k e) [
    | begins o ↦
        let same : e ≡ b = cc (track_scope-Opens k e d o) in
        inl ([], es, ap (λ x. x ∷ es) same, subst (Opens k) same o, s)
    | ends c ↦ cc (track_scope-Closes k e d c)
    | quiet o c ↦ inr (((o, c), s), sym (track_scope-quiet k e d o c) ∙ found)
  ]
]

IsOpenAfter-track :
    (k : ScopeKey) (b : Event) (es : List Event) (d : Dict ScopeKey Event)
    → IsQuiet k es
    → lookup ScopeKey-discrete k d ≡ some b
    → lookup ScopeKey-discrete k (track es d) ≡ some b
unfolding track
IsOpenAfter-track k b [] d s h = h
IsOpenAfter-track k b (e ∷ es) d s h =
    IsOpenAfter-track k b es (track_scope e d) s.1 (track_scope-quiet k e d s.0.0 s.0.1 ∙ h)

track-append :
    (es fs : List Event) (d : Dict ScopeKey Event) → track (es ++ fs) d ≡ track fs (track es d)
unfolding track
track-append [] fs d = refl
track-append (e ∷ es) fs d = track-append es fs (track_scope e d)

pending-scan_events :
    (es : List Event) (s : RankScan) → (scan_events es s).pending ≡ track es s.pending
unfolding scan_events scan_rank track
pending-scan_events [] s = refl
pending-scan_events (e ∷ es) s = pending-scan_events es (scan_rank e s)

-- After the events of a rank, `pending` holds an event `b` under a key exactly if `b` is the last
-- event with that key that begins a scope, and no event behind it ends that scope.
pub pending_iff :
    (es : List Event) (k : ScopeKey) (b : Event)
    → (lookup ScopeKey-discrete k (scan_events es fresh).pending ≡ some b) ↔ IsLastOpen k b es
unfolding track lookup
pending_iff es k b = (
  λ h. elim (track-IsOpenAfter k b es [] (rw (pending-scan_events es fresh) at h)) [
    | inl last ↦ last
    | inr (s, found) ↦ cc
  ],
  λ (before, behind, q, o, s).
      rw (pending-scan_events es fresh, q, track-append before (b ∷ behind) [])
        (IsOpenAfter-track k b behind (track_scope b (track before [])) s
          (track_scope-Opens k b (track before []) o)),
)

abbrev EndsPair : Text × Text → Type 0
EndsPair (b, n) =
    (contains Text-discrete b (keys pairs) ≡ true)
    × (contains Text-discrete n (keys pairs) ≡ false)
    × (ends_with n (codes "_END") ≡ true)
    × (replace n (codes "_END") (codes "_BEGIN") ≡ b)

pairs-EndsPair : All EndsPair pairs
unfolding contains Text-discrete ends_with replace ℕ_discrete
pairs-EndsPair = (
  (refl, refl, refl, refl),
  (
    (refl, refl, refl, refl),
    (
      (refl, refl, refl, refl),
      (
        (refl, refl, refl, refl),
        (
          (refl, refl, refl, refl),
          (
            (refl, refl, refl, refl),
            (
              (refl, refl, refl, refl),
              (
                (refl, refl, refl, refl),
                ((refl, refl, refl, refl), ((refl, refl, refl, refl), tt)),
              ),
            ),
          ),
        ),
      ),
    ),
  ),
)

-- For each pair of event types, an event of the first type begins a scope, and an event of the second
-- type with the same correlation and stream ends that scope.
pub pairs_close :
    (b n : Text) (e f : Event)
    → Memᴰ (b, n) pairs
    → e.type ≡ b
    → f.type ≡ n
    → f.correlation_id ≡ e.correlation_id
    → f.stream ≡ e.stream
    → Opens (opened_key e) e × Closes (opened_key e) f
unfolding opens closes opened_key closed_key
pairs_close b n e f m te tf corr stream =
    let p = All-mem EndsPair pairs pairs-EndsPair (b, n) m in
    (
      (rw te p.0, refl),
      (
        rw tf p.1,
        rw tf p.2,
        λ i. (
          (ap (λ t. replace t (codes "_END") (codes "_BEGIN")) tf ∙ p.3 ∙ sym te) i,
          corr i,
          stream i,
        ),
      ),
    )
