-- ===== src/Analyzer/Report/Coverage.antt =====
-- When a rank has a coverage warning.
use mathlib.Core.Option
use mathlib.Core.List.{get_last?}
use mathlib.Core.List.Memᴰ
use hang_analyzer.Prelude.{
  ℕ, ◌≡◌, ◌≢◌, ◌↔◌, refl, sym, ap, subst, ◌∙◌, ⊎_elim, inl, inr, true, Bool-cases, ◌==◌, some, List,
  [], ◌∷◌, All, All-mem, mem-All, List-cases, mem-sort_by, mem-passing, ==_iff, Memᴰ, Given,
  Given-bind, Given-any, passing, sort_by, codes, text_eq_iff, Dict, keys, values, lookup,
  lookup-mem, HasKeysOnce, insert-HasKeysOnce, ℕ_discrete, ◌>>=◌, arith,
}
use hang_analyzer.Format.{Event}
use hang_analyzer.Analyzer.Select.{RankData}
use hang_analyzer.Analyzer.Scan.{is_type, fresh, scan_events}
use hang_analyzer.Analyzer.Scan.Collected.{is_confirmation, is_submission, scan_events-collects}
use hang_analyzer.Analyzer.Progress.{
  CheckpointKey, Progress, by_stream, exact_confirmations, progress_upto, stream_progress,
  progress_of, device_progress,
}
use hang_analyzer.Analyzer.Progress.Grouped.{submissions_of, device_progress-stream}
use hang_analyzer.Analyzer.Progress.Settled.{cons_last, LastConfirmed, unconfirmed_iff}
use hang_analyzer.Analyzer.Report.{
  RankReport, rank_report, report_of, any_device_sync, all_confirmed, coverage_warning,
}
use hang_analyzer.Analyzer.Report.Total.{device_progress_returns}

-- A scope of a synchronisation is among the events.
abbrev pub SomeSync : List Event → Type 0
SomeSync es = (e : Event) × Memᴰ e es × (e.type ≡ codes "DEVICE_SYNC_BEGIN")

any_device_sync_iff : (es : List Event) → (any_device_sync es ≡ true) ↔ SomeSync es
unfolding any_device_sync is_type
any_device_sync_iff [] = (λ h. cc, λ (e, m, _). absurd (Memᴰ.not-nil m))
any_device_sync_iff (x ∷ es) = (
  λ h. elim (Bool-cases (is_type (codes "DEVICE_SYNC_BEGIN") x)) [
    | inl q ↦ (x, Memᴰ.head refl, (text_eq_iff x.type (codes "DEVICE_SYNC_BEGIN")).0 q)
    | inr q ↦
        let (e, m, t) = (any_device_sync_iff es).0 (sym (rw q refl) ∙ h) in (e, Memᴰ.tail m, t)
  ],
  λ (e, m, t). elim (Bool-cases (is_type (codes "DEVICE_SYNC_BEGIN") x)) [
    | inl q ↦ rw q refl
    | inr q ↦
        ⊎_elim
          (λ here. cc (
            sym q
            ∙ (text_eq_iff x.type (codes "DEVICE_SYNC_BEGIN")).1
                (ap (λ (y : Event). y.type) (sym here) ∙ t)))
          (λ there. rw q ((any_device_sync_iff es).1 (e, there, t))) (Memᴰ.cases_cons m)
  ],
)

all_confirmed_iff :
    (ps : List Progress) → (all_confirmed ps ≡ true) ↔ All (λ p. p.unconfirmed_count ≡ 0) ps
unfolding all_confirmed
all_confirmed_iff [] = (λ _. tt, λ _. refl)
all_confirmed_iff (p ∷ ps) = ground (arith, all_confirmed_iff ps)

coverage_warning_iff :
    (scopes : List Event) (ps : List Progress)
    → (coverage_warning scopes ps ≡ true)
      ↔ (SomeSync scopes × (ps ≢ []) × All (λ p. p.unconfirmed_count ≡ 0) ps)
unfolding coverage_warning
coverage_warning_iff scopes [] = (λ h. cc, λ (_, n, _). absurd (n refl))
coverage_warning_iff scopes (p ∷ ps) = elim (Bool-cases (any_device_sync scopes)) [
  | inl q ↦ (
    λ h. (
      (any_device_sync_iff scopes).0 q,
      λ e. cc,
      (all_confirmed_iff (p ∷ ps)).0 (ground (arith, q, h)),
    ),
    λ (_, _, a). rw q ((all_confirmed_iff (p ∷ ps)).1 a),
  )
  | inr q ↦ (
    λ h. absurd (ground (arith, q, h)),
    λ (s, _, _). cc (sym q ∙ (any_device_sync_iff scopes).1 s),
  )
]

-- The keys of the progress of a rank are its streams, each once.
by_stream-HasKeysOnce :
    (es : List Event) (d : Dict ℕ (List Event))
    → HasKeysOnce ℕ_discrete d
    → HasKeysOnce ℕ_discrete (by_stream es d)
unfolding by_stream
by_stream-HasKeysOnce [] d h = h
by_stream-HasKeysOnce (e ∷ es) d h =
    by_stream-HasKeysOnce es _ (insert-HasKeysOnce ℕ_discrete e.stream _ d h)

module _ (exact : Dict CheckpointKey Event) (not_ready : List Event) where
  progress_of-keys :
      (d : Dict ℕ (List Event)) → Given (λ ps. keys ps ≡ keys d) (progress_of exact not_ready d)
  unfolding progress_of Given stream_progress sort_by
  progress_of-keys [] = refl
  progress_of-keys ((j, l) ∷ d) =
      let o = stream_progress exact not_ready (sort_by (λ (e : Event). e.seq) l) in
      Given-bind (λ _. Unit) (λ ps. keys ps ≡ j ∷ keys d) o
        (λ p. do ps ← progress_of exact not_ready d; some ((j, p) ∷ ps)) (Given-any o)
        (λ p _.
          Given-bind (λ ps. keys ps ≡ keys d) (λ ps. keys ps ≡ j ∷ keys d)
            (progress_of exact not_ready d) (λ ps. some ((j, p) ∷ ps)) (progress_of-keys d)
            (λ ps same. ap (λ ks. j ∷ ks) same))

keys-HasKeysOnce :
    {V W : Type 0} (d : Dict ℕ V) (d' : Dict ℕ W)
    → keys d ≡ keys d'
    → HasKeysOnce ℕ_discrete d'
    → HasKeysOnce ℕ_discrete d
keys-HasKeysOnce [] d' q h = tt
keys-HasKeysOnce ((j, v) ∷ d) [] q h = cc
keys-HasKeysOnce ((j, v) ∷ d) ((k, w) ∷ d') q h = (
  λ m. h.0 (subst (λ i. Memᴰ i (keys d')) (cc q) (subst (Memᴰ j) (cc q) m)),
  keys-HasKeysOnce d d' (cc q) h.1,
)

-- The values of a dict with each key once are what `get` finds.
find_value :
    (p : Progress) (d : Dict ℕ Progress)
    → HasKeysOnce ℕ_discrete d
    → Memᴰ p (values d)
    → (k : ℕ) × (lookup ℕ_discrete k d ≡ some p)
unfolding lookup
find_value p [] h m = absurd (Memᴰ.not-nil m)
find_value p ((j, q) ∷ d) h m =
    ⊎_elim (λ here. (j, ground (arith, here)))
      (λ there.
        let (k, found) = find_value p d h.1 there in
        elim (ℕ_discrete j k) [
          | yes same ↦
              absurd
                (h.0 (subst (λ i. Memᴰ i (keys d)) (sym same) (lookup-mem ℕ_discrete k p d found)))
          | no other ↦ (k, ground (arith, other, found))
        ])
      (Memᴰ.cases_cons m)

found_value :
    (k : ℕ) (p : Progress) (d : Dict ℕ Progress)
    → lookup ℕ_discrete k d ≡ some p
    → Memᴰ p (values d)
unfolding lookup
found_value k p [] q = cc
found_value k p ((j, r) ∷ d) q = elim (ℕ_discrete j k) [
  | yes same ↦ Memᴰ.head (ground (arith, same, q))
  | no other ↦ Memᴰ.tail (found_value k p d (ground (arith, other, q)))
]

-- The checkpoints of a stream, sorted by their numbers.
abbrev pub checkpoints_of : ℕ → List Event → List Event
checkpoints_of stream submitted = sort_by (λ (e : Event). e.seq) (submissions_of stream submitted)

has_checkpoint :
    (e : Event) (submitted : List Event)
    → Memᴰ e submitted
    → (last : Event) × (get_last? (checkpoints_of e.stream submitted) ≡ some last)
has_checkpoint e submitted m =
    let here : Memᴰ e (checkpoints_of e.stream submitted) =
      (mem-sort_by (λ (x : Event). x.seq) e (submissions_of e.stream submitted)).1 (
        (mem-passing (λ x. x.stream == e.stream) e submitted).1
          (m, (==_iff e.stream e.stream).1 refl)) in
    elim (List-cases (checkpoints_of e.stream submitted)) [
      | inl none_there ↦ absurd (Memᴰ.not-nil (subst (Memᴰ e) none_there here))
      | inr (x, xs, eq) ↦ let (l, found) = cons_last x xs in (l, ap get_last? eq ∙ found)
    ]

module _ (confirmed submitted not_ready : List Event) {ps : Dict ℕ Progress}
    (computed : device_progress confirmed submitted not_ready ≡ some ps) where
  abbrev exact : Dict CheckpointKey Event
  exact = exact_confirmations confirmed

  progress-HasKeysOnce : HasKeysOnce ℕ_discrete ps
  unfolding device_progress Given
  progress-HasKeysOnce =
      keys-HasKeysOnce ps (by_stream submitted [])
        (subst (Given (λ ps. keys ps ≡ keys (by_stream submitted []))) computed
          (progress_of-keys exact not_ready (by_stream submitted [])))
        (by_stream-HasKeysOnce submitted [] tt)

  -- A stream with a checkpoint has a progress.
  stream-found :
      (stream : ℕ) (last : Event)
      → get_last? (checkpoints_of stream submitted) ≡ some last
      → (p : Progress) × (lookup ℕ_discrete stream ps ≡ some p)
  unfolding stream_progress
  stream-found stream last found = (
    progress_upto exact not_ready (checkpoints_of stream submitted) last,
    device_progress-stream confirmed submitted not_ready stream computed
        ∙ ap (Option.map (progress_upto exact not_ready (checkpoints_of stream submitted))) found,
  )

  -- The rows of all streams.
  none_left :
      All (λ p. p.unconfirmed_count ≡ 0) (values ps)
      ↔ ((stream : ℕ) → LastConfirmed exact (checkpoints_of stream submitted))
  none_left = (
    λ a stream last found.
        let (p, there) = stream-found stream last found in
        (unconfirmed_iff exact not_ready (checkpoints_of stream submitted)
            (sym (device_progress-stream confirmed submitted not_ready stream computed) ∙ there)).0
          (All-mem (λ q. q.unconfirmed_count ≡ 0) (values ps) a p (found_value stream p ps there))
          last found,
    λ each.
        mem-All (λ p. p.unconfirmed_count ≡ 0) (values ps)
          (λ p m.
            let (stream, there) = find_value p ps progress-HasKeysOnce m in
            (unconfirmed_iff exact not_ready (checkpoints_of stream submitted) (
                sym (device_progress-stream confirmed submitted not_ready stream computed)
                ∙ there)).1
              (each stream)),
  )

  some_progress : (values ps ≢ []) ↔ (submitted ≢ [])
  unfolding device_progress by_stream progress_of lookup
  some_progress = (
    λ n empty.
        let e = subst (λ l. device_progress confirmed l not_ready ≡ some ps) empty computed in
        n (ap values (sym (some_same e))),
    λ n empty. elim (List-cases submitted) [
      | inl q ↦ n q
      | inr (e, es, eq) ↦
          let (last, found) =
            has_checkpoint e submitted (subst (Memᴰ e) (sym eq) (Memᴰ.head refl)) in
          let (p, there) = stream-found e.stream last found in
          Memᴰ.not-nil (subst (Memᴰ p) empty (found_value e.stream p ps there))
    ],
  )
    where
      some_same : {qs : Dict ℕ Progress} → some [] ≡ some qs → [] ≡ qs
      some_same q = cc q

  progress-coverage :
      (scopes : List Event)
      → (coverage_warning scopes (values ps) ≡ true) ↔ (
          SomeSync scopes
          × (submitted ≢ [])
          × ((stream : ℕ) → LastConfirmed exact (checkpoints_of stream submitted)))
  progress-coverage scopes = (
    λ h.
        let (sync, some_there, settled) = (coverage_warning_iff scopes (values ps)).0 h in
        (sync, some_progress.0 some_there, none_left.0 settled),
    λ (sync, some_there, settled).
        (coverage_warning_iff scopes (values ps)).1
          (sync, some_progress.1 some_there, none_left.1 settled),
  )

-- Each rank has a report. It warns that its checkpoints do not cover the blocked work if and only if
-- a synchronisation of the device is outstanding, a checkpoint has been submitted, and on each stream
-- the last submitted checkpoint by number, if there is one, is exactly confirmed.
pub rank_report-coverage_warning :
    (d : RankData)
    → (r : RankReport) × (rank_report d ≡ some r)
      × ((r.checkpoint_coverage_warning ≡ true) ↔ (
          SomeSync r.outstanding_host_scopes
          × (passing is_submission d.events ≢ [])
          × ((stream : ℕ)
              → LastConfirmed
                  (exact_confirmations (passing is_confirmation d.events))
                  (checkpoints_of stream (passing is_submission d.events)))))
unfolding rank_report report_of
rank_report-coverage_warning d =
    let s = scan_events d.events fresh in
    let (confirmed, submitted, _, _) = scan_events-collects d.events in
    let (ps, computed) =
      device_progress_returns (passing is_confirmation d.events) (passing is_submission d.events)
        s.not_ready_observations in
    (
      report_of d s ps,
      rw (rank_report, confirmed, submitted, computed) refl,
      progress-coverage (passing is_confirmation d.events) (passing is_submission d.events)
          s.not_ready_observations computed (values s.pending),
    )
