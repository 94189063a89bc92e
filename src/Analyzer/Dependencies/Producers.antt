-- ===== src/Analyzer/Dependencies/Producers.antt =====
-- Which record the scan of all ranks has for an event, told from the events of the ranks.
use mathlib.Core.List.Memᴰ
use hang_analyzer.Prelude.{
  ℕ, ◌≡◌, ◌≢◌, ◌<◌, ◌↔◌, ◌⊎◌, ⊎_elim, refl, sym, ap, subst, ◌∙◌, inl, inr, Bool-cases, Option, some,
  List, [], ◌∷◌, ◌++◌, All, All-mono, Memᴰ, mem-sort_by, HasDistinctKeys, IsStrict,
  sort_by-IsStrict, codes, text_eq, text_eq_iff, Dict, lookup, lookup-insert_self, lookup-insert_ne,
  insert, ℕ_discrete, arith,
}
use hang_analyzer.Format.{Event}
use hang_analyzer.Analyzer.Select.{RankData}
use hang_analyzer.Analyzer.Scan.{
  PairKey, PairKey-discrete, is_type, Shared, scan_shared, scan_events_shared,
}
use hang_analyzer.Analyzer.Ranks.{scan_ranks, sorted_ranks, shared_of}

-- The event is a record of this event id.
abbrev pub Records : ℕ → Event → Type 0
Records id e = (e.type ≡ codes "EVENT_RECORD") × (e.correlation_id ≡ id)

-- The last record of the event id in a list.
pub record IsLastRecord (id : ℕ) (p : Event) (es : List Event) : Type 0 where
  pub before : List Event
  pub after : List Event
  pub parts : es ≡ before ++ p ∷ after
  pub records : Records id p
  pub is_last : All (λ e. ¬ Records id e) after

-- The last record of the event id on a rank.
pub record IsProducer (ranks : Dict ℕ RankData) (rank id : ℕ) (p : Event) : Type 0 where
  pub data_of : RankData
  pub selected : Memᴰ (rank, data_of) ranks
  pub last : IsLastRecord id p data_of.events

Records-dec : (id : ℕ) (e : Event) → Dec (Records id e)
Records-dec id e = elim (Bool-cases (text_eq e.type (codes "EVENT_RECORD"))) [
  | inl q ↦ (elim (ℕ_discrete e.correlation_id id) [
    | yes same ↦ yes ((text_eq_iff e.type (codes "EVENT_RECORD")).0 q, same)
    | no other ↦ no (λ h. other h.1)
  ])
  | inr q ↦ no (λ h. cc (sym q ∙ (text_eq_iff e.type (codes "EVENT_RECORD")).1 h.0))
]

-- The record of a rank and an event.
abbrev pub record_at : ℕ → ℕ → Shared → Option Event
record_at rank id s = lookup PairKey-discrete (rank, id) s.event_producers

module _ (rank id : ℕ) where
  scan_shared-own :
      (e : Event) (s : Shared) → Records id e → record_at rank id (scan_shared rank e s) ≡ some e
  unfolding scan_shared is_type
  scan_shared-own e s h = rw ((text_eq_iff e.type (codes "EVENT_RECORD")).1 h.0) (
      subst
        (λ k.
          lookup PairKey-discrete (rank, k)
            (insert PairKey-discrete (rank, e.correlation_id) e s.event_producers)
          ≡ some e)
        h.1 (lookup-insert_self PairKey-discrete (rank, e.correlation_id) e s.event_producers))

  scan_shared-other :
      (r : ℕ) (e : Event) (s : Shared)
      → ¬ ((r ≡ rank) × Records id e)
      → record_at rank id (scan_shared r e s) ≡ record_at rank id s
  unfolding scan_shared is_type
  scan_shared-other r e s n = elim (Bool-cases (text_eq e.type (codes "EVENT_RECORD"))) [
    | inl q ↦ rw q (
        lookup-insert_ne PairKey-discrete (r, e.correlation_id) (rank, id) e s.event_producers
          (λ same. n (
            ap (λ (k : PairKey). k.0) same,
            ((text_eq_iff e.type (codes "EVENT_RECORD")).0 q, ap (λ (k : PairKey). k.1) same),
          )))
    | inr q ↦ rw q refl
  ]

  -- The events of another rank, or without a record of the event, keep what is there.
  scan_events_shared-kept :
      (r : ℕ) (es : List Event) (s : Shared)
      → (r ≢ rank) ⊎ All (λ e. ¬ Records id e) es
      → record_at rank id (scan_events_shared r es s) ≡ record_at rank id s
  unfolding scan_events_shared
  scan_events_shared-kept r [] s n = refl
  scan_events_shared-kept r (e ∷ es) s (inl n) =
      scan_events_shared-kept r es (scan_shared r e s) (inl n)
      ∙ scan_shared-other r e s (λ h. n h.0)
  scan_events_shared-kept r (e ∷ es) s (inr n) =
      scan_events_shared-kept r es (scan_shared r e s) (inr n.1)
      ∙ scan_shared-other r e s (λ h. n.0 h.1)

  scan_events_shared-found :
      (before : List Event) (p : Event) (after : List Event) (s : Shared)
      → Records id p
      → All (λ e. ¬ Records id e) after
      → record_at rank id (scan_events_shared rank (before ++ p ∷ after) s) ≡ some p
  unfolding scan_events_shared
  scan_events_shared-found [] p after s h n =
      scan_events_shared-kept rank after (scan_shared rank p s) (inr n) ∙ scan_shared-own p s h
  scan_events_shared-found (b ∷ before) p after s h n =
      scan_events_shared-found before p after (scan_shared rank b s) h n

  scan_events_shared-source :
      (es : List Event) (s : Shared) (p : Event)
      → record_at rank id (scan_events_shared rank es s) ≡ some p
      → IsLastRecord id p es ⊎ ((record_at rank id s ≡ some p) × All (λ e. ¬ Records id e) es)
  unfolding scan_events_shared
  scan_events_shared-source [] s p q = inr (q, tt)
  scan_events_shared-source (e ∷ es) s p q =
      ⊎_elim
        (λ i. inl (record {
          before = e ∷ i.before;
          after = i.after;
          parts = ap (λ l. e ∷ l) i.parts;
          records = i.records;
          is_last = i.is_last;
        }))
        (λ (k : (record_at rank id (scan_shared rank e s) ≡ some p) × All (λ e. ¬ Records id e) es).
          elim (Records-dec id e) [
            | yes h ↦
                let same : e ≡ p = cc (sym (scan_shared-own e s h) ∙ k.0) in
                inl (record {
                  before = [];
                  after = es;
                  parts = ap (λ x. x ∷ es) same;
                  records = subst (Records id) same h;
                  is_last = k.1;
                })
            | no n ↦ inr (sym (scan_shared-other rank e s (λ h. n h.1)) ∙ k.0, (n, k.1))
          ])
        (scan_events_shared-source es (scan_shared rank e s) p q)

  scan_ranks-kept :
      (ranks : Dict ℕ RankData) (s : Shared)
      → All (λ e. e.0 ≢ rank) ranks
      → record_at rank id (scan_ranks ranks s) ≡ record_at rank id s
  unfolding scan_ranks
  scan_ranks-kept [] s n = refl
  scan_ranks-kept ((r, d) ∷ ranks) s n =
      scan_ranks-kept ranks (scan_events_shared r d.events s) n.1
      ∙ scan_events_shared-kept r d.events s (inl n.0)

  scan_ranks-source :
      (ranks : Dict ℕ RankData) (s : Shared) (p : Event)
      → record_at rank id (scan_ranks ranks s) ≡ some p
      → IsProducer ranks rank id p ⊎ (record_at rank id s ≡ some p)
  unfolding scan_ranks
  scan_ranks-source [] s p q = inr q
  scan_ranks-source ((r, d) ∷ ranks) s p q =
      ⊎_elim
        (λ i. inl (record { data_of = i.data_of; selected = Memᴰ.tail i.selected; last = i.last }))
        (λ k. elim (ℕ_discrete r rank) [
          | yes same ↦
              ⊎_elim
                (λ l. inl (record {
                  data_of = d;
                  selected = Memᴰ.head (ap (λ x. (x, d)) (sym same));
                  last = l;
                }))
                (λ o. inr o.0)
                (scan_events_shared-source d.events s p (
                  subst (λ x. record_at rank id (scan_events_shared x d.events s) ≡ some p) same k))
          | no other ↦ inr (sym (scan_events_shared-kept r d.events s (inl other)) ∙ k)
        ])
        (scan_ranks-source ranks (scan_events_shared r d.events s) p q)

  scan_ranks-found :
      (ranks : Dict ℕ RankData) (s : Shared) (p : Event)
      → IsStrict (λ (e : ℕ × RankData). e.0) ranks
      → IsProducer ranks rank id p
      → record_at rank id (scan_ranks ranks s) ≡ some p
  unfolding scan_ranks
  scan_ranks-found [] s p o i = absurd (Memᴰ.not-nil i.selected)
  scan_ranks-found ((r, d) ∷ ranks) s p o i =
      ⊎_elim
        (λ q.
          let same : rank ≡ r = ap (λ (x : ℕ × RankData). x.0) q in
          let l = i.last in
          let parts : d.events ≡ l.before ++ p ∷ l.after =
            ap (λ (x : ℕ × RankData). x.1.events) (sym q) ∙ l.parts in
          scan_ranks-kept ranks (scan_events_shared r d.events s)
            (All-mono (λ e. r < e.0) (λ e. e.0 ≢ rank) ranks (λ e lt. omega (arith, lt, same)) o.0)
          ∙ ap (λ x. record_at rank id (scan_events_shared x d.events s)) (sym same)
          ∙ ap (λ es. record_at rank id (scan_events_shared rank es s)) parts
          ∙ scan_events_shared-found l.before p l.after s l.records l.is_last)
        (λ t.
          scan_ranks-found ranks (scan_events_shared r d.events s) p o.1
            (record { data_of = i.data_of; selected = t; last = i.last }))
        (Memᴰ.cases_cons i.selected)

  -- If no two files are of one rank, the scan has the last record of each event on each rank, and no other.
  pub producers_iff :
      (ranks : Dict ℕ RankData) (p : Event)
      → HasDistinctKeys (λ (e : ℕ × RankData). e.0) ranks
      → (record_at rank id (shared_of ranks) ≡ some p) ↔ IsProducer ranks rank id p
  unfolding lookup
  producers_iff ranks p distinct =
      let empty : Shared = record { groups = []; event_producers = []; waits = [] } in
      let same = λ (d : RankData). mem-sort_by (λ (e : ℕ × RankData). e.0) (rank, d) ranks in
      (
        λ q.
            ⊎_elim
              (λ i. record {
                data_of = i.data_of;
                selected = (same i.data_of).0 i.selected;
                last = i.last;
              })
              (λ n. cc n) (scan_ranks-source (sorted_ranks ranks) empty p q),
        λ i.
            scan_ranks-found (sorted_ranks ranks) empty p
              (sort_by-IsStrict (λ (e : ℕ × RankData). e.0) ranks distinct)
              (record {
                data_of = i.data_of;
                selected = (same i.data_of).1 i.selected;
                last = i.last;
              }),
      )
