-- ===== src/Analyzer/Dependencies/Shared.antt =====
-- What the scan of all ranks keeps of their waits and records, told from the events of the ranks.
use mathlib.Core.List.Memᴰ
use hang_analyzer.Prelude.{
  ℕ, ◌≡◌, ◌↔◌, ◌⊎◌, ⊎_elim, refl, sym, ap, subst, ◌∙◌, inl, inr, Bool-cases, List, [], ◌∷◌, ◌++◌,
  Memᴰ, Memᴰ-append, mem-sort_by, codes, text_eq, text_eq_iff, Dict, arith,
}
use hang_analyzer.Format.{Event}
use hang_analyzer.Analyzer.Select.{RankData}
use hang_analyzer.Analyzer.Scan.{is_type, Shared, scan_shared, scan_events_shared}
use hang_analyzer.Analyzer.Ranks.{scan_ranks, sorted_ranks, shared_of}

-- The event is a wait.
abbrev pub Waits : Event → Type 0
Waits e = e.type ≡ codes "EVENT_WAIT"

-- One of the ranks has this wait among its events.
pub record IsWaitOf (ranks : Dict ℕ RankData) (w : Event) : Type 0 where
  pub rank : ℕ
  pub data_of : RankData
  pub selected : Memᴰ (rank, data_of) ranks
  pub comes : Memᴰ w data_of.events
  pub waits : Waits w

scan_events_shared-waits :
    (r : ℕ) (es : List Event) (s : Shared) (w : Event)
    → Memᴰ w (scan_events_shared r es s).waits ↔ ((Memᴰ w es × Waits w) ⊎ Memᴰ w s.waits)
unfolding scan_events_shared scan_shared is_type
scan_events_shared-waits r [] s w = (inr, ⊎_elim (λ m. absurd (Memᴰ.not-nil m.0)) (λ m. m))
scan_events_shared-waits r (e ∷ es) s w =
    let later = scan_events_shared-waits r es (scan_shared r e s) w in
    elim (Bool-cases (text_eq e.type (codes "EVENT_WAIT"))) [
      | inl q ↦
          let own : Waits e = (text_eq_iff e.type (codes "EVENT_WAIT")).0 q in
          let now : (scan_shared r e s).waits ≡ s.waits ++ e ∷ [] = rw q refl in
          (
            λ m.
                ⊎_elim (λ k. inl (Memᴰ.tail k.0, k.1))
                  (λ n.
                    ⊎_elim inr
                      (λ k.
                        ⊎_elim (λ i. inl (Memᴰ.head i, ap (λ (x : Event). x.type) i ∙ own))
                          (λ t. absurd (Memᴰ.not-nil t)) (Memᴰ.cases_cons k))
                      ((Memᴰ-append w s.waits (e ∷ [])).0 (subst (Memᴰ w) now n)))
                  (later.0 m),
            ⊎_elim
                (λ k.
                  ⊎_elim
                    (λ i. later.1 (
                      inr (
                        subst (Memᴰ w) (sym now)
                          ((Memᴰ-append w s.waits (e ∷ [])).1 (inr (Memᴰ.head i))))))
                    (λ t. later.1 (inl (t, k.1))) (Memᴰ.cases_cons k.0))
                (λ n.
                  later.1
                    (inr (subst (Memᴰ w) (sym now) ((Memᴰ-append w s.waits (e ∷ [])).1 (inl n))))),
          )
      | inr q ↦
          let now : (scan_shared r e s).waits ≡ s.waits = rw q refl in
          (
            λ m.
                ⊎_elim (λ k. inl (Memᴰ.tail k.0, k.1)) (λ n. inr (subst (Memᴰ w) now n))
                  (later.0 m),
            ⊎_elim
                (λ k.
                  ⊎_elim
                    (λ i. cc (
                      sym q
                      ∙ (text_eq_iff e.type (codes "EVENT_WAIT")).1
                          (ap (λ (x : Event). x.type) (sym i) ∙ k.1)))
                    (λ t. later.1 (inl (t, k.1))) (Memᴰ.cases_cons k.0))
                (λ n. later.1 (inr (subst (Memᴰ w) (sym now) n))),
          )
    ]

IsWaitOf-cons :
    (r : ℕ) (d : RankData) (ranks : Dict ℕ RankData) (w : Event)
    → IsWaitOf ((r, d) ∷ ranks) w ↔ ((Memᴰ w d.events × Waits w) ⊎ IsWaitOf ranks w)
IsWaitOf-cons r d ranks w = (
  λ i.
      ⊎_elim (λ q. inl (subst (λ (x : ℕ × RankData). Memᴰ w x.1.events) q i.comes, i.waits))
        (λ t. inr (record {
          rank = i.rank;
          data_of = i.data_of;
          selected = t;
          comes = i.comes;
          waits = i.waits;
        }))
        (Memᴰ.cases_cons i.selected),
  ⊎_elim
      (λ k. record { rank = r; data_of = d; selected = Memᴰ.head refl; comes = k.0; waits = k.1 })
      (λ i. record {
        rank = i.rank;
        data_of = i.data_of;
        selected = Memᴰ.tail i.selected;
        comes = i.comes;
        waits = i.waits;
      }),
)

scan_ranks-waits :
    (ranks : Dict ℕ RankData) (s : Shared) (w : Event)
    → Memᴰ w (scan_ranks ranks s).waits ↔ (IsWaitOf ranks w ⊎ Memᴰ w s.waits)
unfolding scan_ranks
scan_ranks-waits [] s w = (inr, ⊎_elim (λ i. absurd (Memᴰ.not-nil i.selected)) (λ m. m))
scan_ranks-waits ((r, d) ∷ ranks) s w = ground (
  arith,
  scan_ranks-waits ranks (scan_events_shared r d.events s) w,
  scan_events_shared-waits r d.events s w,
  IsWaitOf-cons r d ranks w,
)

-- The scan keeps exactly the waits of the ranks.
pub waits_iff :
    (ranks : Dict ℕ RankData) (w : Event) → Memᴰ w (shared_of ranks).waits ↔ IsWaitOf ranks w
waits_iff ranks w =
    let h =
      scan_ranks-waits (sorted_ranks ranks)
        (record { groups = []; event_producers = []; waits = [] }) w in
    (
      λ m.
          ⊎_elim
            (λ i. record {
              rank = i.rank;
              data_of = i.data_of;
              selected =
                  (mem-sort_by (λ (e : ℕ × RankData). e.0) (i.rank, i.data_of) ranks).0 i.selected;
              comes = i.comes;
              waits = i.waits;
            })
            (λ n. absurd (Memᴰ.not-nil n)) (h.0 m),
      λ i. h.1 (
          inl (record {
            rank = i.rank;
            data_of = i.data_of;
            selected =
                (mem-sort_by (λ (e : ℕ × RankData). e.0) (i.rank, i.data_of) ranks).1 i.selected;
            comes = i.comes;
            waits = i.waits;
          })),
    )
