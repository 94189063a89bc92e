-- ===== src/Outputs/Full/Merged.antt =====
-- What the events of a rank are once all files have been merged.
use hang_analyzer.Prelude.{
  ℕ, ◌==◌, ◌≡◌, ◌↔◌, ⊎_elim, refl, sym, ap, subst, ◌∙◌, inl, inr, true, false, ◌&&◌, Bool-cases,
  Option, none, some, List, [], ◌∷◌, if◌then◌else◌, All, Memᴰ, IsStrict, Dict, lookup,
  lookup-insert_self, lookup-insert_ne, insert, ℕ_discrete, arith,
}
use hang_analyzer.Prelude.Result.{ok, err, os_error, value_error, struct_error, ◌>>=◌}
use hang_analyzer.Format.{Header, Event}
use hang_analyzer.Format.Errors.{IsCaught}
use hang_analyzer.Analyzer.Select.{Read}
use hang_analyzer.Analyzer.Report.{RankReport}
use hang_analyzer.Outputs.Full.{events_at, merge_events, accepts, merge_path, merge_paths}
use hang_analyzer.Outputs.Full.Keyed.{number}
use hang_analyzer.Outputs.Full.Listing.{
  latest, latest-source, latest-mem, IsListing, merge_events-IsListing,
}

-- The event with the number that the accepted files of a rank have last.
unfoldable pub last_written : Dict ℕ RankReport → ℕ → ℕ → List Read → Option Event → Option Event
unfolding latest
last_written ranks rank n [] o = o
last_written ranks rank n (ok (h, events) ∷ rs) o =
    last_written ranks rank n rs
      (if accepts ranks h && h.rank == rank then latest n events o else o)
last_written ranks rank n (err e ∷ rs) o = last_written ranks rank n rs o

insert-IsListing :
    (ranks : Dict ℕ RankReport) (h : Header) (events : List Event) (full : Dict ℕ (List Event))
    (rank : ℕ) (o : ℕ → Option Event)
    → accepts ranks h ≡ true
    → IsListing (events_at rank full) o
    → IsListing
        (events_at rank
          (insert ℕ_discrete h.rank (merge_events (events_at h.rank full) events) full))
        (λ n. last_written ranks rank n (ok (h, events) ∷ []) (o n))
unfolding last_written events_at
insert-IsListing ranks h events full rank o a l =
    let merged = merge_events (events_at h.rank full) events in
    elim (ℕ_discrete h.rank rank) [
      | yes p ↦
          let here : (h.rank == rank) ≡ true = ground (arith, p) in
          rw (a, here)
            (subst (λ es. IsListing es (λ n. latest n events (o n)))
              (ap of_option (sym (lookup-insert_self ℕ_discrete h.rank merged full))
                ∙ ap (λ k. events_at k (insert ℕ_discrete h.rank merged full)) p)
              (merge_events-IsListing (events_at h.rank full) events o
                (subst (λ k. IsListing (events_at k full) o) (sym p) l)))
      | no q ↦
          let away : (h.rank == rank) ≡ false = ground (arith, q) in
          rw (a, away)
            (subst (λ es. IsListing es o)
              (ap of_option (sym (lookup-insert_ne ℕ_discrete h.rank rank merged full q))) l)
    ]
  where
    of_option : Option (List Event) → List Event
    of_option x = elim x [ none ↦ [] | some es ↦ es ]

skip-IsListing :
    (ranks : Dict ℕ RankReport) (h : Header) (events : List Event) (es : List Event) (rank : ℕ)
    (o : ℕ → Option Event)
    → accepts ranks h ≡ false
    → IsListing es o
    → IsListing es (λ n. last_written ranks rank n (ok (h, events) ∷ []) (o n))
unfolding last_written
skip-IsListing ranks h events es rank o a l = rw a l

-- What one more file makes of all events.
record Merges (ranks : Dict ℕ RankReport) (reads : List Read) (full full' : Dict ℕ (List Event))
    : Type 0 where
  lists :
      (rank : ℕ) (o : ℕ → Option Event)
      → IsListing (events_at rank full) o
      → IsListing (events_at rank full') (λ n. last_written ranks rank n reads (o n))

merge_path-Merges :
    (ranks : Dict ℕ RankReport) (read : Read) (full : Dict ℕ (List Event))
    → IsCaught read
    → (full' : Dict ℕ (List Event)) × (merge_path ranks read full ≡ ok full')
      × Merges ranks (read ∷ []) full full'
unfolding merge_path last_written
merge_path-Merges ranks (ok (h, events)) full c = elim (Bool-cases (accepts ranks h)) [
  | inl a ↦ (
    insert ℕ_discrete h.rank (merge_events (events_at h.rank full) events) full,
    rw a refl,
    record { lists = λ rank o l. insert-IsListing ranks h events full rank o a l },
  )
  | inr a ↦ (
    full,
    rw a refl,
    record { lists = λ rank o l. skip-IsListing ranks h events (events_at rank full) rank o a l },
  )
]
merge_path-Merges ranks (err (os_error m)) full c = (full, refl, record { lists = λ rank o l. l })
merge_path-Merges ranks (err (value_error m)) full c =
    (full, refl, record { lists = λ rank o l. l })
merge_path-Merges ranks (err struct_error) full c = absurd c

last_written-cons :
    (ranks : Dict ℕ RankReport) (rank n : ℕ) (r : Read) (rs : List Read) (o : Option Event)
    → last_written ranks rank n rs (last_written ranks rank n (r ∷ []) o)
      ≡ last_written ranks rank n (r ∷ rs) o
unfolding last_written
last_written-cons ranks rank n (ok (h, events)) rs o = refl
last_written-cons ranks rank n (err e) rs o = refl

merge_paths-Merges :
    (ranks : Dict ℕ RankReport) (reads : List Read) (full : Dict ℕ (List Event))
    → All IsCaught reads
    → (full' : Dict ℕ (List Event)) × (merge_paths ranks reads full ≡ ok full')
      × Merges ranks reads full full'
unfolding merge_paths last_written
merge_paths-Merges ranks [] full c = (full, refl, record { lists = λ rank o l. l })
merge_paths-Merges ranks (r ∷ rs) full c =
    let (mid, one, m) = merge_path-Merges ranks r full c.0 in
    let (last, rest, n) = merge_paths-Merges ranks rs mid c.1 in
    (
      last,
      ap (λ x. x >>= merge_paths ranks rs) one ∙ rest,
      record {
        lists = λ rank o l.
            subst (IsListing (events_at rank last))
              (λ k n. last_written-cons ranks rank n r rs (o n) k)
              (n.lists rank _ (m.lists rank o l));
      },
    )

-- If the files raise only what is caught, the merge returns, and the events of each rank are in strictly
-- ascending order and exactly those that the accepted files of that rank have last under their
-- number: of two events with one number the later file's stands.
pub merge_paths-lists :
    (ranks : Dict ℕ RankReport) (reads : List Read)
    → All IsCaught reads
    → (full : Dict ℕ (List Event)) × (merge_paths ranks reads [] ≡ ok full)
      × ((rank : ℕ)
          → IsStrict number (events_at rank full)
            × ((e : Event)
                → Memᴰ e (events_at rank full)
                  ↔ (last_written ranks rank e.seq reads none ≡ some e)))
unfolding latest events_at lookup
merge_paths-lists ranks reads c =
    let (full, runs, m) = merge_paths-Merges ranks reads [] c in
    (
      full,
      runs,
      λ rank.
          listed full rank
            (m.lists rank (λ _. none) (record { ascending = tt; finds = λ n. refl })),
    )
  where
    listed :
        (full : Dict ℕ (List Event)) (rank : ℕ)
        → IsListing (events_at rank full) (λ n. last_written ranks rank n reads none)
        → IsStrict number (events_at rank full)
          × ((e : Event)
              → Memᴰ e (events_at rank full) ↔ (last_written ranks rank e.seq reads none ≡ some e))
    listed full rank l = (
      l.ascending,
      λ e. (
        λ m. sym (l.finds e.seq) ∙ latest-mem e (events_at rank full) none l.ascending m,
        λ q.
            ⊎_elim (λ m. m.0) (λ h. cc h)
              (latest-source e.seq (events_at rank full) none {e = e} (l.finds e.seq ∙ q)),
      ),
    )
