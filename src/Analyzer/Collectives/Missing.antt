-- ===== src/Analyzer/Collectives/Missing.antt =====
-- The ranks that are reported as missing from a collective.
use mathlib.Core.List.Memᴰ
use mathlib.Core.Logic.Iff
use hang_analyzer.Prelude.{
  ℕ, ap, subst, not, ◌⊎◌, inl, inr, ⊎_elim, ◌↔◌, some, List, [], ◌∷◌, Memᴰ, mem-passing,
  mem-sort_by, passing, contains, contains_iff, Bool-cases, Dict, keys, lookup, ℕ_discrete,
}
use hang_analyzer.Analyzer.Select.{RankData}
use hang_analyzer.Analyzer.Scan.{PairKey, Shared, group_of, scan_events_shared}
use hang_analyzer.Analyzer.Scan.Groups.{EnteredIn, entered, scan_events_shared-entered}
use hang_analyzer.Analyzer.Collectives.{missing}
use hang_analyzer.Analyzer.Ranks.{scan_ranks, sorted_ranks, shared_of}

-- The events of the rank that were kept have a begin of this collective.
abbrev pub HasEntered : PairKey → Dict ℕ RankData → ℕ → Type 0
HasEntered key ranks r = (d : RankData) × Memᴰ (r, d) ranks × EnteredIn key d.events

scan_ranks-entered :
    (key : PairKey) (r : ℕ) (ranks : Dict ℕ RankData) (s : Shared)
    → Memᴰ r (entered key (scan_ranks ranks s)) ↔ (HasEntered key ranks r ⊎ Memᴰ r (entered key s))
unfolding scan_ranks
scan_ranks-entered key r [] s = (inr, ⊎_elim (λ k. absurd (Memᴰ.not-nil k.1)) (λ m. m))
scan_ranks-entered key r ((rank, d) ∷ rest) s =
    let now = scan_events_shared-entered key rank r d.events s in
    let later = scan_ranks-entered key r rest (scan_events_shared rank d.events s) in
    (
      λ m.
          ⊎_elim (λ k. inl (k.0, Memᴰ.tail k.1, k.2))
            (λ n. ⊎_elim (λ k. inl (d, Memᴰ.head (λ i. (k.0 i, d)), k.1)) inr (now.0 n))
            (later.0 m),
      ⊎_elim
          (λ k.
            ⊎_elim
              (λ same. later.1 (
                inr (
                  now.1 (
                    inl (
                      ap (λ (x : ℕ × RankData). x.0) same,
                      subst (λ (x : RankData). EnteredIn key x.events)
                          (ap (λ (x : ℕ × RankData). x.1) same) k.2,
                    )))))
              (λ t. later.1 (inl (k.0, t, k.2))) (Memᴰ.cases_cons k.1))
          (λ n. later.1 (inr (now.1 (inr n)))),
    )

-- After the scan of all ranks, the entered ranks of a collective are those with a begin of it.
pub entered_iff :
    (key : PairKey) (r : ℕ) (ranks : Dict ℕ RankData)
    → Memᴰ r (entered key (shared_of ranks)) ↔ HasEntered key ranks r
unfolding group_of lookup
entered_iff key r ranks =
    let h =
      scan_ranks-entered key r (sorted_ranks ranks)
        (record { groups = []; event_producers = []; waits = [] }) in
    let same = λ (d : RankData). mem-sort_by (λ (e : ℕ × RankData). e.0) (r, d) ranks in
    (
      λ m. ⊎_elim (λ k. (k.0, (same k.0).0 k.1, k.2)) (λ n. absurd (Memᴰ.not-nil n)) (h.0 m),
      λ (d, m, e). h.1 (inl (d, (same d).1 m, e)),
    )

-- With expected ranks, a rank is reported as missing from a collective if and only if it is expected
-- and none of the events kept for it begins that collective.
pub missing_iff :
    (key : PairKey) (r : ℕ) (expected : List ℕ) (ranks : Dict ℕ RankData)
    → Memᴰ r (missing (some expected) (group_of key (shared_of ranks).groups))
      ↔ (Memᴰ r expected × ¬ HasEntered key ranks r)
unfolding missing
missing_iff key r expected ranks =
    let group = group_of key (shared_of ranks).groups in
    let absent = λ (x : ℕ). not (contains ℕ_discrete x (keys group)) in
    let listed =
      Iff.trans (mem-sort_by (λ n. n) r (passing absent expected))
        (mem-passing absent r expected) in
    let known = contains_iff ℕ_discrete r (keys group) in
    let here = entered_iff key r ranks in
    (
      λ m. let (e, n) = listed.0 m in (e, λ h. cc (known.1 (here.1 h), n)),
      λ (e, n). listed.1 (
        e,
        elim (Bool-cases (contains ℕ_discrete r (keys group))) [
          | inl old ↦ absurd (n (here.0 (known.0 old)))
          | inr new ↦ rw new
        ],
      ),
    )
