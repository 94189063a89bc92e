-- ===== src/FourCard/Found.antt =====
-- The checks of `run` on a report of hung workers.
use hang_analyzer.Prelude.{
  ℕ, ◌≡◌, refl, ap, ◌∙◌, not, ◌==◌, none, some, List, [], ◌∷◌, passing, contains, All-mem, Memᴰ,
  if◌then◌else◌, Dict, keys, ℕ_discrete, sort_by,
}
use hang_analyzer.Format.{Event}
use hang_analyzer.Analyzer.Select.{RankData}
use hang_analyzer.Analyzer.Scan.{PairKey, PairKey-discrete, Shared, scan_events_shared}
use hang_analyzer.Analyzer.Ranks.{shared_of, scan_ranks}
use hang_analyzer.Analyzer.Collectives.{
  Collective, collective, collectives, sorted_groups, missing, end_ranks, any_ends, sorted,
}
use hang_analyzer.FourCard.{Settings, Setting, devices}
use hang_analyzer.FourCard.Hang.{Trace}
use hang_analyzer.FourCard.Hang.Records.{Trace-begun, Trace-ends}
use hang_analyzer.FourCard.Calls.{hung, first_key, second_key, HasCalled, hung-HasCalled}
use hang_analyzer.FourCard.Groups.{entered_by, enter_keys, entered_by-scan}
use hang_analyzer.FourCard.Verdict.{others, targets_of}

-- A property of each device.
each_device : (Q : ℕ → Type 0) → Q 4 → Q 5 → Q 6 → Q 7 → (m : ℕ) → Memᴰ m devices → Q m
each_device Q a b c d m at = All-mem Q devices (a, (b, (c, (d, tt)))) m at

-- The keys of the collectives that a rank enters.
abbrev keys_of : ℕ → ℕ → List PairKey
keys_of m r = if r == m then first_key ∷ [] else first_key ∷ second_key ∷ []

abbrev all_keys : ℕ → Dict PairKey (List ℕ)
all_keys m =
    enter_keys 7 (keys_of m 7)
      (enter_keys 6 (keys_of m 6) (enter_keys 5 (keys_of m 5) (enter_keys 4 (keys_of m 4) [])))

-- What follows for the missing rank by evaluation.
record IsMissing (m : ℕ) : Type 0 where
  entering : all_keys m ≡ (first_key, devices) ∷ (second_key, others m) ∷ []
  in_order : sorted (others m) ≡ others m
  absent : sorted (passing (λ r. not (contains ℕ_discrete r (others m))) devices) ≡ m ∷ []

device-IsMissing : (m : ℕ) → Memᴰ m devices → IsMissing m
unfolding enter_keys others sort_by passing contains PairKey-discrete ℕ_discrete
device-IsMissing =
    each_device IsMissing (record { entering = refl; in_order = refl; absent = refl })
      (record { entering = refl; in_order = refl; absent = refl })
      (record { entering = refl; in_order = refl; absent = refl })
      (record { entering = refl; in_order = refl; absent = refl })

-- The dict of the four ranks.
abbrev pub four : RankData → RankData → RankData → RankData → Dict ℕ RankData
four a b c d = (4, a) ∷ (5, b) ∷ (6, c) ∷ (7, d) ∷ []

pub four-keys :
    (ranks : Dict ℕ RankData) → keys ranks ≡ devices → (a b c d : RankData) × (ranks ≡ four a b c d)
four-keys ((i, a) ∷ (j, b) ∷ (k, c) ∷ (l, d) ∷ []) h = (a, b, c, d, cc)
four-keys _ h = cc

-- Two groups.
two-keys :
    (groups : Dict PairKey (Dict ℕ Event)) {rs qs : List ℕ}
    → entered_by groups ≡ (first_key, rs) ∷ (second_key, qs) ∷ []
    → (g h : Dict ℕ Event) × (groups ≡ (first_key, g) ∷ (second_key, h) ∷ []) × (keys h ≡ qs)
two-keys ((i, g) ∷ (j, h) ∷ []) q = (g, h, cc, cc)
two-keys _ q = cc

module _ (s : Settings) (t : ℕ → Setting) where
  abbrev pub away : ℕ
  away = s.missing_rank

  -- The file of a rank is that of its hung worker.
  abbrev pub IsHung : ℕ → List Event → Type 0
  IsHung r es = Trace (hung s (t r) r) es

  abbrev called : (r : ℕ) → HasCalled (r == away) (hung s (t r) r)
  called r = hung-HasCalled s (t r) r

  scan-IsHung :
      (r : ℕ) (es : List Event) (h : Shared)
      → IsHung r es
      → entered_by (scan_events_shared r es h).groups
        ≡ enter_keys r (keys_of away r) (entered_by h.groups)
  scan-IsHung r es h trace =
      entered_by-scan r es h
      ∙ ap (λ ks. enter_keys r ks (entered_by h.groups)) (Trace-begun trace ∙ (called r).0)

  any_ends-IsHung :
      (r : ℕ) (es : List Event) → IsHung r es → any_ends second_key es ≡ not (r == away)
  any_ends-IsHung r es trace = Trace-ends second_key trace ∙ (called r).1

  module _ (a b c d : RankData) where
    -- All four files are.
    abbrev pub AllHung : Type 0
    AllHung = IsHung 4 a.events × IsHung 5 b.events × IsHung 6 c.events × IsHung 7 d.events

    module _ (traces : AllHung) where
      shared-keys : entered_by (shared_of (four a b c d)).groups ≡ all_keys away
      unfolding scan_ranks sort_by
      shared-keys =
          let (u, v, w, x) = traces in
          scan-IsHung 7 d.events _ x
          ∙ ap (enter_keys 7 (keys_of away 7)) (
              scan-IsHung 6 c.events _ w
              ∙ ap (enter_keys 6 (keys_of away 6)) (
                  scan-IsHung 5 b.events _ v
                  ∙ ap (enter_keys 5 (keys_of away 5)) (scan-IsHung 4 a.events _ u)))

      end_ranks-others : end_ranks second_key (four a b c d) ≡ others away
      unfolding end_ranks others passing
      end_ranks-others =
          let (u, v, w, x) = traces in
          rw
            (
              any_ends-IsHung 4 a.events u,
              any_ends-IsHung 5 b.events v,
              any_ends-IsHung 6 c.events w,
              any_ends-IsHung 7 d.events x,
            )
            refl

      -- The one target, and what it says.
      pub targets-four :
          Memᴰ away devices
          → (g : Collective) × (targets_of (
                collectives
                  (some devices)
                  none
                  (four a b c d)
                  (sorted_groups (shared_of (four a b c d)).groups))
              ≡ g ∷ [])
            × (g.missing_expected ≡ away ∷ [])
            × (g.entered ≡ others away)
            × (g.end_observed ≡ others away)
      unfolding targets_of collectives sorted_groups collective missing passing
      targets-four at =
          let facts = device-IsMissing away at in
          let (g, h, eq, ks) =
            two-keys (shared_of (four a b c d)).groups (shared-keys ∙ facts.entering) in
          (
            collective (some devices) (four a b c d) (second_key, h),
            rw eq refl,
            rw ks facts.absent,
            rw ks facts.in_order,
            rw end_ranks-others facts.in_order,
          )
