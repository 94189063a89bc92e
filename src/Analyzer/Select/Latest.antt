-- ===== src/Analyzer/Select/Latest.antt =====
-- The file that is kept for a rank is one of its files with the largest `write_seq`.
use mathlib.Core.List.Memᴰ
use hang_analyzer.Prelude.{
  ℕ, ◌≤◌, ◌≡◌, refl, sym, ap, subst, ◌∙◌, true, false, ◌⊎◌, inl, inr, ⊎_elim, none, some, List, [],
  ◌∷◌, ◌++◌, ltb, Text, lookup, insert, lookup-insert_self, lookup-insert_ne, All, Memᴰ, ℕ_discrete,
  Bool-cases, Option-cases, arith,
}
use hang_analyzer.Prelude.Result.{ok, err, Error, os_error, value_error, struct_error}
use hang_analyzer.Format.{Header, Event}
use hang_analyzer.Format.Errors.{IsCaught}
use hang_analyzer.Analyzer.Select.{
  Read, RankData, Selection, replaces, select_path, select_paths, select,
}

-- The rank has an entry at least as late as a file with this number of writes.
abbrev pub HasAtLeast : Selection → ℕ → ℕ → Type 0
HasAtLeast s rank writes =
    (d : RankData) × (lookup ℕ_discrete rank s.ranks ≡ some d) × (writes ≤ d.header.write_seq)

record Step (read : Read) (s t : Selection) : Type 0 where
  runs : select_path read s ≡ ok t
  source :
      (r : ℕ) (d : RankData)
      → lookup ℕ_discrete r t.ranks ≡ some d
      → (lookup ℕ_discrete r s.ranks ≡ some d)
        ⊎ (read ≡ ok (d.header, d.events)) × (d.header.rank ≡ r)
  kept : (r w : ℕ) → HasAtLeast s r w → HasAtLeast t r w
  counted : (h : Header) (ev : List Event) → read ≡ ok (h, ev) → HasAtLeast t h.rank h.write_seq

module _ (h : Header) (ev : List Event) (s : Selection) where
  abbrev entry : RankData
  entry = record { header = h; events = ev }

  abbrev stored : Selection
  stored = record s { ranks = insert ℕ_discrete h.rank entry s.ranks }

  same_header :
      (h' : Header) (ev' : List Event) → ◌≡◌ {A = Read} (ok (h, ev)) (ok (h', ev')) → h ≡ h'
  same_header h' ev' e = cc

  module _ (newer : replaces h (lookup ℕ_discrete h.rank s.ranks) ≡ true) where
    stored-source :
        (r : ℕ) (d : RankData)
        → lookup ℕ_discrete r stored.ranks ≡ some d
        → (lookup ℕ_discrete r s.ranks ≡ some d)
          ⊎ (◌≡◌ {A = Read} (ok (h, ev)) (ok (d.header, d.events))) × (d.header.rank ≡ r)
    stored-source r d e = elim (ℕ_discrete h.rank r) [
      | yes p ↦
          let found =
            subst (λ k. lookup ℕ_discrete k stored.ranks ≡ some entry) p
              (lookup-insert_self ℕ_discrete h.rank entry s.ranks) in
          let same : entry ≡ d = cc in
          inr (
            ap (λ (x : RankData). ok (x.header, x.events)) same,
            ap (λ (x : RankData). x.header.rank) (sym same) ∙ p,
          )
      | no n ↦ inl (sym (lookup-insert_ne ℕ_discrete h.rank r entry s.ranks n) ∙ e)
    ]

    stored-kept : (r w : ℕ) → HasAtLeast s r w → HasAtLeast stored r w
    unfolding replaces
    stored-kept r w (d, e, le) = elim (ℕ_discrete h.rank r) [
      | yes p ↦
          let old : lookup ℕ_discrete h.rank s.ranks ≡ some d = rw p e in
          let later : ltb d.header.write_seq h.write_seq ≡ true = rw (old, replaces) at newer in
          subst (λ k. HasAtLeast stored k w) p
            (entry, lookup-insert_self ℕ_discrete h.rank entry s.ranks, ground arith)
      | no n ↦ (d, lookup-insert_ne ℕ_discrete h.rank r entry s.ranks n ∙ e, le)
    ]

    stored-Step : Step (ok (h, ev)) s stored
    unfolding select_path
    stored-Step = record {
      runs = rw newer;
      source = stored-source;
      kept = stored-kept;
      counted = λ h' ev' e.
          subst (λ (x : Header). HasAtLeast stored x.rank x.write_seq) (same_header h' ev' e)
            (entry, lookup-insert_self ℕ_discrete h.rank entry s.ranks, omega arith);
    }

  not_newer :
      replaces h (lookup ℕ_discrete h.rank s.ranks) ≡ false → HasAtLeast s h.rank h.write_seq
  unfolding replaces
  not_newer older = elim (Option-cases (lookup ℕ_discrete h.rank s.ranks)) [
    | inl absent ↦ let bad : replaces h none ≡ false = rw absent at older in cc
    | inr (d, e) ↦ let le : replaces h (some d) ≡ false = rw e at older in (d, e, ground arith)
  ]

  ignored-Step : replaces h (lookup ℕ_discrete h.rank s.ranks) ≡ false → Step (ok (h, ev)) s s
  unfolding select_path
  ignored-Step older = record {
    runs = rw older;
    source = λ r d e. inl e;
    kept = λ r w held. held;
    counted = λ h' ev' e.
        subst (λ (x : Header). HasAtLeast s x.rank x.write_seq) (same_header h' ev' e)
          (not_newer older);
  }

error-Step :
    (e : Error) (m : Text) (s : Selection)
    → select_path (err e) s ≡ ok (record s { errors = s.errors ++ m ∷ [] })
    → Step (err e) s (record s { errors = s.errors ++ m ∷ [] })
error-Step e m s runs = record {
  runs = runs;
  source = λ r d q. inl q;
  kept = λ r w held. held;
  counted = λ h ev q. cc;
}

select_path-Step : (read : Read) (s : Selection) → IsCaught read → (t : Selection) × Step read s t
unfolding select_path
select_path-Step (ok (h, ev)) s c =
    elim (Bool-cases (replaces h (lookup ℕ_discrete h.rank s.ranks))) [
      | inl newer ↦ (stored h ev s, stored-Step h ev s newer)
      | inr older ↦ (s, ignored-Step h ev s older)
    ]
select_path-Step (err (os_error m)) s c = (_, error-Step (os_error m) m s refl)
select_path-Step (err (value_error m)) s c = (_, error-Step (value_error m) m s refl)
select_path-Step (err struct_error) s c = absurd c

record Steps (reads : List Read) (s t : Selection) : Type 0 where
  runs : select_paths reads s ≡ ok t
  source :
      (r : ℕ) (d : RankData)
      → lookup ℕ_discrete r t.ranks ≡ some d
      → (lookup ℕ_discrete r s.ranks ≡ some d)
        ⊎ Memᴰ (ok (d.header, d.events)) reads × (d.header.rank ≡ r)
  kept : (r w : ℕ) → HasAtLeast s r w → HasAtLeast t r w
  counted :
      (h : Header) (ev : List Event) → Memᴰ (ok (h, ev)) reads → HasAtLeast t h.rank h.write_seq

select_paths-Steps :
    (reads : List Read) (s : Selection) → All IsCaught reads → (t : Selection) × Steps reads s t
unfolding select_paths
select_paths-Steps [] s c = (
  s,
  record {
    runs = refl;
    source = λ r d e. inl e;
    kept = λ r w held. held;
    counted = λ h ev m. absurd (Memᴰ.not-nil m);
  },
)
select_paths-Steps (read ∷ reads) s c =
    let (t, a) = select_path-Step read s c.0 in
    let (u, b) = select_paths-Steps reads t c.1 in
    (
      u,
      record {
        runs = rw (a.runs, b.runs);
        source = λ r d e.
            ⊎_elim
              (λ before. ⊎_elim inl (λ (q, k). inr (Memᴰ.head (sym q), k)) (a.source r d before))
              (λ (m, k). inr (Memᴰ.tail m, k)) (b.source r d e);
        kept = λ r w held. b.kept r w (a.kept r w held);
        counted = λ h ev m.
            ⊎_elim (λ q. b.kept h.rank h.write_seq (a.counted h ev (sym q))) (b.counted h ev)
              (Memᴰ.cases_cons m);
      },
    )

-- What is kept for a rank: one of the files that were read for it, and no file of that rank that
-- was read has more writes.
pub record IsLatest (reads : List Read) (r : ℕ) (d : RankData) : Type 0 where
  pub among : Memᴰ (ok (d.header, d.events)) reads
  pub rank : d.header.rank ≡ r
  pub latest :
      (h : Header) (ev : List Event)
      → Memᴰ (ok (h, ev)) reads
      → h.rank ≡ r
      → h.write_seq ≤ d.header.write_seq

Steps-IsLatest :
    (reads : List Read) (t : Selection)
    → Steps reads (record { ranks = []; errors = [] }) t
    → (r : ℕ) (d : RankData) → lookup ℕ_discrete r t.ranks ≡ some d
    → IsLatest reads r d
unfolding lookup
Steps-IsLatest reads t b r d e =
    let (m, k) : Memᴰ (ok (d.header, d.events)) reads × (d.header.rank ≡ r) =
      ⊎_elim (λ q. cc) (λ p. p) (b.source r d e) in
    record {
      among = m;
      rank = k;
      latest = λ h ev m q.
          let (d', e', le) = subst (λ i. HasAtLeast t i h.write_seq) q (b.counted h ev m) in
          let same : d' ≡ d = cc in
          subst (λ (x : RankData). h.write_seq ≤ x.header.write_seq) same le;
    }

-- If the files raise only what is caught, the selection succeeds; what it keeps for a rank is a
-- latest file of that rank, and every rank of a file that was read has an entry.
pub select-IsLatest :
    (reads : List Read)
    → All IsCaught reads
    → (t : Selection) × (select reads ≡ ok t)
      × ((r : ℕ) (d : RankData) → lookup ℕ_discrete r t.ranks ≡ some d → IsLatest reads r d)
      × ((h : Header) (ev : List Event) → Memᴰ (ok (h, ev)) reads → HasAtLeast t h.rank h.write_seq)
unfolding select
select-IsLatest reads c =
    let (t, b) = select_paths-Steps reads (record { ranks = []; errors = [] }) c in
    (t, b.runs, Steps-IsLatest reads t b, b.counted)
