-- ===== src/DeviceOps/Counted.antt =====
-- The counts of `summarize`.
use hang_analyzer.Prelude.{
  ℕ, ◌+◌, ◌↔◌, ◌⊎◌, ⊎_elim, length-append, All-append, ◌≡◌, ◌≢◌, refl, sym, ap, ◌∙◌, inl, inr,
  Option, Option-cases, none, some, List, [], ◌∷◌, ◌++◌, All, length, drop, Text, Dict, lookup,
  insert, lookup-insert_self, lookup-insert_ne, ℕ_discrete, arith, bind_returns,
}
use hang_analyzer.DeviceOps.{
  Field, no_column, short_row, holds, Row, stripped, row_line, row_lines, all_rows, RankDir,
  rank_lines, summarize_dirs, summarize,
}

-- The number of rows in some files.
unfoldable pub row_count : List (List Row) → ℕ
row_count [] = 0
row_count (f ∷ fs) = length f + row_count fs

-- The name of the directory has this rank.
abbrev pub HasRank : (Text → Option ℕ) → ℕ → RankDir → Type 0
HasRank int rank d = int (drop 4 d.name) ≡ some rank

-- The last directory of the rank has so many rows in its files.
pub record IsLastCount (int : Text → Option ℕ) (rank : ℕ) (ds : List RankDir) (n : ℕ) : Type 0 where
  pub before : List RankDir
  pub last : RankDir
  pub after : List RankDir
  pub parts : ds ≡ before ++ last ∷ after
  pub ranked : HasRank int rank last
  pub is_last : All (λ d. ¬ HasRank int rank d) after
  pub counts : n ≡ row_count last.files

-- The count of the last directory of the rank, or the one from before.
last_count : (Text → Option ℕ) → ℕ → List RankDir → Option ℕ → Option ℕ
last_count int rank [] o = o
last_count int rank (d ∷ ds) o = elim (int (drop 4 d.name)) [
  | none ↦ last_count int rank ds o
  | some r ↦
      last_count int rank ds
        (elim (ℕ_discrete r rank) [ yes _ ↦ some (length (all_rows d.files)) | no _ ↦ o ])
]

length-all_rows : (fs : List (List Row)) → length (all_rows fs) ≡ row_count fs
unfolding all_rows row_count
length-all_rows [] = refl
length-all_rows (f ∷ fs) =
    length-append f (all_rows fs) ∙ ap (λ n. length f + n) (length-all_rows fs)

module _ (int : Text → Option ℕ) (rank : ℕ) where
  last_count-own :
      (d : RankDir) (ds : List RankDir) (o : Option ℕ)
      → HasRank int rank d
      → last_count int rank (d ∷ ds) o ≡ last_count int rank ds (some (row_count d.files))
  unfolding last_count
  last_count-own d ds o h =
      rw (last_count, h) (ap (last_count int rank ds) (ground (arith, length-all_rows d.files)))

  last_count-other :
      (d : RankDir) (ds : List RankDir) (o : Option ℕ)
      → ¬ HasRank int rank d
      → last_count int rank (d ∷ ds) o ≡ last_count int rank ds o
  unfolding last_count
  last_count-other d ds o n = elim (Option-cases (int (drop 4 d.name))) [
    | inl q ↦ rw (last_count, q) refl
    | inr (r, q) ↦
        rw (last_count, q)
          (ap (last_count int rank ds) (elim (ℕ_discrete r rank) [
            | yes same ↦ absurd (n (q ∙ ap some same))
            | no other ↦ ground (arith, other)
          ]))
  ]

  HasRank-dec : (d : RankDir) → Dec (HasRank int rank d)
  HasRank-dec d = elim (Option-cases (int (drop 4 d.name))) [
    | inl q ↦ no (λ h. cc (sym q ∙ h))
    | inr (r, q) ↦ (elim (ℕ_discrete r rank) [
      | yes same ↦ yes (q ∙ ap some same)
      | no other ↦ no (λ h. other (cc (sym q ∙ h)))
    ])
  ]

  -- No directory has the rank.
  abbrev NoDir : List RankDir → Type 0
  NoDir ds = All (λ d. ¬ HasRank int rank d) ds

  last_count-NoDir : (ds : List RankDir) (o : Option ℕ) → NoDir ds → last_count int rank ds o ≡ o
  unfolding last_count
  last_count-NoDir [] o h = refl
  last_count-NoDir (d ∷ ds) o h = last_count-other d ds o h.0 ∙ last_count-NoDir ds o h.1

  last_count-source :
      (ds : List RankDir) (o : Option ℕ) (n : ℕ)
      → last_count int rank ds o ≡ some n
      → IsLastCount int rank ds n ⊎ ((o ≡ some n) × NoDir ds)
  unfolding last_count
  last_count-source [] o n q = inr (q, tt)
  last_count-source (d ∷ ds) o n q = elim (HasRank-dec d) [
    | yes h ↦
        ⊎_elim (λ i. inl (behind i))
          (λ here. inl (record {
            before = [];
            last = d;
            after = ds;
            parts = refl;
            ranked = h;
            is_last = here.1;
            counts = cc (sym here.0);
          }))
          (last_count-source ds (some (row_count d.files)) n (sym (last_count-own d ds o h) ∙ q))
    | no h ↦
        ⊎_elim (λ i. inl (behind i)) (λ there. inr (there.0, (h, there.1)))
          (last_count-source ds o n (sym (last_count-other d ds o h) ∙ q))
  ]
    where
      behind : IsLastCount int rank ds n → IsLastCount int rank (d ∷ ds) n
      behind i = record {
        before = d ∷ i.before;
        last = i.last;
        after = i.after;
        parts = ap (λ l. d ∷ l) i.parts;
        ranked = i.ranked;
        is_last = i.is_last;
        counts = i.counts;
      }

  last_count-found :
      (before : List RankDir) (d : RankDir) (after : List RankDir) (o : Option ℕ)
      → HasRank int rank d
      → NoDir after
      → last_count int rank (before ++ d ∷ after) o ≡ some (row_count d.files)
  last_count-found [] d after o h n =
      last_count-own d after o h ∙ last_count-NoDir after (some (row_count d.files)) n
  last_count-found (b ∷ before) d after o h n = elim (HasRank-dec b) [
    | yes q ↦
        last_count-own b (before ++ d ∷ after) o q
        ∙ last_count-found before d after (some (row_count b.files)) h n
    | no q ↦ last_count-other b (before ++ d ∷ after) o q ∙ last_count-found before d after o h n
  ]

  last_count_iff :
      (ds : List RankDir) (n : ℕ)
      → (last_count int rank ds none ≡ some n) ↔ IsLastCount int rank ds n
  last_count_iff ds n = (
    λ q. ⊎_elim (λ i. i) (λ h. cc h.0) (last_count-source ds none n q),
    λ i.
        ap (λ l. last_count int rank l none) i.parts
        ∙ last_count-found i.before i.last i.after none i.ranked i.is_last
        ∙ ap some (sym i.counts),
  )

-- The row has its times, or its file has no columns for them.
abbrev pub IsComplete : Row → Type 0
IsComplete r = (r.start_us ≢ short_row) × (r.duration_us ≢ short_row)

abbrev pub HasCompleteRows : RankDir → Type 0
HasCompleteRows d = All (λ rows. All IsComplete rows) d.files

all_rows-IsComplete :
    (fs : List (List Row)) → All (λ rows. All IsComplete rows) fs → All IsComplete (all_rows fs)
unfolding all_rows
all_rows-IsComplete [] h = tt
all_rows-IsComplete (f ∷ fs) h =
    All-append IsComplete f (all_rows fs) h.0 (all_rows-IsComplete fs h.1)

stripped_returns : (f : Field) → f ≢ short_row → (t : Text) × (stripped f ≡ some t)
unfolding stripped
stripped_returns no_column n = (_, refl)
stripped_returns short_row n = absurd (n refl)
stripped_returns (holds t) n = (_, refl)

row_lines_returns :
    (rows : List Row) → All IsComplete rows → (ls : List Text) × (row_lines rows ≡ some ls)
unfolding row_lines row_line
row_lines_returns [] c = ([], refl)
row_lines_returns (r ∷ rs) c =
    let (s, e) = stripped_returns r.start_us c.0.0 in
    let (d, q) = stripped_returns r.duration_us c.0.1 in
    let (ls, p) = row_lines_returns rs c.1 in
    (_, bind_returns _ (bind_returns _ e (bind_returns _ q refl)) (bind_returns _ p refl))

rank_lines_returns :
    (rank : ℕ) (rows : List Row)
    → All IsComplete rows
    → (ls : List Text) × (rank_lines rank rows ≡ some ls)
unfolding rank_lines
rank_lines_returns rank rows c =
    let (ls, e) = row_lines_returns rows c in (_, bind_returns _ e refl)

lookup-insert :
    (r rank n : ℕ) (d : Dict ℕ ℕ)
    → lookup ℕ_discrete rank (insert ℕ_discrete r n d)
      ≡ (elim (ℕ_discrete r rank) [ yes _ ↦ some n | no _ ↦ lookup ℕ_discrete rank d ])
lookup-insert r rank n d = elim (ℕ_discrete r rank) [
  | yes p ↦
      ap (λ k. lookup ℕ_discrete k (insert ℕ_discrete r n d)) (sym p)
      ∙ lookup-insert_self ℕ_discrete r n d
      ∙ ground (arith, p)
  | no q ↦ lookup-insert_ne ℕ_discrete r rank n d q ∙ ground (arith, q)
]

record Summarizes (int : Text → Option ℕ) (ds : List RankDir) (counts : Dict ℕ ℕ)
    (lines : List Text) : Type 0 where
  result : Dict ℕ ℕ × List Text
  runs : summarize_dirs int ds counts lines ≡ some result
  counted :
      (rank : ℕ)
      → lookup ℕ_discrete rank result.0 ≡ last_count int rank ds (lookup ℕ_discrete rank counts)

summarize_dirs-Summarizes :
    (int : Text → Option ℕ) (ds : List RankDir) (counts : Dict ℕ ℕ) (lines : List Text)
    → All HasCompleteRows ds
    → Summarizes int ds counts lines
unfolding summarize_dirs last_count
summarize_dirs-Summarizes int [] counts lines c = record {
  result = (counts, lines);
  runs = refl;
  counted = λ rank. refl;
}
summarize_dirs-Summarizes int (d ∷ ds) counts lines c = elim (Option-cases (int (drop 4 d.name))) [
  | inl skipped ↦
      let s = summarize_dirs-Summarizes int ds counts lines c.1 in
      record {
        result = s.result;
        runs = rw (summarize_dirs, skipped) s.runs;
        counted = λ rank. rw (last_count, skipped) (s.counted rank);
      }
  | inr (r, found) ↦
      let rows = all_rows d.files in
      let (ls, e) = rank_lines_returns r rows (all_rows-IsComplete d.files c.0) in
      let s =
        summarize_dirs-Summarizes int ds (insert ℕ_discrete r (length rows) counts) (lines ++ ls)
          c.1 in
      record {
        result = s.result;
        runs = rw (summarize_dirs, found) (bind_returns _ e s.runs);
        counted = λ rank.
            rw (last_count, found)
              (s.counted rank
                ∙ ap (last_count int rank ds) (lookup-insert r rank (length rows) counts));
      }
]

-- If no row lacks a time that its file has a column for, `summarize` returns, and a rank has a count if
-- and only if it has a directory: the number of rows in all files of its last one.
pub summarize_counts :
    (int : Text → Option ℕ) (ds : List RankDir)
    → All HasCompleteRows ds
    → (counts : Dict ℕ ℕ) × (lines : List Text) × (summarize int ds ≡ some (counts, lines))
      × ((rank n : ℕ) → (lookup ℕ_discrete rank counts ≡ some n) ↔ IsLastCount int rank ds n)
unfolding summarize lookup
summarize_counts int ds c =
    let s = summarize_dirs-Summarizes int ds [] _ c in
    (
      s.result.0,
      s.result.1,
      s.runs,
      λ rank n. (
        λ q. (last_count_iff int rank ds n).0 (sym (s.counted rank) ∙ q),
        λ i. s.counted rank ∙ (last_count_iff int rank ds n).1 i,
      ),
    )
