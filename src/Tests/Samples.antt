-- ===== src/Tests/Samples.antt =====
-- Two samples of a device, and two directories of profiler rows.
use hang_analyzer.Prelude.{
  ℕ, ◌-◌, ◌≢◌, ◌↔◌, ◌≡◌, ◌⊎◌, refl, Option, none, some, List, [], ◌∷◌, Text, Text-discrete, codes,
  Dict, lookup, insert, ℕ_discrete, passing, length,
}
use hang_analyzer.AicpuSampler.{
  printed, failed, Sample, aicpu_of, sample, parse_usages, parse_fields, valid_of, peak_of, sum_of,
  Usage, usage_of, group_at,
}
use hang_analyzer.AicpuSampler.Bounds.{sample_lem}
use hang_analyzer.DeviceOps.{
  no_column, short_row, holds, Row, RankDir, row_lines, row_line, stripped, rank_lines, all_rows,
  summarize_dirs, summarize,
}
use hang_analyzer.DeviceOps.Counted.{HasCompleteRows, IsLastCount, summarize_counts}

-- A search that finds one number for every label, the number of characters of the text.
abbrev search : Text → Text → Option ℕ
search label output = some (length output)

abbrev samples : List Sample
samples = group_at 4 (
    sample search 4 1 2 (printed (codes "abc"))
    ∷ sample search 4 5 6 (failed (codes "TimeoutExpired"))
    ∷ sample search 5 5 6 (printed (codes "abcdefg"))
    ∷ sample search 4 7 8 (printed (codes "a"))
    ∷ [])

abbrev usage : Usage
usage = record { sum = 4; peak = 3; last = 1; last_wall_ns = 8; valid = 2; samples = 3 }

usage_of-samples : usage_of samples ≡ some usage
unfolding usage_of group_at passing sample parse_usages parse_fields aicpu_of valid_of peak_of
    sum_of insert lookup Text-discrete ℕ_discrete
usage_of-samples = refl

sample_lem_example :
    ((sample search 4 1 2 (failed (codes "gone"))).device ≡ 4)
    × ((((sample search 4 1 2 (failed (codes "gone"))).error ≡ none)
          × ((n : ℕ) × (aicpu_of (sample search 4 1 2 (failed (codes "gone"))).values ≡ some n)))
        ⊎ (((sample search 4 1 2 (failed (codes "gone"))).values ≡ [])
            × ((m : Text) × ((sample search 4 1 2 (failed (codes "gone"))).error ≡ some m))))
sample_lem_example = sample_lem search 4 1 2 (failed (codes "gone"))

-- `int` of the one digit that is used.
unfoldable int_of : Text → Option ℕ
int_of [] = none
int_of (c ∷ s) = some (c - 48)

abbrev row : Row
row = record {
  device_id = holds (codes "0");
  start_us = holds (codes " 5 ");
  duration_us = no_column;
  name = short_row;
}

abbrev dirs : List RankDir
dirs =
    record { name = codes "rank1"; files = (row ∷ row ∷ []) ∷ (row ∷ []) ∷ [] }
    ∷ record { name = codes "rank"; files = [] }
    ∷ record { name = codes "rank2"; files = [] }
    ∷ []

summarize_counts_example :
    (counts : Dict ℕ ℕ) × (lines : List Text) × (summarize int_of dirs ≡ some (counts, lines))
    × ((rank n : ℕ) → (lookup ℕ_discrete rank counts ≡ some n) ↔ IsLastCount int_of rank dirs n)
summarize_counts_example = summarize_counts int_of dirs (complete, (tt, (tt, tt)))
  where
    whole : (row.start_us ≢ short_row) × (row.duration_us ≢ short_row)
    whole = (λ e. cc e, λ e. cc e)

    complete :
        HasCompleteRows
          (record { name = codes "rank1"; files = (row ∷ row ∷ []) ∷ (row ∷ []) ∷ [] })
    complete = ((whole, (whole, tt)), ((whole, tt), tt))

-- A row that was cut off before its duration ends the summary with an exception.
summarize-cut_off :
    summarize int_of (
      record { name = codes "rank1"; files = (record row { duration_us = short_row } ∷ []) ∷ [] }
      ∷ [])
    ≡ none
unfolding summarize summarize_dirs int_of all_rows rank_lines row_lines row_line stripped
summarize-cut_off = refl
