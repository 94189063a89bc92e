-- ===== src/DeviceOps.antt =====
-- flightrecorder/device_ops.py: `summarize`. The rows are what `csv.DictReader` gives; `none` stands for the
-- `AttributeError` of `strip` on a field that a short row lacks. `int` is a parameter.
pub mod Counted
use mathlib.Core.Option
use hang_analyzer.Prelude.{
  ℕ, Bool, Option, none, some, List, [], ◌∷◌, ◌++◌, length, Text, codes, decimal, strip, drop, Dict,
  insert, ℕ_discrete, ◌>>=◌,
}
use hang_analyzer.Outputs.Shown.{f_string}

-- `row.get(...)`: the file has no such column, the row is too short for it, or there is a text.
pub data Field : Type 0 where
  no_column short_row : Field
  holds : Text → Field

pub record Row : Type 0 where
  pub device_id : Field
  pub start_us : Field
  pub duration_us : Field
  pub name : Field

-- `row.get(..., '?')` as a text
unfoldable pub shown_field : Field → Text
shown_field no_column = codes "?"
shown_field short_row = codes "None"
shown_field (holds t) = t

-- `row.get(..., '').strip()`
unfoldable pub stripped : Field → Option Text
unfolding strip
stripped no_column = some []
stripped short_row = none
stripped (holds t) = some (strip t)

unfoldable pub row_line : Row → Option Text
unfolding shown_field stripped
row_line row = do
  start ← stripped row.start_us
  duration ← stripped row.duration_us
  some (
      f_string (
        codes "  device="
        ∷ shown_field row.device_id
        ∷ codes " start_us="
        ∷ start
        ∷ codes " duration_us="
        ∷ duration
        ∷ codes " name="
        ∷ shown_field row.name
        ∷ []))

unfoldable pub row_lines : List Row → Option (List Text)
unfolding row_line
row_lines [] = some []
row_lines (r ∷ rs) = do l ← row_line r; ls ← row_lines rs; some (l ∷ ls)

-- `if not rows`
unfoldable pub no_row_lines : List Row → List Text
no_row_lines [] = codes "  no parsed kernel_details.csv found" ∷ []
no_row_lines (r ∷ rs) = []

-- `rows.extend(...)` over the files of a directory
unfoldable pub all_rows : List (List Row) → List Row
all_rows [] = []
all_rows (f ∷ fs) = f ++ all_rows fs

-- A directory that matches `rank*`: its name, and the rows of its files in their order.
pub record RankDir : Type 0 where
  pub name : Text
  pub files : List (List Row)

unfoldable pub rank_lines : ℕ → List Row → Option (List Text)
unfolding row_lines no_row_lines decimal
rank_lines rank rows = do
  ls ← row_lines rows
  some (
      []
      ∷ f_string (
          codes "RANK "
          ∷ decimal rank
          ∷ codes ": device_kernel_count="
          ∷ decimal (length rows)
          ∷ [])
      ∷ (ls ++ no_row_lines rows))

module _ (int : Text → Option ℕ) where
  -- The loop over the directories; one whose name has no number is skipped.
  unfoldable pub summarize_dirs :
      List RankDir → Dict ℕ ℕ → List Text → Option (Dict ℕ ℕ × List Text)
  unfolding rank_lines all_rows insert
  summarize_dirs [] counts lines = some (counts, lines)
  summarize_dirs (d ∷ ds) counts lines = elim (int (drop 4 d.name)) [
    | none ↦ summarize_dirs ds counts lines
    | some rank ↦ do
      let rows = all_rows d.files
      ls ← rank_lines rank rows
      summarize_dirs ds (insert ℕ_discrete rank (length rows) counts) (lines ++ ls)
  ]

  -- The counts that `summarize` returns, and the lines that it writes.
  unfoldable pub summarize : List RankDir → Option (Dict ℕ ℕ × List Text)
  unfolding summarize_dirs
  summarize dirs = summarize_dirs dirs [] (
      codes "Ascend device kernels from completed profiler windows"
      ∷ codes "These are executed device kernels recorded before the controlled hang."
      ∷ codes "They do not prove completion of tasks submitted after profiler stop."
      ∷ [])
