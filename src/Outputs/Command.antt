-- ===== src/Outputs/Command.antt =====
-- `main` of flightrecorder/analyzer.py.
use mathlib.Core.Option
use hang_analyzer.Prelude.{
  ℕ, ℕ_discrete, ◌==◌, ◌≡◌, ◌≢◌, refl, ◌⊎◌, Bool, true, false, Option, none, some, List, [], ◌∷◌,
  length, arith, Bool-cases, inl, inr, All, if◌then◌else◌, Text, codes,
}
use hang_analyzer.Cycles.{add}
use hang_analyzer.Format.Errors.{IsCaught}
use hang_analyzer.Analyzer.Select.{Read}
use hang_analyzer.Analyzer.Report.{Report, analyze}
use hang_analyzer.Analyzer.Report.Total.{analyze_returns}
use hang_analyzer.Outputs.Lines.Total.{report_lines_returns}
use hang_analyzer.Outputs.Written.{MetadataRead, Disk, Written, write_outputs}
use hang_analyzer.Outputs.Written.Kept.{all_names, Keeps, write_outputs-Keeps}

-- How `main` ends.
pub data Command : Type 0 where
  usage_error : Text → Command
  uncaught : Command
  reported : Written → Command

-- `expected is not None and args.communicator_id is None`
unfoldable pub ambiguous : Option (List ℕ) → Option ℕ → Bool
ambiguous (some expected) none = true
ambiguous (some expected) (some c) = false
ambiguous none c = false

-- `s.split(",")`
unfoldable pub split_commas : Text → List Text
split_commas [] = [] ∷ []
split_commas (c ∷ s) = elim (split_commas s) [
  | [] ↦ (c ∷ []) ∷ []
  | t ∷ ts ↦ if c == 44 then [] ∷ t ∷ ts else (c ∷ t) ∷ ts
]

-- `set(...)`
unfoldable pub set_of : List ℕ → List ℕ
unfolding add
set_of [] = []
set_of (n ∷ ns) = add ℕ_discrete n (set_of ns)

module _ (int : Text → Option ℕ) where
  -- `map(int, ...)`; `none` stands for its `ValueError`.
  unfoldable pub all_ints : List Text → Option (List ℕ)
  all_ints [] = some []
  all_ints (t ∷ ts) = elim (int t) [
    | none ↦ none
    | some n ↦ Option.map (λ ns. n ∷ ns) (all_ints ts)
  ]

  -- `expected`; an empty argument counts as none.
  unfoldable pub expected_of : Option Text → Option (Option (List ℕ))
  unfolding all_ints split_commas set_of
  expected_of none = some none
  expected_of (some []) = some none
  expected_of (some (c ∷ s)) = Option.map (λ ns. some (set_of ns)) (all_ints (split_commas (c ∷ s)))

module _ (shown_ms : ℕ → ℕ → Text) (disk : Disk) where
  -- `analyze` and `write_outputs`; the files are read in each of them.
  unfoldable pub report_on :
      Option (List ℕ) → Option ℕ → (reads again : List Read) → List (Text × MetadataRead) → Command
  unfolding analyze write_outputs
  report_on expected communicator reads again parents = elim (analyze reads expected communicator) [
    | none ↦ uncaught
    | some r ↦ reported (write_outputs shown_ms disk r again parents)
  ]

  -- `main` once the arguments are parsed.
  unfoldable pub main_with :
      Option (List ℕ) → Option ℕ → (reads again : List Read) → List (Text × MetadataRead) → Command
  unfolding ambiguous report_on
  main_with expected communicator [] again parents = usage_error (codes "no .flight files found")
  main_with expected communicator (r ∷ rs) again parents =
      if ambiguous expected communicator
      then usage_error (
          codes
            "--expected-ranks requires --communicator-id to avoid false missing-rank reports across groups")
      else report_on expected communicator (r ∷ rs) again parents

module _ (int : Text → Option ℕ) (shown_ms : ℕ → ℕ → Text) (disk : Disk) where
  unfoldable pub main :
      Option Text → Option ℕ → (reads again : List Read) → List (Text × MetadataRead) → Command
  unfolding expected_of main_with
  main expected_ranks communicator reads again parents = elim (expected_of int expected_ranks) [
    | none ↦ uncaught
    | some expected ↦ main_with shown_ms disk expected communicator reads again parents
  ]

-- The command line is refused.
abbrev pub IsRefused : List Read → Option (List ℕ) → Option ℕ → Command → Type 0
IsRefused reads expected communicator c =
    ((reads ≡ []) ⊎ (ambiguous expected communicator ≡ true)) × ((m : Text) × (c ≡ usage_error m))

-- The report of `analyze` is written.
pub record IsReported (shown_ms : ℕ → ℕ → Text) (disk : Disk) (expected : Option (List ℕ))
    (communicator : Option ℕ) (reads again : List Read) (parents : List (Text × MetadataRead))
    (c : Command) : Type 0 where
  pub some_files : reads ≢ []
  pub clear : ambiguous expected communicator ≡ false
  pub report : Report
  pub analyzed : analyze reads expected communicator ≡ some report
  pub files : Written
  pub ends : c ≡ reported files
  pub keeps : Keeps shown_ms disk report again parents all_names files

main_with_lem :
    (shown_ms : ℕ → ℕ → Text) (disk : Disk) (expected : Option (List ℕ)) (communicator : Option ℕ)
    (reads again : List Read) (parents : List (Text × MetadataRead))
    → length again ≡ length reads
    → All IsCaught reads
    → All IsCaught again
    → (let c = main_with shown_ms disk expected communicator reads again parents in
        IsRefused reads expected communicator c
        ⊎ IsReported shown_ms disk expected communicator reads again parents c)
unfolding main_with report_on
main_with_lem shown_ms disk expected communicator [] again parents l c d = inl (inl refl, (_, refl))
main_with_lem shown_ms disk expected communicator (x ∷ xs) [] parents l c d = absurd (omega arith)
main_with_lem shown_ms disk expected communicator (x ∷ xs) (y ∷ ys) parents l c d =
    elim (Bool-cases (ambiguous expected communicator)) [
      | inl a ↦ inl (inr a, rw (main_with, a) (_, refl))
      | inr a ↦
          let (s, r, _, e, _, _, _) = analyze_returns (x ∷ xs) expected communicator c in
          let (lines, shown) = report_lines_returns (x ∷ xs) expected communicator e in
          inr (record {
            some_files = λ q. cc q;
            clear = a;
            report = r;
            analyzed = e;
            files = write_outputs shown_ms disk r (y ∷ ys) parents;
            ends = rw (main_with, a, report_on, e) refl;
            keeps = write_outputs-Keeps shown_ms disk r (y ∷ ys) parents lines (λ q. cc q) d shown;
          })
    ]

-- If both passes over the files raise only what is caught and the expected ranks are numbers, `main` ends
-- with a usage error if there are no files or expected ranks come without a communicator. Otherwise
-- `analyze` has a report, and `main` writes the five files in their order, each with its content, up
-- to the first that the disk refuses, which is an `OSError`, as is a directory that cannot be made;
-- or up to snapshots.txt, with an `AttributeError`, if a metadata file holds no object. Without such
-- a reason it writes all.
pub main_returns :
    (int : Text → Option ℕ) (shown_ms : ℕ → ℕ → Text) (disk : Disk) (expected_ranks : Option Text)
    (communicator : Option ℕ) (reads again : List Read) (parents : List (Text × MetadataRead))
    {expected : Option (List ℕ)}
    → expected_of int expected_ranks ≡ some expected
    → length again ≡ length reads
    → All IsCaught reads
    → All IsCaught again
    → (let c = main int shown_ms disk expected_ranks communicator reads again parents in
        IsRefused reads expected communicator c
        ⊎ IsReported shown_ms disk expected communicator reads again parents c)
unfolding main
main_returns int shown_ms disk expected_ranks communicator reads again parents {expected} e l c d =
    rw (main, e) (main_with_lem shown_ms disk expected communicator reads again parents l c d)
