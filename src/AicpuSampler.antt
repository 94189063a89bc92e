-- ===== src/AicpuSampler.antt =====
-- flightrecorder/aicpu_sampler.py: `parse_usages`, `sample`, the rounds of `capture`, and `summarize`. The
-- search of a regular expression, `int` and the formatting of the mean are parameters, and so is what
-- the command and the clock answer; a row is a dict before it is printed as JSON.
pub mod Bounds
pub mod Capture
use mathlib.Core.Option
use mathlib.Core.List.{get_last?}
use hang_analyzer.Prelude.{
  ℕ, zero, suc, ◌+◌, max, ◌==◌, Bool, true, false, ◌||◌, Option, none, some, List, [], ◌∷◌, ◌++◌,
  map, length, passing, if◌then◌else◌, sort_by, Text, Text-discrete, codes, decimal, Dict, lookup,
  insert, ℕ_discrete,
}
use hang_analyzer.Cycles.{add}

-- `FIELDS`
abbrev pub fields : Dict Text Text
fields =
    (codes "Aicpu Usage Rate(%)", codes "aicpu_pct")
    ∷ (codes "Aicore Usage Rate(%)", codes "aicore_pct")
    ∷ (codes "Aivector Usage Rate(%)", codes "aivector_pct")
    ∷ (codes "Ctrlcpu Usage Rate(%)", codes "ctrlcpu_pct")
    ∷ []

-- `search label output` is the number that the regular expression for the label finds.
module _ (search : Text → Text → Option ℕ) where
  unfoldable pub parse_fields : Dict Text Text → Text → Dict Text ℕ → Dict Text ℕ
  unfolding insert
  parse_fields [] output values = values
  parse_fields ((label, key) ∷ rest) output values =
      parse_fields rest output
        (elim (search label output) [ none ↦ values | some n ↦ insert Text-discrete key n values ])

  unfoldable pub parse_usages : Text → Dict Text ℕ
  unfolding parse_fields
  parse_usages output = parse_fields fields output []

-- What `subprocess.run` did; the exceptions that `sample` handles come with their texts.
pub data Run : Type 0 where
  printed : (stdout : Text) → Run
  failed : (error : Text) → Run

-- The dict that `sample` returns.
pub record Sample : Type 0 where
  pub device : ℕ
  pub started_wall_ns : ℕ
  pub ended_wall_ns : ℕ
  pub values : Dict Text ℕ
  pub error : Option Text

-- `row.get("aicpu_pct")`
unfoldable pub aicpu_of : Dict Text ℕ → Option ℕ
unfolding lookup
aicpu_of values = lookup Text-discrete (codes "aicpu_pct") values

abbrev pub failure : ℕ → ℕ → ℕ → Text → Sample
failure device started ended message = record {
  device = device;
  started_wall_ns = started;
  ended_wall_ns = ended;
  values = [];
  error = some message;
}

unfoldable pub sample : (Text → Text → Option ℕ) → (device started ended : ℕ) → Run → Sample
unfolding parse_usages aicpu_of
sample search device started ended (failed message) = failure device started ended message
sample search device started ended (printed stdout) =
    let values = parse_usages search stdout in
    elim (aicpu_of values) [
      | none ↦
          failure device started ended (codes "ValueError: npu-smi output has no Aicpu Usage Rate")
      | some _ ↦ record {
        device = device;
        started_wall_ns = started;
        ended_wall_ns = ended;
        values = values;
        error = none;
      }
    ]

-- `sorted({row["device"] for row in rows})`
unfoldable pub devices_of : List Sample → List ℕ
unfolding add
devices_of [] = []
devices_of (r ∷ rs) = add ℕ_discrete r.device (devices_of rs)

-- The values of the rows that have one.
unfoldable pub valid_of : List Sample → List (ℕ × ℕ)
unfolding aicpu_of
valid_of [] = []
valid_of (r ∷ rs) =
    let rest = valid_of rs in
    elim (aicpu_of r.values) [ none ↦ rest | some n ↦ (n, r.ended_wall_ns) ∷ rest ]

-- `max(...)`; `none` stands for the `ValueError` of an empty sequence.
unfoldable pub peak_of : List (ℕ × ℕ) → Option ℕ
peak_of [] = none
peak_of ((n, t) ∷ rest) = elim (peak_of rest) [ none ↦ some n | some m ↦ some (max n m) ]

unfoldable pub sum_of : List (ℕ × ℕ) → ℕ
sum_of [] = 0
sum_of ((n, t) ∷ rest) = n + sum_of rest

-- The numbers in the line on a device with valid samples.
pub record Usage : Type 0 where
  pub sum : ℕ
  pub peak : ℕ
  pub last : ℕ
  pub last_wall_ns : ℕ
  pub valid : ℕ
  pub samples : ℕ

-- `group`
unfoldable pub group_at : ℕ → List Sample → List Sample
unfolding passing
group_at device rows = passing (λ r. r.device == device) rows

unfoldable pub usage_of : List Sample → Option Usage
unfolding valid_of peak_of sum_of
usage_of group =
    let valid = valid_of group in
    elim (peak_of valid) [
      | none ↦ none
      | some peak ↦ (elim (get_last? valid) [
        | none ↦ none
        | some (n, t) ↦ some (record {
          sum = sum_of valid;
          peak = peak;
          last = n;
          last_wall_ns = t;
          valid = length valid;
          samples = length group;
        })
      ])
    ]

-- `group[-1].get('error')` as a text
unfoldable pub last_error_text : List Sample → Text
last_error_text group = elim (get_last? group) [
  | none ↦ codes "None"
  | some r ↦ (elim r.error [ none ↦ codes "None" | some m ↦ m ])
]

-- `shown_mean sum n` is `{sum / n:.1f}`.
module _ (shown_mean : ℕ → ℕ → Text) where
  unfoldable pub usage_text : ℕ → Usage → Text
  unfolding decimal
  usage_text device u =
      codes "device "
      ++ (decimal device
          ++ (codes ": AICPU mean="
              ++ (shown_mean u.sum u.valid
                  ++ (codes "% peak="
                      ++ (decimal u.peak
                          ++ (codes "% last="
                              ++ (decimal u.last
                                  ++ (codes "% valid="
                                      ++ (decimal u.valid
                                          ++ (codes "/"
                                              ++ (decimal u.samples
                                                  ++ (codes " last_wall_ns="
                                                      ++ decimal u.last_wall_ns))))))))))))

  unfoldable pub device_line : List Sample → ℕ → Text
  unfolding group_at usage_of usage_text last_error_text decimal
  device_line rows device =
      let group = group_at device rows in
      elim (usage_of group) [
        | none ↦
            codes "device "
            ++ (decimal device
                ++ (codes ": no valid samples; last error: " ++ last_error_text group))
        | some u ↦ usage_text device u
      ]

  -- The lines that `summarize` returns.
  unfoldable pub summary_lines : Text → List Sample → List Text
  unfolding devices_of device_line sort_by decimal
  summary_lines path rows =
      (codes "file: " ++ (path ++ (codes "  samples: " ++ decimal (length rows))))
      ∷ (map (device_line rows) (sort_by (λ d. d) (devices_of rows))
          ++ codes
              "Device-wide utilization only; it does not identify a process, task, HCCL operation, or the reason for a wait."
            ∷ [])
