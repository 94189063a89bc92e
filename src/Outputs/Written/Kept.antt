-- ===== src/Outputs/Written/Kept.antt =====
-- Which files `write_outputs` leaves, and for which reason it ends there.
use hang_analyzer.Prelude.{
  ℕ, ◌≡◌, ◌≢◌, refl, sym, ap, ◌∙◌, inl, inr, Bool, true, false, Bool-cases, Option-cases, none,
  some, List, [], ◌∷◌, ◌++◌, map, All, Memᴰ, if◌then◌else◌, Text, codes, Dict, subst, arith,
}
use hang_analyzer.Prelude.Result.{ok}
use hang_analyzer.Format.{Event}
use hang_analyzer.Format.Errors.{IsCaught}
use hang_analyzer.Analyzer.Select.{Read}
use hang_analyzer.Analyzer.Report.{Report}
use hang_analyzer.Outputs.Lines.{report_lines}
use hang_analyzer.Outputs.Full.{trace, event_lines, merge_paths}
use hang_analyzer.Outputs.Full.Merged.{merge_paths-lists}
use hang_analyzer.Outputs.Written.{
  MetadataRead, absent, unreadable, not_object, item, snapshot_lines, File, report_json, report_txt,
  trace_json, events_txt, snapshots_txt, name_of, Disk, Ending, completed, os_failed, type_failed,
  attribute_failed, Written, store, store_snapshots, store_merged, store_report, write_outputs,
}

abbrev pub all_names : List Text
all_names =
    codes "report.json"
    ∷ codes "report.txt"
    ∷ codes "trace.json"
    ∷ codes "events.txt"
    ∷ codes "snapshots.txt"
    ∷ []

abbrev pub HasObject : Text × MetadataRead → Type 0
HasObject p = p.1 ≢ not_object

-- Why the writing ends when these names are left.
pub data Stops (disk : Disk) (parents : List (Text × MetadataRead))
    : List Text → Ending → Type 0 where
  all_written : disk.makes ≡ true → All HasObject parents → Stops disk parents [] completed
  no_directory : disk.makes ≡ false → Stops disk parents all_names os_failed
  no_space :
      (name : Text) (names : List Text)
      → disk.makes ≡ true
      → disk.takes name ≡ false
      → Stops disk parents (name ∷ names) os_failed
  no_object :
      (parent : Text)
      → disk.makes ≡ true
      → Memᴰ (parent, not_object) parents
      → Stops disk parents (codes "snapshots.txt" ∷ []) attribute_failed

no_object_in :
    (parents : List (Text × MetadataRead))
    → snapshot_lines parents ≡ none
    → (parent : Text) × Memᴰ (parent, not_object) parents
unfolding snapshot_lines
no_object_in [] q = cc
no_object_in ((p, absent) ∷ rest) q = let (parent, m) = no_object_in rest q in (parent, Memᴰ.tail m)
no_object_in ((p, unreadable) ∷ rest) q =
    let (parent, m) = no_object_in rest q in (parent, Memᴰ.tail m)
no_object_in ((p, not_object) ∷ rest) q = (p, Memᴰ.head refl)
no_object_in ((p, item a b) ∷ rest) q = elim (Option-cases (snapshot_lines rest)) [
  | inl absent_there ↦ let (parent, m) = no_object_in rest absent_there in (parent, Memᴰ.tail m)
  | inr (lines, found) ↦ absurd (ground (arith, found, q))
]

all_objects :
    (parents : List (Text × MetadataRead)) (lines : List Text)
    → snapshot_lines parents ≡ some lines
    → All HasObject parents
unfolding snapshot_lines
all_objects [] lines q = tt
all_objects ((p, absent) ∷ rest) lines q = (λ e. cc e, all_objects rest lines q)
all_objects ((p, unreadable) ∷ rest) lines q = (λ e. cc e, all_objects rest lines q)
all_objects ((p, not_object) ∷ rest) lines q = cc
all_objects ((p, item a b) ∷ rest) lines q = elim (Option-cases (snapshot_lines rest)) [
  | inl absent_there ↦ absurd (ground (arith, absent_there, q))
  | inr (ls, found) ↦ (λ e. cc e, all_objects rest ls found)
]

module _ (shown_ms : ℕ → ℕ → Text) (disk : Disk) (r : Report) (reads : List Read)
    (parents : List (Text × MetadataRead)) where
  -- The file holds what it is to hold.
  unfoldable pub HasContent : File → Type 0
  HasContent (report_json q) = q ≡ r
  HasContent (report_txt lines) = report_lines r ≡ some lines
  HasContent (trace_json events) =
      (full : Dict ℕ (List Event)) × (merge_paths r.ranks reads [] ≡ ok full)
      × (events ≡ trace full r.ranks)
  HasContent (events_txt lines) =
      (full : Dict ℕ (List Event)) × (merge_paths r.ranks reads [] ≡ ok full)
      × (lines ≡ event_lines shown_ms full r.ranks)
  HasContent (snapshots_txt lines) = snapshot_lines parents ≡ some lines

  -- The files are the first of these names, each accepted by the disk and with its content, and the
  -- writing ends there for a reason.
  pub record Keeps (names : List Text) (w : Written) : Type 0 where
    pub left : List Text
    pub order : map name_of w.0 ++ left ≡ names
    pub taken : All (λ f. (disk.takes (name_of f) ≡ true) × HasContent f) w.0
    pub stops : Stops disk parents left w.1

  module _ (made : disk.makes ≡ true) where
    store-Keeps :
        (f : File) {names : List Text} {w : Written}
        → HasContent f
        → Keeps names w
        → Keeps (name_of f ∷ names) (store disk f w)
    unfolding store
    store-Keeps f {names} {w} c k = elim (Bool-cases (disk.takes (name_of f))) [
      | inl t ↦ rw t (record {
        left = k.left;
        order = ap (λ ns. name_of f ∷ ns) k.order;
        taken = ((t, c), k.taken);
        stops = k.stops;
      })
      | inr t ↦ rw t (record {
        left = name_of f ∷ names;
        order = refl;
        taken = tt;
        stops = no_space (name_of f) names made t;
      })
    ]

    store_snapshots-Keeps :
        (rs : List Read)
        → rs ≢ []
        → Keeps (codes "snapshots.txt" ∷ []) (store_snapshots disk rs parents)
    unfolding store_snapshots HasContent name_of
    store_snapshots-Keeps [] n = absurd (n refl)
    store_snapshots-Keeps (x ∷ rs) n = elim (Option-cases (snapshot_lines parents)) [
      | inl q ↦
          let (parent, m) = no_object_in parents q in
          rw (store_snapshots, q)
            (record {
              left = codes "snapshots.txt" ∷ [];
              order = refl;
              taken = tt;
              stops = no_object parent made m;
            })
      | inr (lines, q) ↦
          rw (store_snapshots, q)
            (store-Keeps (snapshots_txt lines) q (record {
              left = [];
              order = refl;
              taken = tt;
              stops = all_written made (all_objects parents lines q);
            }))
    ]

    store_merged-Keeps :
        (full : Dict ℕ (List Event))
        → reads ≢ []
        → merge_paths r.ranks reads [] ≡ ok full
        → Keeps
            (codes "trace.json" ∷ codes "events.txt" ∷ codes "snapshots.txt" ∷ [])
            (store_merged shown_ms disk r reads parents full)
    unfolding store_merged HasContent name_of
    store_merged-Keeps full n runs =
        store-Keeps (trace_json (trace full r.ranks)) (full, runs, refl)
          (store-Keeps (events_txt (event_lines shown_ms full r.ranks)) (full, runs, refl)
            (store_snapshots-Keeps reads n))

    store_report-Keeps :
        (lines : List Text)
        → reads ≢ []
        → All IsCaught reads
        → report_lines r ≡ some lines
        → Keeps
            (codes "report.txt"
              ∷ codes "trace.json"
              ∷ codes "events.txt"
              ∷ codes "snapshots.txt"
              ∷ [])
            (store_report shown_ms disk r reads parents lines)
    unfolding store_report HasContent name_of
    store_report-Keeps lines n c shown =
        let (full, runs, _) = merge_paths-lists r.ranks reads c in
        store-Keeps (report_txt lines) shown (rw runs (store_merged-Keeps full n runs))

    made_lem :
        (lines : List Text)
        → report_lines r ≡ some lines
        → write_outputs shown_ms disk r reads parents
          ≡ store disk (report_json r) (store_report shown_ms disk r reads parents lines)
    unfolding write_outputs
    made_lem lines shown =
        ap
          (λ (b : Bool).
            if b
            then store disk (report_json r) (elim (report_lines r) [
              | none ↦ ([], type_failed)
              | some ls ↦ store_report shown_ms disk r reads parents ls
            ])
            else ([], os_failed))
          made
        ∙ rw shown refl

    made-Keeps :
        (lines : List Text)
        → reads ≢ []
        → All IsCaught reads
        → report_lines r ≡ some lines
        → Keeps all_names (write_outputs shown_ms disk r reads parents)
    unfolding write_outputs HasContent name_of
    made-Keeps lines n c shown =
        subst (Keeps all_names) (sym (made_lem lines shown))
          (store-Keeps (report_json r) refl (store_report-Keeps lines n c shown))

  -- If the second pass over the files, of which there are some, raises only what is caught, then for a report
  -- with lines `write_outputs` writes the five files in their order until the disk refuses one or a
  -- metadata file holds no object; what is written has its content.
  pub write_outputs-Keeps :
      (lines : List Text)
      → reads ≢ []
      → All IsCaught reads
      → report_lines r ≡ some lines
      → Keeps all_names (write_outputs shown_ms disk r reads parents)
  unfolding write_outputs
  write_outputs-Keeps lines n c shown = elim (Bool-cases disk.makes) [
    | inl made ↦ made-Keeps made lines n c shown
    | inr missing ↦
        subst (Keeps all_names) (sym (unmade_lem missing))
          (record { left = all_names; order = refl; taken = tt; stops = no_directory missing })
  ]
    where
      unmade_lem :
          disk.makes ≡ false → write_outputs shown_ms disk r reads parents ≡ ([], os_failed)
      unmade_lem missing =
          ap
            (λ (b : Bool).
              if b
              then store disk (report_json r) (elim (report_lines r) [
                | none ↦ ([], type_failed)
                | some ls ↦ store_report shown_ms disk r reads parents ls
              ])
              else ([], os_failed))
            missing
