-- ===== src/Watchdog/Snapshot/Files.antt =====
-- A snapshot accounts for every file.
use mathlib.Core.List.Memᴰ
use hang_analyzer.Prelude.{
  ◌≡◌, refl, sym, subst, ◌∙◌, none, Option, ℕ, inl, inr, ⊎_elim, ◌↔◌, some, List, [], ◌∷◌, ◌++◌,
  All, Memᴰ, Text,
}
use hang_analyzer.Prelude.Result.{Result, ok, err, os_error, value_error, struct_error}
use hang_analyzer.Format.{Header}
use hang_analyzer.Watchdog.Captures.{mem-snoc}
use hang_analyzer.Watchdog.Snapshot.{
  Done, Source, Metadata, NpuSmi, not_asked, completed, raised, npu_error, snapshot_npu,
  snapshot_files, snapshot_logs, snapshot,
}
use hang_analyzer.Watchdog.Snapshot.Accounts.{IsSafe, IsEntry, IsAccounted, Extends, file-Extends}

abbrev HasEntryOf : List Source → Header × Text → Type 0
HasEntryOf ss x = (s : Source) × Memᴰ s ss × IsEntry s x

later-IsAccounted :
    {Q : Header × Text → Type 0} {d d' : Metadata} (s : Source)
    → Extends Q d d'
    → IsAccounted s d
    → IsAccounted s d'
later-IsAccounted s ext a =
    ⊎_elim (λ (x, e, m). inl (x, e, (ext.ranks x).1 (inl m)))
      (λ (t, m). inr (t, ext.errors (s.path, t) m)) a

files-Extends :
    (ss : List Source) (d : Metadata)
    → All IsSafe ss
    → (d' : Metadata) × (snapshot_files ss d ≡ some d')
      × Extends (HasEntryOf ss) d d'
      × ((s : Source) → Memᴰ s ss → IsAccounted s d')
unfolding snapshot_files
files-Extends [] d safe = (
  d,
  refl,
  record {
    ranks = λ x. (inl, ⊎_elim (λ m. m) (λ k. absurd (Memᴰ.not-nil k.1)));
    errors = λ x m. m;
    code = refl;
  },
  λ s m. absurd (Memᴰ.not-nil m),
)
files-Extends (s ∷ ss) d safe =
    let (d', q, ext, here) = file-Extends s d safe.0 in
    let (d'', qs, exts, later) = files-Extends ss d' safe.1 in
    (
      d'',
      rw (q, snapshot_files) qs,
      record {
        ranks = λ x. (
          λ m.
              ⊎_elim (λ n. ⊎_elim inl (λ e. inr (s, Memᴰ.head refl, e)) ((ext.ranks x).0 n))
                (λ k. inr (k.0, Memᴰ.tail k.1, k.2)) ((exts.ranks x).0 m),
          ⊎_elim (λ m. (exts.ranks x).1 (inl ((ext.ranks x).1 (inl m))))
              (λ k.
                ⊎_elim
                  (λ e.
                    (exts.ranks x).1 (inl ((ext.ranks x).1 (inr (subst (λ t. IsEntry t x) e k.2)))))
                  (λ t. (exts.ranks x).1 (inr (k.0, t, k.2))) (Memᴰ.cases_cons k.1)),
        );
        errors = λ x m. exts.errors x (ext.errors x m);
        code = exts.code ∙ ext.code;
      },
      λ t m.
          ⊎_elim (λ e. later-IsAccounted t exts (subst (λ y. IsAccounted y d') (sym e) here))
            (later t) (Memᴰ.cases_cons m),
    )

-- Reading the tail of the log raises nothing but an `OSError`.
abbrev pub IsLogSafe : Text × Result Done → Type 0
IsLogSafe (log, ok _) = Unit
IsLogSafe (log, err (os_error m)) = Unit
IsLogSafe (log, err (value_error m)) = ⊥
IsLogSafe (log, err struct_error) = ⊥

logs-Extends :
    (logs : List (Text × Result Done)) (d : Metadata)
    → All IsLogSafe logs
    → (d' : Metadata) × (snapshot_logs logs d ≡ some d') × Extends (λ x. ⊥) d d'
unfolding snapshot_logs
logs-Extends [] d safe = (
  d,
  refl,
  record { ranks = λ x. (inl, ⊎_elim (λ m. m) (λ k. absurd k)); errors = λ x m. m; code = refl },
)
logs-Extends ((log, ok _) ∷ logs) d safe = logs-Extends logs d safe.1
logs-Extends ((log, err (os_error m)) ∷ logs) d safe =
    let (d', q, ext) = logs-Extends logs (record d { errors = d.errors ++ (log, m) ∷ [] }) safe.1 in
    (
      d',
      q,
      record {
        ranks = ext.ranks;
        errors = λ x k. ext.errors x ((mem-snoc x (log, m) d.errors).1 (inl k));
        code = ext.code;
      },
    )
logs-Extends ((log, err (value_error m)) ∷ logs) d safe = absurd safe.0
logs-Extends ((log, err struct_error) ∷ logs) d safe = absurd safe.0

-- Writing the output of `npu-smi` raises nothing but an `OSError`.
abbrev pub IsNpuSafe : NpuSmi → Type 0
IsNpuSafe (completed code (err (value_error m))) = ⊥
IsNpuSafe (completed code (err struct_error)) = ⊥
IsNpuSafe _ = Unit

-- The return code that belongs in the metadata.
abbrev pub code_of : NpuSmi → Option ℕ
code_of (completed code (ok _)) = some code
code_of _ = none

-- The entries stay, and so do the errors.
npu-keeps :
    (npu : NpuSmi) (d : Metadata)
    → IsNpuSafe npu
    → d.npu_smi_returncode ≡ none
    → (d' : Metadata) × (snapshot_npu npu d ≡ some d')
      × (d'.ranks ≡ d.ranks)
      × ((x : Text × Text) → Memᴰ x d.errors → Memᴰ x d'.errors)
      × (d'.npu_smi_returncode ≡ code_of npu)
unfolding snapshot_npu
npu-keeps not_asked d safe fresh = (d, refl, refl, λ x k. k, fresh)
npu-keeps (completed code (ok _)) d safe fresh = (_, refl, refl, λ x k. k, refl)
npu-keeps (completed code (err (os_error m))) d safe fresh =
    (npu_error m d, refl, refl, λ x k. (mem-snoc x _ d.errors).1 (inl k), fresh)
npu-keeps (completed code (err (value_error m))) d safe fresh = absurd safe
npu-keeps (completed code (err struct_error)) d safe fresh = absurd safe
npu-keeps (raised m) d safe fresh =
    (npu_error m d, refl, refl, λ x k. (mem-snoc x _ d.errors).1 (inl k), fresh)

kept-IsAccounted :
    (d d' : Metadata) (s : Source)
    → d'.ranks ≡ d.ranks
    → ((x : Text × Text) → Memᴰ x d.errors → Memᴰ x d'.errors)
    → IsAccounted s d
    → IsAccounted s d'
kept-IsAccounted d d' s same errors a =
    ⊎_elim (λ (x, e, m). inl (x, e, subst (Memᴰ x) (sym same) m))
      (λ (t, m). inr (t, errors (s.path, t) m)) a

-- If the files raise only an `OSError` or a `ValueError`, and the logs and the output of `npu-smi` only
-- an `OSError`, a snapshot is taken; every file has an entry or an error in it, the entries are exactly
-- those of the files whose header could be read and which could be copied, and it has a return code of
-- `npu-smi` exactly if that ended and its output was written.
pub snapshot-IsAccounted :
    (files : List Source) (logs : List (Text × Result Done)) (npu : NpuSmi)
    → All IsSafe files
    → All IsLogSafe logs
    → IsNpuSafe npu
    → (d : Metadata) × (snapshot files logs npu ≡ some d)
      × ((s : Source) → Memᴰ s files → IsAccounted s d)
      × ((x : Header × Text) → Memᴰ x d.ranks ↔ ((s : Source) × Memᴰ s files × IsEntry s x))
      × (d.npu_smi_returncode ≡ code_of npu)
unfolding snapshot
snapshot-IsAccounted files logs npu safe safe_logs safe_npu =
    let (d, q, ext, there) =
      files-Extends files (record { ranks = []; errors = []; npu_smi_returncode = none }) safe in
    let (d', qs, exts) = logs-Extends logs d safe_logs in
    let (e, qn, same, errors, code) = npu-keeps npu d' safe_npu (exts.code ∙ ext.code) in
    (
      e,
      rw (q, snapshot) (rw (qs, snapshot) qn),
      λ s m. kept-IsAccounted d' e s same errors (later-IsAccounted s exts (there s m)),
      λ x. (
        λ m.
            ⊎_elim (λ n. ⊎_elim (λ k. absurd (Memᴰ.not-nil k)) (λ k. k) ((ext.ranks x).0 n))
              (λ k. absurd k) ((exts.ranks x).0 (subst (Memᴰ x) same m)),
        λ k. subst (Memᴰ x) (sym same) ((exts.ranks x).1 (inl ((ext.ranks x).1 (inr k)))),
      ),
      code,
    )
