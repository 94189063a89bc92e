-- ===== src/Watchdog/Snapshot/Accounts.antt =====
-- A snapshot accounts for one file.
use hang_analyzer.Prelude.{
  ◌≡◌, refl, sym, ap, ◌∙◌, ◌⊎◌, inl, inr, ⊎_elim, ◌↔◌, some, List, [], ◌∷◌, ◌++◌, Memᴰ, Text,
}
use hang_analyzer.Prelude.Result.{Result, ok, err, Error, os_error, value_error, struct_error}
use hang_analyzer.Format.{Header, read_header}
use hang_analyzer.Format.Errors.{IsCaught, read_header-IsCaught}
use hang_analyzer.Watchdog.Captures.{mem-snoc}
use hang_analyzer.Watchdog.Snapshot.{
  Done, Source, Metadata, caught, after_collect, after_copy, snapshot_file,
}

-- Whatever goes wrong with the file is an `OSError` or a `ValueError`.
pub record IsSafe (s : Source) : Type 0 where
  pub content : IsCaught s.content
  pub copied : IsCaught s.copied
  pub collected : IsCaught s.collected

-- The entry is about this file, whose header could be read and which could be copied.
abbrev pub IsEntry : Source → Header × Text → Type 0
IsEntry s x = (read_header s.path s.content ≡ ok x.0) × (s.copied ≡ ok tt) × (x.1 ≡ s.name)

-- The file has an entry or an error.
abbrev pub IsAccounted : Source → Metadata → Type 0
IsAccounted s d =
    ((x : Header × Text) × IsEntry s x × Memᴰ x d.ranks) ⊎ ((m : Text) × Memᴰ (s.path, m) d.errors)

pub record Extends (Q : Header × Text → Type 0) (d d' : Metadata) : Type 0 where
  pub ranks : (x : Header × Text) → Memᴰ x d'.ranks ↔ (Memᴰ x d.ranks ⊎ Q x)
  pub errors : (x : Text × Text) → Memᴰ x d.errors → Memᴰ x d'.errors
  pub code : d'.npu_smi_returncode ≡ d.npu_smi_returncode

-- An error is added, and no entry.
caught-Extends :
    (path : Text) (e : Error) (d : Metadata) (Q : Header × Text → Type 0)
    → IsCaught {A = Done} (err e)
    → ((x : Header × Text) → ¬ Q x)
    → (d' : Metadata) × (caught path e d ≡ some d')
      × Extends Q d d'
      × ((m : Text) × Memᴰ (path, m) d'.errors)
unfolding caught
caught-Extends path (os_error m) d Q c n = (
  record d { errors = d.errors ++ (path, m) ∷ [] },
  refl,
  record {
    ranks = λ x. (inl, ⊎_elim (λ k. k) (λ q. absurd (n x q)));
    errors = λ x k. (mem-snoc x (path, m) d.errors).1 (inl k);
    code = refl;
  },
  (m, (mem-snoc (path, m) (path, m) d.errors).1 (inr refl)),
)
caught-Extends path (value_error m) d Q c n = (
  record d { errors = d.errors ++ (path, m) ∷ [] },
  refl,
  record {
    ranks = λ x. (inl, ⊎_elim (λ k. k) (λ q. absurd (n x q)));
    errors = λ x k. (mem-snoc x (path, m) d.errors).1 (inl k);
    code = refl;
  },
  (m, (mem-snoc (path, m) (path, m) d.errors).1 (inr refl)),
)
caught-Extends path struct_error d Q c n = absurd c

header_injective : {g h : Header} → ok g ≡ ok h → g ≡ h
header_injective {g = g} e = ap header e
  where
    header : Result Header → Header
    header (ok h) = h
    header (err _) = g

-- The entry that is added is the file's.
entered :
    (s : Source) (h : Header) (d : Metadata)
    → read_header s.path s.content ≡ ok h
    → s.copied ≡ ok tt
    → (x : Header × Text) → Memᴰ x (d.ranks ++ (h, s.name) ∷ []) ↔ (Memᴰ x d.ranks ⊎ IsEntry s x)
entered s h d q k x =
    let snoc = mem-snoc x (h, s.name) d.ranks in
    (
      λ m. ⊎_elim inl (λ e. inr (q ∙ ap (λ y. ok y.0) (sym e), k, ap (λ y. y.1) e)) (snoc.0 m),
      λ m. snoc.1 (⊎_elim inl (λ (r, _, n). inr (λ i. (header_injective (sym r ∙ q) i, n i))) m),
    )

-- The metadata with the file's entry and with these errors.
abbrev with_entry : Source → Header → Metadata → List (Text × Text) → Metadata
with_entry s h d errors = record d { ranks = d.ranks ++ (h, s.name) ∷ []; errors = errors }

with_entry-IsAccounted :
    (s : Source) (h : Header) (d : Metadata) (errors : List (Text × Text))
    → read_header s.path s.content ≡ ok h
    → s.copied ≡ ok tt
    → IsAccounted s (with_entry s h d errors)
with_entry-IsAccounted s h d errors q k =
    inl ((h, s.name), (q, k, refl), (mem-snoc (h, s.name) (h, s.name) d.ranks).1 (inr refl))

with_entry-Extends :
    (s : Source) (h : Header) (d : Metadata) (m : Text)
    → read_header s.path s.content ≡ ok h
    → s.copied ≡ ok tt
    → Extends (IsEntry s) d (with_entry s h d (d.errors ++ (s.path, m) ∷ []))
with_entry-Extends s h d m q k = record {
  ranks = entered s h d q k;
  errors = λ x e. (mem-snoc x (s.path, m) d.errors).1 (inl e);
  code = refl;
}

collected-Extends :
    (s : Source) (h : Header) (r : Result Done) (d : Metadata)
    → IsCaught r
    → read_header s.path s.content ≡ ok h
    → s.copied ≡ ok tt
    → (d' : Metadata) × (after_collect s.path r (with_entry s h d d.errors) ≡ some d')
      × Extends (IsEntry s) d d'
      × IsAccounted s d'
unfolding after_collect caught
collected-Extends s h (ok _) d c q k = (
  with_entry s h d d.errors,
  refl,
  record { ranks = entered s h d q k; errors = λ x e. e; code = refl },
  with_entry-IsAccounted s h d d.errors q k,
)
collected-Extends s h (err (os_error m)) d c q k = (
  with_entry s h d (d.errors ++ (s.path, m) ∷ []),
  refl,
  with_entry-Extends s h d m q k,
  with_entry-IsAccounted s h d (d.errors ++ (s.path, m) ∷ []) q k,
)
collected-Extends s h (err (value_error m)) d c q k = (
  with_entry s h d (d.errors ++ (s.path, m) ∷ []),
  refl,
  with_entry-Extends s h d m q k,
  with_entry-IsAccounted s h d (d.errors ++ (s.path, m) ∷ []) q k,
)
collected-Extends s h (err struct_error) d c q k = absurd c

copied-Extends :
    (s : Source) (h : Header) (r : Result Done) (d : Metadata)
    → IsCaught r
    → IsCaught s.collected
    → read_header s.path s.content ≡ ok h
    → s.copied ≡ r
    → (d' : Metadata) × (after_copy s h r d ≡ some d') × Extends (IsEntry s) d d' × IsAccounted s d'
unfolding after_copy
copied-Extends s h (ok _) d c safe q k = collected-Extends s h s.collected d safe q k
copied-Extends s h (err e) d c safe q k =
    let (d', runs, ext, m) =
      caught-Extends s.path e d (IsEntry s) c (λ x (_, copy, _). ok_not_err (sym copy ∙ k)) in
    (d', runs, ext, inr m)
  where
    ok_not_err : {a : Done} {e : Error} → ¬ (ok a ≡ err e)
    ok_not_err z = cc

-- A file without other exceptions is accounted for, with an entry exactly if it is due.
pub file-Extends :
    (s : Source) (d : Metadata)
    → IsSafe s
    → (d' : Metadata) × (snapshot_file s d ≡ some d') × Extends (IsEntry s) d d' × IsAccounted s d'
unfolding snapshot_file
file-Extends s d safe =
    go (read_header s.path s.content) refl (read_header-IsCaught s.path s.content safe.content)
  where
    ok_not_err : {a : Header} {e : Error} → ¬ (ok a ≡ err e)
    ok_not_err z = cc

    go :
        (r : Result Header)
        → read_header s.path s.content ≡ r
        → IsCaught r
        → (d' : Metadata) × (snapshot_file s d ≡ some d')
          × Extends (IsEntry s) d d'
          × IsAccounted s d'
    go (ok h) q c =
        let (d', runs, ext, there) =
          copied-Extends s h s.copied d safe.copied safe.collected q refl in
        (d', rw (q, snapshot_file) runs, ext, there)
    go (err e) q c =
        let (d', runs, ext, m) =
          caught-Extends s.path e d (IsEntry s) c (λ x (r, _, _). ok_not_err (sym r ∙ q)) in
        (d', rw (q, snapshot_file) runs, ext, inr m)
