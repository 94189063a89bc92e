-- ===== src/Analyzer/Progress/Streams.antt =====
-- What the progress of a stream says about its checkpoints.
use mathlib.Core.List.{head?, get_last?}
use hang_analyzer.Prelude.{
  ℕ, suc, ◌+◌, ◌≤◌, ◌<◌, ◌≡◌, ◌≢◌, refl, ap, ap₂, ◌∙◌, Bool, true, false, ◌⊎◌, inl, inr, none, some,
  List, [], ◌∷◌, ◌++◌, map, length, length-append, passing, Dict, lookup, if◌then◌else◌, arith,
}
use hang_analyzer.Format.{Event}
use hang_analyzer.Analyzer.Progress.{
  CheckpointKey, CheckpointKey-discrete, checkpoint_key, is_confirmed, Status, confirmed_exact,
  confirmed_by_later_checkpoint, unconfirmed, status_of, mappings, Progress, progress_upto,
  stream_progress,
}
use hang_analyzer.Analyzer.Progress.Split.{NonePass, cut, length-indices}

get_last?_of_ne : (es : List Event) → es ≢ [] → (e : Event) × (get_last? es ≡ some e)
get_last?_of_ne [] h = absurd (h refl)
get_last?_of_ne (x ∷ []) h = (x, refl)
get_last?_of_ne (x ∷ y ∷ es) h = get_last?_of_ne (y ∷ es) (λ e. cc)

module _ (exact : Dict CheckpointKey Event) where
  abbrev p : Event → Bool
  p = is_confirmed exact

  -- The status of a checkpoint at or before the last one that is exactly confirmed.
  abbrev pub settled : Event → Status
  settled e = if is_confirmed exact e then confirmed_exact else confirmed_by_later_checkpoint

  abbrev statuses : ℕ → ℕ → List Event → List Status
  statuses end i es = map (λ m. m.status) (mappings exact end i es)

  settled_here :
      (x : Event) (i end : ℕ)
      → i < end
      → status_of (lookup CheckpointKey-discrete (checkpoint_key x) exact) i end ≡ settled x
  unfolding status_of is_confirmed
  settled_here x i end h = ground arith

  unconfirmed_here :
      (x : Event) (i end : ℕ)
      → end ≤ i
      → is_confirmed exact x ≡ false
      → status_of (lookup CheckpointKey-discrete (checkpoint_key x) exact) i end ≡ unconfirmed
  unfolding status_of is_confirmed
  unconfirmed_here x i end h n = ground arith

  statuses_before :
      (end i : ℕ) (xs ys : List Event)
      → i + length xs ≤ end
      → statuses end i (xs ++ ys) ≡ map settled xs ++ statuses end (i + length xs) ys
  unfolding mappings
  statuses_before end i [] ys h = ap (λ j. statuses end j ys) (omega arith)
  statuses_before end i (x ∷ xs) ys h =
      let rest = statuses_before end (i + 1) xs ys (omega arith) in
      let shift : i + 1 + length xs ≡ i + suc (length xs) = omega arith in
      let tail = rest ∙ ap (λ j. map settled xs ++ statuses end j ys) shift in
      λ k. settled_here x i end (omega arith) k ∷ tail k

  statuses_behind :
      (end i : ℕ) (ys : List Event)
      → end ≤ i
      → NonePass p ys
      → statuses end i ys ≡ map (λ _. unconfirmed) ys
  unfolding mappings
  statuses_behind end i [] h n = refl
  statuses_behind end i (y ∷ ys) h n =
      λ k. unconfirmed_here y i end h n.0 k ∷ statuses_behind end (i + 1) ys (omega arith) n.1 k

  -- The report on a stream: the checkpoints are `through ++ open_`, the last of `through` is exactly
  -- confirmed and none of `open_` is.
  pub record Describes (not_ready checkpoints : List Event) (r : Progress) : Type 0 where
    pub through : List Event
    pub open_ : List Event
    pub parts : checkpoints ≡ through ++ open_
    pub none_open : NonePass (is_confirmed exact) open_
    pub last :
        ((through ≡ []) × (r.confirmed_through ≡ none) × (r.completed_seq ≡ 0))
        ⊎ ((before : List Event) × (e : Event) × (through ≡ before ++ e ∷ [])
            × (is_confirmed exact e ≡ true)
            × (r.confirmed_through ≡ some e)
            × (r.completed_seq ≡ e.arg0))
    pub first_open : r.first_unconfirmed ≡ head? open_
    pub last_open : r.last_unconfirmed ≡ get_last? open_
    pub open_count : r.unconfirmed_count ≡ length open_
    pub count : r.submitted_count ≡ length through + length open_
    pub exact_count :
        r.explicitly_confirmed_count ≡ length (passing (is_confirmed exact) checkpoints)
    pub statuses_of :
        map (λ m. m.status) r.checkpoint_mappings
        ≡ map settled through ++ map (λ _. unconfirmed) open_

  progress_upto-Describes :
      (not_ready checkpoints : List Event) (last : Event)
      → Describes not_ready checkpoints (progress_upto exact not_ready checkpoints last)
  unfolding progress_upto
  progress_upto-Describes not_ready checkpoints last =
      let c = cut p checkpoints in
      let n = length c.through in
      record {
        through = c.through;
        open_ = c.open_;
        parts = c.parts;
        none_open = c.none_open;
        last = elim c.last [
          | inl (empty, missing) ↦ inl (empty, missing, rw (missing, progress_upto))
          | inr (before, e, q, h, found) ↦ inr (before, e, q, h, found, rw (found, progress_upto))
        ];
        first_open = ap head? c.after;
        last_open = ap get_last? c.after;
        open_count = ap length c.after;
        count = ap length c.parts ∙ length-append c.through c.open_;
        exact_count = length-indices p 0 checkpoints;
        statuses_of =
            ap₂ (λ end es. statuses end 0 es) c.ends c.parts
            ∙ statuses_before n 0 c.through c.open_ (omega arith)
            ∙ ap (λ l. map settled c.through ++ l)
                (statuses_behind n (0 + n) c.open_ (omega arith) c.none_open);
      }

  -- A stream with checkpoints has a progress, which splits them at the last one that is exactly
  -- confirmed: `completed_seq` is that one's sequence number, all behind it are unconfirmed, and all
  -- up to it are confirmed, exactly or by a later one.
  pub stream_progress-Describes :
      (not_ready checkpoints : List Event)
      → checkpoints ≢ []
      → (r : Progress) × (stream_progress exact not_ready checkpoints ≡ some r)
        × Describes not_ready checkpoints r
  unfolding stream_progress
  stream_progress-Describes not_ready checkpoints some_checkpoints =
      let (last, found) = get_last?_of_ne checkpoints some_checkpoints in
      (
        progress_upto exact not_ready checkpoints last,
        rw found,
        progress_upto-Describes not_ready checkpoints last,
      )
