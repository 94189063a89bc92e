-- ===== src/Analyzer/Progress.antt =====
-- The checkpoint progress of a rank, stream by stream, and its stale confirmations.
pub mod Split
pub mod Streams
pub mod Exact
pub mod Grouped
pub mod Settled
use mathlib.Core.Option
use mathlib.Core.List.{head?, get_last?}
use hang_analyzer.Prelude.{
  ℕ, zero, suc, ◌+◌, ◌==◌, max, Bool, true, false, not, ◌&&◌, Option, none, some, List, [], ◌∷◌,
  ◌++◌, map, length, drop, get_elem?, passing, contains, leb, if◌then◌else◌, sort_by, Dict, lookup,
  insert, ℕ_discrete, ◌>>=◌,
}
use hang_analyzer.Format.{Event}

-- `(e["stream"], e["correlation_id"], e["arg0"], e["arg1"])`
abbrev pub CheckpointKey : Type 0
CheckpointKey = ℕ × ℕ × ℕ × ℕ

unfoldable pub CheckpointKey-discrete : Discrete CheckpointKey
CheckpointKey-discrete = hlevel ℕ_discrete

abbrev pub checkpoint_key : Event → CheckpointKey
checkpoint_key e = (e.stream, e.correlation_id, e.arg0, e.arg1)

-- `exact_confirmations`: a later confirmation of the same checkpoint replaces an earlier one.
pub record_confirmations : List Event → Dict CheckpointKey Event → Dict CheckpointKey Event
record_confirmations [] d = d
record_confirmations (e ∷ es) d =
    record_confirmations es
      (if not (e.arg1 == 0) then insert CheckpointKey-discrete (checkpoint_key e) e d else d)

unfoldable pub exact_confirmations : List Event → Dict CheckpointKey Event
unfolding record_confirmations insert
exact_confirmations confirmed = record_confirmations confirmed []

-- `key in exact_confirmations`
unfoldable pub is_confirmed : Dict CheckpointKey Event → Event → Bool
unfolding lookup
is_confirmed exact e = elim (lookup CheckpointKey-discrete (checkpoint_key e) exact) [
  | none ↦ false
  | some _ ↦ true
]

-- `by_stream`, whose lists keep the order of the submissions
unfoldable pub by_stream : List Event → Dict ℕ (List Event) → Dict ℕ (List Event)
by_stream [] d = d
by_stream (e ∷ es) d =
    let old : List Event = elim (lookup ℕ_discrete e.stream d) [ none ↦ [] | some l ↦ l ] in
    by_stream es (insert ℕ_discrete e.stream (old ++ e ∷ []) d)

-- `[i for i, e in enumerate(checkpoints) if ...]`, from index `i` on
unfoldable pub indices : (Event → Bool) → ℕ → List Event → List ℕ
indices p i [] = []
indices p i (e ∷ es) = let rest = indices p (i + 1) es in if p e then i ∷ rest else rest

-- `max(confirmed_indices) if confirmed_indices else -1`; `none` stands for -1.
unfoldable pub maximum : List ℕ → Option ℕ
maximum [] = none
maximum (i ∷ is) = elim (maximum is) [ none ↦ some i | some m ↦ some (max i m) ]

-- `last_index + 1`
abbrev pub end_of : Option ℕ → ℕ
end_of none = 0
end_of (some i) = suc i

pub data Status : Type 0 where
  confirmed_exact confirmed_by_later_checkpoint unconfirmed : Status

pub record Mapping : Type 0 where
  pub submitted_seq : ℕ
  pub checkpoint_id : ℕ
  pub generation : ℕ
  pub status : Status
  pub confirmation_record_seq : Option ℕ

-- `i <= last_index` is `i < end`
unfoldable pub status_of : Option Event → ℕ → ℕ → Status
status_of (some _) i end = confirmed_exact
status_of none i end = if leb (suc i) end then confirmed_by_later_checkpoint else unconfirmed

unfoldable pub mappings : Dict CheckpointKey Event → ℕ → ℕ → List Event → List Mapping
mappings exact end i [] = []
mappings exact end i (e ∷ es) =
    let confirmation = lookup CheckpointKey-discrete (checkpoint_key e) exact in
    record {
      submitted_seq = e.arg0;
      checkpoint_id = e.correlation_id;
      generation = e.arg1;
      status = status_of confirmation i end;
      confirmation_record_seq = Option.map (λ (c : Event). c.seq) confirmation;
    }
    ∷ mappings exact end (i + 1) es

pub record Progress : Type 0 where
  pub submitted_count : ℕ
  pub explicitly_confirmed_count : ℕ
  pub submitted_seq : ℕ
  pub completed_seq : ℕ
  pub confirmed_through : Option Event
  pub first_unconfirmed : Option Event
  pub last_unconfirmed : Option Event
  pub unconfirmed_count : ℕ
  pub not_ready_observed : ℕ
  pub checkpoint_mappings : List Mapping

-- `checkpoints[last_index]`
unfoldable pub item_at : List Event → Option ℕ → Option Event
item_at es none = none
item_at es (some i) = get_elem? es i

-- The dict for one stream, its checkpoints sorted; `last` is `checkpoints[-1]`.
unfoldable pub progress_upto : Dict CheckpointKey Event → List Event → List Event → Event → Progress
unfolding is_confirmed indices maximum item_at mappings status_of passing contains
progress_upto exact not_ready checkpoints last =
    let confirmed_indices = indices (is_confirmed exact) 0 checkpoints in
    let last_index = maximum confirmed_indices in
    let after = drop (end_of last_index) checkpoints in
    let through = item_at checkpoints last_index in
    let keys_not_ready = map checkpoint_key not_ready in
    record {
      submitted_count = length checkpoints;
      explicitly_confirmed_count = length confirmed_indices;
      submitted_seq = last.arg0;
      completed_seq = elim through [ none ↦ 0 | some e ↦ e.arg0 ];
      confirmed_through = through;
      first_unconfirmed = head? after;
      last_unconfirmed = get_last? after;
      unconfirmed_count = length after;
      not_ready_observed =
          length (
            passing (λ e. contains CheckpointKey-discrete (checkpoint_key e) keys_not_ready) after);
      checkpoint_mappings = mappings exact (end_of last_index) 0 checkpoints;
    }

-- `none` stands for the `IndexError` of `checkpoints[-1]`.
unfoldable pub stream_progress :
    Dict CheckpointKey Event → List Event → List Event → Option Progress
stream_progress exact not_ready checkpoints =
    Option.map (progress_upto exact not_ready checkpoints) (get_last? checkpoints)

unfoldable pub progress_of :
    Dict CheckpointKey Event → List Event → Dict ℕ (List Event) → Option (Dict ℕ Progress)
progress_of exact not_ready [] = some []
progress_of exact not_ready ((stream, checkpoints) ∷ rest) = do
  p ← stream_progress exact not_ready (sort_by (λ (e : Event). e.seq) checkpoints)
  ps ← progress_of exact not_ready rest
  some ((stream, p) ∷ ps)

-- `progress`, from the lists that the scan collected
unfoldable pub device_progress : List Event → List Event → List Event → Option (Dict ℕ Progress)
unfolding exact_confirmations by_stream progress_of stream_progress progress_upto sort_by
device_progress confirmed submitted not_ready =
    progress_of (exact_confirmations confirmed) not_ready (by_stream submitted [])

-- The test of the comprehension for `stale_confirmations`.
unfoldable pub is_stale : List Event → Event → Bool
unfolding contains
is_stale submitted e =
    not (e.arg1 == 0)
    && not (contains CheckpointKey-discrete (checkpoint_key e) (map checkpoint_key submitted))

unfoldable pub stale_confirmations : List Event → List Event → List Event
unfolding passing is_stale
stale_confirmations confirmed submitted = passing (is_stale submitted) confirmed
