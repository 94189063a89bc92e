-- ===== src/Analyzer/Scan.antt =====
-- The loop of `analyze` over the events of one rank. `groups`, `event_producers` and `waits` are
-- shared by the ranks; the other collections are fresh for each.
pub mod Scopes
pub mod Collected
pub mod Groups
use Prim.Native.Nat.{bit_and, bit_or}
use hang_analyzer.Prelude.{
  ℕ, Bool, not, ◌&&◌, ◌==◌, Option, none, some, List, [], ◌∷◌, ◌++◌, map, contains, if◌then◌else◌,
  Text, codes, Text-discrete, text_eq, ends_with, replace, Dict, keys, lookup, insert, delete,
  ℕ_discrete,
}
use hang_analyzer.Format.{Event}

abbrev pub checkpoint_submitted : ℕ
checkpoint_submitted = 1

abbrev pub checkpoint_pool_full : ℕ
checkpoint_pool_full = 2

abbrev pub checkpoint_query_error : ℕ
checkpoint_query_error = 4

abbrev pub checkpoint_not_ready : ℕ
checkpoint_not_ready = 8

-- `PAIRS`
abbrev pub pairs : Dict Text Text
pairs =
    (codes "REQUEST_BEGIN", codes "REQUEST_END")
    ∷ (codes "SCHEDULER_BEGIN", codes "SCHEDULER_END")
    ∷ (codes "MODEL_BEGIN", codes "MODEL_END")
    ∷ (codes "GRAPH_BEGIN", codes "GRAPH_END")
    ∷ (codes "KV_BEGIN", codes "KV_END")
    ∷ (codes "PP_SEND_BEGIN", codes "PP_SEND_END")
    ∷ (codes "PP_RECV_BEGIN", codes "PP_RECV_END")
    ∷ (codes "HCCL_BEGIN", codes "HCCL_END")
    ∷ (codes "STREAM_SYNC_BEGIN", codes "STREAM_SYNC_END")
    ∷ (codes "DEVICE_SYNC_BEGIN", codes "DEVICE_SYNC_END")
    ∷ []

-- The key of a host scope: type, correlation and stream.
abbrev pub ScopeKey : Type 0
ScopeKey = Text × ℕ × ℕ

unfoldable pub ScopeKey-discrete : Discrete ScopeKey
ScopeKey-discrete = hlevel ℕ_discrete

-- The pair of communicator and operation of a collective.
abbrev pub PairKey : Type 0
PairKey = ℕ × ℕ

unfoldable pub PairKey-discrete : Discrete PairKey
PairKey-discrete = hlevel ℕ_discrete

unfoldable pub opens : Event → Bool
unfolding contains Text-discrete
opens e = contains Text-discrete e.type (keys pairs)

unfoldable pub closes : Event → Bool
unfolding ends_with
closes e = ends_with e.type (codes "_END")

pub opened_key : Event → ScopeKey
opened_key e = (e.type, e.correlation_id, e.stream)

unfoldable pub closed_key : Event → ScopeKey
unfolding replace
closed_key e = (replace e.type (codes "_END") (codes "_BEGIN"), e.correlation_id, e.stream)

unfoldable pub track_scope : Event → Dict ScopeKey Event → Dict ScopeKey Event
track_scope e pending =
    if opens e
    then insert ScopeKey-discrete (opened_key e) e pending
    else if closes e
    then delete ScopeKey-discrete (closed_key e) pending
    else pending

-- `flags & mask` as a condition
unfoldable pub has_flag : ℕ → Event → Bool
has_flag mask e = not (bit_and e.flags mask == 0)

unfoldable pub is_type : Text → Event → Bool
is_type name e = text_eq e.type name

pub record Shared : Type 0 where
  pub groups : Dict PairKey (Dict ℕ Event)
  pub event_producers : Dict PairKey Event
  pub waits : List Event

pub record RankScan : Type 0 where
  pub pending : Dict ScopeKey Event
  pub confirmed : List Event
  pub checkpoint_submitted : List Event
  pub checkpoint_warnings : List Event
  pub not_ready_observations : List Event

-- `groups[key]` of a `defaultdict(dict)`
unfoldable pub group_of : PairKey → Dict PairKey (Dict ℕ Event) → Dict ℕ Event
group_of key groups = elim (lookup PairKey-discrete key groups) [ none ↦ [] | some g ↦ g ]

-- `groups[(e["arg0"], corr)][rank] = e`
unfoldable pub enter_group : ℕ → Event → Dict PairKey (Dict ℕ Event) → Dict PairKey (Dict ℕ Event)
enter_group rank e groups =
    let key : PairKey = (e.arg0, e.correlation_id) in
    insert PairKey-discrete key (insert ℕ_discrete rank e (group_of key groups)) groups

unfoldable pub scan_shared : ℕ → Event → Shared → Shared
scan_shared rank e s = record {
  groups = if is_type (codes "HCCL_BEGIN") e then enter_group rank e s.groups else s.groups;
  event_producers =
      if is_type (codes "EVENT_RECORD") e
      then insert PairKey-discrete (rank, e.correlation_id) e s.event_producers
      else s.event_producers;
  waits = if is_type (codes "EVENT_WAIT") e then s.waits ++ e ∷ [] else s.waits;
}

-- `if test: items.append(e)`
unfoldable pub append_if : Bool → Event → List Event → List Event
append_if test e items = if test then items ++ e ∷ [] else items

unfoldable pub scan_rank : Event → RankScan → RankScan
scan_rank e s =
    let checkpoint = is_type (codes "CHECKPOINT") e in
    record {
      pending = track_scope e s.pending;
      confirmed = append_if (is_type (codes "DEVICE_CONFIRMED") e) e s.confirmed;
      checkpoint_submitted =
          append_if (checkpoint && has_flag checkpoint_submitted e) e s.checkpoint_submitted;
      checkpoint_warnings =
          append_if (checkpoint && has_flag (bit_or checkpoint_pool_full checkpoint_query_error) e)
            e s.checkpoint_warnings;
      not_ready_observations =
          append_if (checkpoint && has_flag checkpoint_not_ready e) e s.not_ready_observations;
    }

-- `for e in ev`
unfoldable pub scan_events : List Event → RankScan → RankScan
scan_events [] s = s
scan_events (e ∷ es) s = scan_events es (scan_rank e s)

unfoldable pub scan_events_shared : ℕ → List Event → Shared → Shared
scan_events_shared rank [] s = s
scan_events_shared rank (e ∷ es) s = scan_events_shared rank es (scan_shared rank e s)

abbrev pub fresh : RankScan
fresh = record {
  pending = [];
  confirmed = [];
  checkpoint_submitted = [];
  checkpoint_warnings = [];
  not_ready_observations = [];
}
