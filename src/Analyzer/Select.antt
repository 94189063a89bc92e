-- ===== src/Analyzer/Select.antt =====
-- The first loop of `analyze`: one latest file for each rank, and the errors of the others.
pub mod Latest
use hang_analyzer.Prelude.{
  ℕ, Bool, true, Option, none, some, List, [], ◌∷◌, ◌++◌, ltb, if◌then◌else◌, Text, Dict, lookup,
  insert, ℕ_discrete,
}
use hang_analyzer.Prelude.Result.{
  Result, ok, err, Error, os_error, value_error, struct_error, ◌>>=◌,
}
use hang_analyzer.Format.{Header, Event}

-- What `read_events` returned for a path, or raised.
abbrev pub Read : Type 0
Read = Result (Header × List Event)

-- `{"header": h, "events": ev}`
pub record RankData : Type 0 where
  pub header : Header
  pub events : List Event

pub record Selection : Type 0 where
  pub ranks : Dict ℕ RankData
  pub errors : List Text

-- `old is None or h["write_seq"] > old["header"]["write_seq"]`
unfoldable pub replaces : Header → Option RankData → Bool
replaces h none = true
replaces h (some old) = ltb old.header.write_seq h.write_seq

-- The body of the loop; an exception that is not caught ends `analyze`.
unfoldable pub select_path : Read → Selection → Result Selection
unfolding replaces
select_path (ok (h, ev)) s = ok (
    if replaces h (lookup ℕ_discrete h.rank s.ranks)
    then record s { ranks = insert ℕ_discrete h.rank (record { header = h; events = ev }) s.ranks }
    else s)
select_path (err (os_error m)) s = ok (record s { errors = s.errors ++ m ∷ [] })
select_path (err (value_error m)) s = ok (record s { errors = s.errors ++ m ∷ [] })
select_path (err struct_error) s = err struct_error

unfoldable pub select_paths : List Read → Selection → Result Selection
unfolding select_path
select_paths [] s = ok s
select_paths (r ∷ rs) s = do s' ← select_path r s; select_paths rs s'

unfoldable pub select : List Read → Result Selection
unfolding select_paths
select reads = select_paths reads (record { ranks = []; errors = [] })
