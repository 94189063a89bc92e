-- ===== src/Analyzer/Collectives.antt =====
-- The collectives: which ranks entered, which expected ranks are missing, and whether the operation
-- types differ.
pub mod Missing
use hang_analyzer.Prelude.{
  ℕ, ◌==◌, ltb, Bool, true, false, not, ◌&&◌, ◌||◌, Option, none, some, List, [], ◌∷◌, ◌++◌, map,
  length, passing, contains, if◌then◌else◌, sort_by, codes, Dict, keys, values, ℕ_discrete,
}
use hang_analyzer.Format.{Event}
use hang_analyzer.Cycles.{add}
use hang_analyzer.Analyzer.Select.{RankData}
use hang_analyzer.Analyzer.Scan.{PairKey, is_type, Shared}

pub record Collective : Type 0 where
  pub communicator_id : ℕ
  pub operation_id : ℕ
  pub entered : List ℕ
  pub missing_expected : List ℕ
  pub types : List ℕ
  pub type_mismatch : Bool
  pub end_observed : List ℕ

-- `sorted` of numbers
abbrev pub sorted : List ℕ → List ℕ
sorted = sort_by (λ n. n)

-- `sorted(expected - entered.keys()) if expected_ranks is not None else []`
unfoldable pub missing : Option (List ℕ) → Dict ℕ Event → List ℕ
unfolding passing contains
missing none group = []
missing (some expected) group =
    sorted (passing (λ r. not (contains ℕ_discrete r (keys group))) expected)

-- `{e["arg1"] for e in entered.values()}`
unfoldable pub types_of : List Event → List ℕ
unfolding add contains
types_of [] = []
types_of (e ∷ es) = add ℕ_discrete e.arg1 (types_of es)

-- `e["type"] == "HCCL_END" and e["arg0"] == comm and e["correlation_id"] == seq`
unfoldable pub ends_operation : PairKey → Event → Bool
unfolding is_type
ends_operation (comm, seq) e =
    is_type (codes "HCCL_END") e && (e.arg0 == comm && e.correlation_id == seq)

-- `any(...)` over the events of a rank
unfoldable pub any_ends : PairKey → List Event → Bool
unfolding ends_operation
any_ends key [] = false
any_ends key (e ∷ es) = ends_operation key e || any_ends key es

unfoldable pub end_ranks : PairKey → Dict ℕ RankData → List ℕ
unfolding any_ends
end_ranks key [] = []
end_ranks key ((r, d) ∷ rest) =
    let others = end_ranks key rest in if any_ends key d.events then r ∷ others else others

unfoldable pub collective : Option (List ℕ) → Dict ℕ RankData → PairKey × Dict ℕ Event → Collective
unfolding missing types_of end_ranks sort_by
collective expected ranks (key, group) =
    let types = types_of (values group) in
    record {
      communicator_id = key.0;
      operation_id = key.1;
      entered = sorted (keys group);
      missing_expected = missing expected group;
      types = sorted types;
      type_mismatch = ltb 1 (length types);
      end_observed = sorted (end_ranks key ranks);
    }

-- `communicator_id is not None and comm != communicator_id`
unfoldable pub skips : Option ℕ → PairKey → Bool
skips none key = false
skips (some wanted) key = not (key.0 == wanted)

-- `sorted(groups.items())`: by communicator, then by operation
pub group_le : PairKey → PairKey → Bool
group_le (a, b) (c, d) = ltb a c || (a == c && not (ltb d b))

insert_group :
    PairKey × Dict ℕ Event → List (PairKey × Dict ℕ Event) → List (PairKey × Dict ℕ Event)
insert_group x [] = x ∷ []
insert_group x (y ∷ ys) = if group_le x.0 y.0 then x ∷ y ∷ ys else y ∷ insert_group x ys

unfoldable pub sorted_groups : List (PairKey × Dict ℕ Event) → List (PairKey × Dict ℕ Event)
unfolding insert_group group_le
sorted_groups [] = []
sorted_groups (g ∷ gs) = insert_group g (sorted_groups gs)

-- The loop over the groups.
unfoldable pub collectives :
    Option (List ℕ) → Option ℕ → Dict ℕ RankData → List (PairKey × Dict ℕ Event) → List Collective
unfolding skips collective
collectives expected communicator ranks [] = []
collectives expected communicator ranks (g ∷ gs) =
    let rest = collectives expected communicator ranks gs in
    if skips communicator g.0 then rest else collective expected ranks g ∷ rest
