-- ===== src/Cycles.antt =====
-- flightrecorder/analyzer.py, `find_cycles`: depth-first search over the dependency edges.
-- `edges` is a dict of sets: an association list in insertion order, whose sets are lists in
-- whatever order the iteration takes. `none` stands for an exception or for spent fuel.
pub mod Walks
pub mod Sets
pub mod Step
pub mod Visit
pub mod Correct
use mathlib.Core.Option
use hang_analyzer.Prelude.{
  ℕ, zero, suc, Bool, Option, none, some, List, [], ◌∷◌, ◌++◌, map, length, drop, contains,
  if◌then◌else◌, ◌>>=◌,
}

-- `collections.defaultdict(set)` with its keys in insertion order.
abbrev pub Edges : Type 0 → Type 0
Edges N = List (N × List N)

module _ {N : Type 0} (dec : Discrete N) where
  -- `edges.get(node, ())`
  unfoldable pub targets : Edges N → N → List N
  targets [] n = []
  targets ((m, ds) ∷ es) n = elim (dec m n) [ yes _ ↦ ds | no _ ↦ targets es n ]

  -- `stack.index(dest)`, which raises if `dest` is not there
  pub index? : N → List N → Option ℕ
  index? d [] = none
  index? d (x ∷ xs) = elim (dec x d) [ yes _ ↦ some 0 | no _ ↦ Option.map suc (index? d xs) ]

  -- `visiting.add(node)`
  unfoldable pub add : N → List N → List N
  add n xs = if contains dec n xs then xs else n ∷ xs

  -- `visiting.remove(node)`
  pub remove : N → List N → List N
  remove n [] = []
  remove n (x ∷ xs) = elim (dec n x) [ yes _ ↦ xs | no _ ↦ x ∷ remove n xs ]

pub record Search (N : Type 0) : Type 0 where
  pub cycles : List (List N)
  pub visiting : List N
  pub visited : List N
  pub stack : List N

-- `stack.pop()`
pub init {ℓ} : {A : Type ℓ} → List A → List A
init [] = []
init (x ∷ []) = []
init (x ∷ y ∷ r) = x ∷ init (y ∷ r)

abbrev pub List-discrete {ℓ} : {A : Type ℓ} → Discrete A → Discrete (List A)
List-discrete dec = hlevel dec

-- The sets of all the nodes, one after the other.
pub destinations : {N : Type 0} → Edges N → List N
destinations [] = []
destinations ((_, ds) ∷ es) = ds ++ destinations es

module _ {N : Type 0} (dec : Discrete N) where
  -- `if cycle not in cycles: cycles.append(cycle)`
  pub report : List N → Search N → Search N
  report cycle s =
      if contains (List-discrete dec) cycle s.cycles
      then s
      else record s { cycles = s.cycles ++ cycle ∷ [] }

  -- The branch for a `dest` in `visiting`.
  pub close : N → Search N → Option (Search N)
  close d s = do i ← index? dec d s.stack; some (report (drop i s.stack ++ d ∷ []) s)

  -- The body of the `for dest` loop; `rec` is the recursive call of `visit`.
  pub step : (N → Search N → Option (Search N)) → N → Search N → Option (Search N)
  step rec d s =
      if contains dec d s.visiting
      then close d s
      else if contains dec d s.visited
      then some s
      else rec d s

  pub scan : (N → Search N → Option (Search N)) → List N → Search N → Option (Search N)
  scan rec [] s = some s
  scan rec (d ∷ ds) s = do s' ← step rec d s; scan rec ds s'

  -- The lines before and after the loop of `visit`.
  pub enter : N → Search N → Search N
  enter n s = record s { visiting = add dec n s.visiting; stack = s.stack ++ n ∷ [] }

  pub leave : N → Search N → Search N
  leave n s = record s {
    stack = init s.stack;
    visiting = remove dec n s.visiting;
    visited = add dec n s.visited;
  }

  module _ (edges : Edges N) where
    pub visit : ℕ → N → Search N → Option (Search N)
    visit zero n s = none
    visit (suc f) n s = do s' ← scan (visit f) (targets dec edges n) (enter n s); some (leave n s')

    -- The body of the loop over `list(edges)`.
    pub visit_new : ℕ → N → Search N → Option (Search N)
    visit_new f n s = if contains dec n s.visited then some s else visit f n s

    pub visit_all : ℕ → List N → Search N → Option (Search N)
    visit_all f [] s = some s
    visit_all f (n ∷ ns) s = do s' ← visit_new f n s; visit_all f ns s'

    -- Every node that a call of `visit` can meet.
    pub nodes : List N
    nodes = map (λ e. e.0) edges ++ destinations edges

    unfoldable pub find_cycles : Option (List (List N))
    unfolding visit_all visit_new visit scan step close report enter leave add remove index? init
        targets nodes destinations contains
    find_cycles =
        Option.map (λ s. s.cycles)
          (visit_all (suc (length nodes)) (map (λ e. e.0) edges)
            (record { cycles = []; visiting = []; visited = []; stack = [] }))
