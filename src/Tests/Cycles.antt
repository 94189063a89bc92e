-- ===== src/Tests/Cycles.antt =====
-- `find_cycles` on small graphs.
use hang_analyzer.Prelude.{ℕ, ◌≡◌, refl, some, List, [], ◌∷◌, All, ◌↔◌, ℕ_discrete}
use hang_analyzer.Cycles.{Edges, find_cycles}
use hang_analyzer.Cycles.Walks.{IsCycle}
use hang_analyzer.Cycles.Correct.{Acyclic, find_cycles_decides}

-- 1 → 2 → 3 → 1 and 2 → 4
abbrev ring : Edges ℕ
ring = (1, 2 ∷ []) ∷ (2, 4 ∷ 3 ∷ []) ∷ (3, 1 ∷ []) ∷ []

find_cycles-ring : find_cycles ℕ_discrete ring ≡ some ((1 ∷ 2 ∷ 3 ∷ 1 ∷ []) ∷ [])
unfolding find_cycles ℕ_discrete
find_cycles-ring = refl

abbrev handoff : Edges ℕ
handoff = (1, 2 ∷ []) ∷ (2, 4 ∷ 3 ∷ []) ∷ (3, 4 ∷ []) ∷ []

find_cycles-handoff : find_cycles ℕ_discrete handoff ≡ some []
unfolding find_cycles ℕ_discrete
find_cycles-handoff = refl

find_cycles_decides_example :
    (cs : List (List ℕ)) × (find_cycles ℕ_discrete ring ≡ some cs)
    × All (IsCycle ℕ_discrete ring) cs
    × ((cs ≡ []) ↔ Acyclic ℕ_discrete ring)
find_cycles_decides_example = find_cycles_decides ℕ_discrete ring
