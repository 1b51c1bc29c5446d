-- ===== src/Link/Cycle/Tests.antt =====
-- Graphs of houses, and an instance of the theorem.
use painel_mt_affiliates.Common.{◌≡◌, ◌⊎◌, refl, List, [], ◌∷◌, String}
use painel_mt_affiliates.Link.Cycle.{Graph, adjacent, cycle, no_cycle, find_dependency_cycle}
use painel_mt_affiliates.Link.Cycle.Sound.{IsCycle}
use painel_mt_affiliates.Link.Cycle.Closed.{Requires}
use painel_mt_affiliates.Link.Cycle.Theorems.{find_dependency_cycle-decides}

abbrev houses : Graph
houses =
    ("betano", "superbet" ∷ []) ∷ ("superbet", "esportiva" ∷ "betano" ∷ []) ∷ ("esportiva", []) ∷ []

closing :
    find_dependency_cycle houses "esportiva" ("hiperbet" ∷ "betano" ∷ [])
    ≡ cycle ("esportiva" ∷ "betano" ∷ "superbet" ∷ "esportiva" ∷ [])
unfolding find_dependency_cycle
closing = refl

-- A cycle among the others is not one of this house.
open_ended : find_dependency_cycle houses "hiperbet" ("betano" ∷ "hiperbet" ∷ []) ≡ no_cycle
unfolding find_dependency_cycle
open_ended = refl

find_dependency_cycle-decides_example :
    ((find_dependency_cycle houses "esportiva" ("betano" ∷ []) ≡ no_cycle)
      × (Requires (adjacent houses "esportiva" ("betano" ∷ [])) "esportiva" "esportiva" → ⊥))
    ⊎ ((path : List String) × (find_dependency_cycle houses "esportiva" ("betano" ∷ [])
          ≡ cycle path)
        × IsCycle (adjacent houses "esportiva" ("betano" ∷ [])) "esportiva" path)
find_dependency_cycle-decides_example =
    find_dependency_cycle-decides houses "esportiva" ("betano" ∷ [])
