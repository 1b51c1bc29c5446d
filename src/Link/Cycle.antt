-- ===== src/Link/Cycle.antt =====
-- The check for circular dependencies between houses: `findDependencyCycle` of
-- backend-vexxa/src/modules/link-request/application/link-rule-validation.ts.
-- A graph gives the houses that a house requires. The depth of the search is bounded by fuel: one
-- for each slug that the rules name is enough (`Cycle.Fuel`).
pub mod Sound
pub mod Closed
pub mod Fuel
pub mod Theorems
mod Tests
use painel_mt_affiliates.Common.{
  ℕ, zero, suc, Bool, true, false, not, Option, none, some, List, [], ◌∷◌, ◌++◌, String, str_eq,
  any, filter, length, or_else, if◌then◌else◌,
}

abbrev pub Graph : Type 0
Graph = List (String × List String)

-- `adj.get(node) ?? []`
abbrev pub requires : Graph → String → List String
requires [] node = []
requires ((slug, houses) ∷ rest) node = if str_eq slug node then houses else requires rest node

abbrev pub mem : String → List String → Bool
mem x xs = any (str_eq x) xs

-- the graph with the proposed edges of `self` in the place of the ones it had
unfoldable pub adjacent : Graph → String → List String → String → List String
adjacent graph self proposed node =
    if str_eq node self then filter (λ s. not (str_eq s self)) proposed else requires graph node

pub data Outcome : Type 0 where
  cycle : List String → Outcome
  no_cycle out_of_fuel : Outcome

-- `if (found) return found;`, else the loop goes on.
abbrev pub after : Outcome → List String → Outcome × List String → Outcome × List String
after no_cycle seen onwards = onwards
after (cycle path) seen onwards = (cycle path, seen)
after out_of_fuel seen onwards = (out_of_fuel, seen)

-- The loop of `dfs` over the neighbours of a node, with the path so far and the visited set.
module _ (adj : String → List String) (self : String) where
  unfoldable pub dfs : ℕ → List String → List String → List String → Outcome × List String
  dfs fuel path visited [] = (no_cycle, visited)
  dfs zero path visited (next ∷ rest) =
      let onwards = dfs zero path visited rest in
      if str_eq next self
      then (cycle (path ++ self ∷ []), visited)
      else if mem next visited
      then onwards
      else (out_of_fuel, visited)
  dfs (suc fuel) path visited (next ∷ rest) =
      let skipped = dfs (suc fuel) path visited rest in
      let (found, seen) = dfs fuel (path ++ next ∷ []) (next ∷ visited) (adj next) in
      let onwards = dfs (suc fuel) path seen rest in
      if str_eq next self
      then (cycle (path ++ self ∷ []), visited)
      else if mem next visited
      then skipped
      else after found seen onwards

-- every slug that the rules name as required
unfoldable pub slugs : Graph → List String
slugs [] = []
slugs ((slug, houses) ∷ rest) = houses ++ slugs rest

unfoldable pub find_dependency_cycle : Graph → String → List String → Outcome
unfolding dfs adjacent slugs
find_dependency_cycle graph self proposed =
    (dfs (adjacent graph self proposed) self (length (proposed ++ slugs graph)) (self ∷ []) []
      (adjacent graph self proposed self)).0
