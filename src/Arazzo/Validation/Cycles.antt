-- ===== src/Arazzo/Validation/Cycles.antt =====
-- arazzo/validation.go: `checkCircularDependencies`, a search in depth with a stack.
pub mod Fuel
pub mod Finished
pub mod Ranked
pub mod Acyclic
use libopenapi.Prelude.{
  ℕ, zero, suc, Bool, true, false, not, List, [], ◌∷◌, ◌++◌, length, Option, none, some, Bytes,
  codes, eqb, member, is_empty, if◌then◌else◌,
}
use libopenapi.Prelude.Dict.{lookup, insert}
use libopenapi.Arazzo.Engine.Document.{Workflow}
use libopenapi.Arazzo.Engine.Order.{dependents}
use libopenapi.Arazzo.Validation.{Report, error, unfinished, Reports, circular_dependencies}

-- `adj`.
abbrev pub Adjacency : Type 0
Adjacency = List (Bytes × List Bytes)

unfoldable pub adjacency : {F : Type 0} → List (Workflow F) → Adjacency → Adjacency
unfolding insert
adjacency [] adj = adj
adjacency (w ∷ ws) adj =
    adjacency ws (if is_empty w.workflow_id then adj else insert w.workflow_id w.depends_on adj)

-- The ids that `visited` and `recStack` hold as true.
pub record Visits : Type 0 where
  pub visited : List Bytes
  pub on_stack : List Bytes

abbrev pub visit : Bytes → Visits → Visits
visit id v = record { visited = id ∷ v.visited; on_stack = id ∷ v.on_stack }

unfoldable pub cleared : Bytes → List Bytes → List Bytes
unfolding eqb
cleared id [] = []
cleared id (i ∷ ids) = let rest = cleared id ids in if eqb i id then rest else i ∷ rest

abbrev pub unstack : Bytes → Visits → Visits
unstack id v = record v { on_stack = cleared id v.on_stack }

-- How the search goes on: `cycle` has the path of the error that is added where `dfs` returns
-- true. `no_fuel` is the model's alone.
pub data Search : Type 0 where
  no_fuel : Search
  cycle : List Bytes → Visits → Search
  no_cycle : Visits → Search

-- The rest of a search that has found no cycle.
infixl 5 ◌>>=◌
abbrev pub ◌>>=◌ : Search → (Visits → Search) → Search
no_fuel >>= rest = no_fuel
cycle path v >>= rest = cycle path v
no_cycle v >>= rest = rest v

-- The loop over the dependencies, on the path so far, with `dfs` of that path.
unfoldable pub each_dependency :
    (Bytes → Visits → Search) → List Bytes → List Bytes → Visits → Search
unfolding member
each_dependency dfs path [] v = no_cycle v
each_dependency dfs path (dep ∷ deps) v = elim (member dep v.visited) [
  | false ↦ (dfs dep v >>= each_dependency dfs path deps)
  | true ↦ elim (member dep v.on_stack) [
    | true ↦ cycle (path ++ (dep ∷ [])) v
    | false ↦ each_dependency dfs path deps v
  ]
]

unfoldable pub dfs : ℕ → Adjacency → List Bytes → Bytes → Visits → Search
unfolding each_dependency lookup cleared
dfs zero adj path id v = no_fuel
dfs (suc fuel) adj path id v =
    let path' = path ++ (id ∷ []) in
    (each_dependency (dfs fuel adj path') path' (dependents id adj) (visit id v) >>= λ w.
    no_cycle (unstack id w))

abbrev pub report_path : List Bytes → Option (List (List Bytes)) → Option (List (List Bytes))
report_path path none = none
report_path path (some paths) = some (path ∷ paths)

-- Behind a cycle the loop goes on with the sets as they are.
abbrev pub after_root : (Visits → Option (List (List Bytes))) → Search → Option (List (List Bytes))
after_root rest no_fuel = none
after_root rest (no_cycle w) = rest w
after_root rest (cycle path w) = report_path path (rest w)

-- The loop over the keys of `adj`, in the order of a run: the path of each error.
unfoldable pub each_root : ℕ → Adjacency → List Bytes → Visits → Option (List (List Bytes))
unfolding member dfs
each_root fuel adj [] v = some []
each_root fuel adj (id ∷ ids) v = elim (member id v.visited) [
  | true ↦ each_root fuel adj ids v
  | false ↦ after_root (each_root fuel adj ids) (dfs fuel adj [] id v)
]

abbrev pub no_visits : Visits
no_visits = record { visited = []; on_stack = [] }

-- A key on the path for each level, and one id that is no key.
unfoldable pub cycles : Adjacency → List Bytes → Option (List (List Bytes))
unfolding each_root
cycles adj order = each_root (suc (length adj)) adj order no_visits

unfoldable pub cycle_errors : List (List Bytes) → Reports
cycle_errors [] = []
cycle_errors (path ∷ paths) =
    error (codes "workflows") (circular_dependencies path) ∷ cycle_errors paths

-- `order` gives the order in which a run ranges over a map, from its keys.
unfoldable pub check_circular_dependencies :
    {F : Type 0} → (Adjacency → List Bytes) → List (Workflow F) → Reports
unfolding adjacency cycles cycle_errors
check_circular_dependencies order ws = elim (cycles (adjacency ws []) (order (adjacency ws []))) [
  | none ↦ unfinished ∷ []
  | some paths ↦ cycle_errors paths
]
