-- ===== src/Arazzo/Validation/Cycles/Fuel.antt =====
-- arazzo/validation.go: the depth of the search of `checkCircularDependencies`.
use libopenapi.Prelude.{
  ℕ, zero, suc, ◌≤◌, ◌<◌, false, List, [], ◌∷◌, length, Option, none, some, Bytes, eqb_iff, member,
  if◌then◌else◌, ◌≡◌, refl, arith, inl, inr, Bool-cases, Option-cases, ◌⊎◌,
}
use mathlib.Core.Path.{subst}
use libopenapi.Prelude.Dict.{lookup}
use libopenapi.Arazzo.Engine.Order.{dependents}
use libopenapi.Arazzo.Validation.Cycles.{
  Adjacency, Visits, visit, unstack, Search, no_fuel, cycle, no_cycle, ◌>>=◌, each_dependency, dfs,
  report_path, after_root, each_root, no_visits, cycles,
}

-- The keys that are still to be visited.
unfoldable unvisited : Adjacency → List Bytes → ℕ
unfolding member
unvisited [] seen = 0
unvisited ((k, deps) ∷ adj) seen = let n = unvisited adj seen in if member k seen then n else suc n

unvisited-le-length : (adj : Adjacency) (seen : List Bytes) → unvisited adj seen ≤ length adj
unfolding unvisited
unvisited-le-length [] seen = omega arith
unvisited-le-length ((k, deps) ∷ adj) seen = ground (arith, unvisited-le-length adj seen)

unvisited-cons :
    (adj : Adjacency) (id : Bytes) (seen : List Bytes)
    → unvisited adj (id ∷ seen) ≤ unvisited adj seen
unfolding unvisited member
unvisited-cons [] id seen = omega arith
unvisited-cons ((k, deps) ∷ adj) id seen = ground (arith, unvisited-cons adj id seen)

-- A visit of a key that has dependencies leaves fewer.
unvisited-lt :
    (adj : Adjacency) (id : Bytes) (seen : List Bytes)
    → member id seen ≡ false
    → (dependents id adj ≡ []) ⊎ (unvisited adj (id ∷ seen) < unvisited adj seen)
unfolding unvisited member lookup
unvisited-lt [] id seen q = inl refl
unvisited-lt ((k, deps) ∷ adj) id seen q =
    ground
      (arith, unvisited-lt adj id seen q, unvisited-cons adj id seen, eqb_iff k id, eqb_iff id k)

-- The search has had enough fuel, and at most `n` keys are still to be visited behind it.
abbrev Within : Adjacency → ℕ → Search → Type 0
Within adj n no_fuel = ⊥
Within adj n (cycle path w) = unvisited adj w.visited ≤ n
Within adj n (no_cycle w) = unvisited adj w.visited ≤ n

Within->>= :
    (adj : Adjacency) (n : ℕ) (s : Search) (rest : Visits → Search)
    → Within adj n s
    → ((w : Visits) → unvisited adj w.visited ≤ n → Within adj n (rest w))
    → Within adj n (s >>= rest)
Within->>= adj n no_fuel rest h k = h
Within->>= adj n (cycle path w) rest h k = h
Within->>= adj n (no_cycle w) rest h k = k w h

abbrev Searches : Adjacency → ℕ → (Bytes → Visits → Search) → Type 0
Searches adj n search =
    (dep : Bytes) (v : Visits)
    → member dep v.visited ≡ false
    → unvisited adj v.visited ≤ n
    → Within adj n (search dep v)

module _ (adj : Adjacency) (n : ℕ) (search : Bytes → Visits → Search) (path : List Bytes) where
  each_dependency-Within :
      (deps : List Bytes) (v : Visits)
      → Searches adj n search
      → unvisited adj v.visited ≤ n
      → Within adj n (each_dependency search path deps v)
  unfolding each_dependency
  each_dependency-Within [] v h q = q
  each_dependency-Within (dep ∷ deps) v h q = elim (Bool-cases (member dep v.visited)) [
    | inl seen ↦ elim (Bool-cases (member dep v.on_stack)) [
      | inl on ↦ rw (each_dependency, seen, on) q
      | inr off ↦ rw (each_dependency, seen, off) (each_dependency-Within deps v h q)
    ]
    | inr new ↦
        rw (each_dependency, new)
          (Within->>= adj n (search dep v) _ (h dep v new q)
            (λ w r. each_dependency-Within deps w h r))
  ]

Within-mono : (adj : Adjacency) (n m : ℕ) (s : Search) → n ≤ m → Within adj n s → Within adj m s
Within-mono adj n m no_fuel q h = h
Within-mono adj n m (cycle path w) q h = omega arith
Within-mono adj n m (no_cycle w) q h = omega arith

left-Within :
    (adj : Adjacency) (n : ℕ) (id : Bytes) (s : Search)
    → Within adj n s
    → Within adj n (s >>= λ w. no_cycle (unstack id w))
left-Within adj n id no_fuel h = h
left-Within adj n id (cycle path w) h = h
left-Within adj n id (no_cycle w) h = h

dfs-Within :
    (fuel : ℕ) (adj : Adjacency) (path : List Bytes) (id : Bytes) (v : Visits)
    → member id v.visited ≡ false
    → unvisited adj v.visited < fuel
    → Within adj (unvisited adj v.visited) (dfs fuel adj path id v)
unfolding dfs each_dependency
dfs-Within zero adj path id v new q = omega arith
dfs-Within (suc fuel) adj path id v new q =
    left-Within adj _ id _ (elim (unvisited-lt adj id v.visited new) [
      | inl none_left ↦ rw none_left (unvisited-cons adj id v.visited)
      | inr less ↦
          Within-mono adj (unvisited adj (id ∷ v.visited)) _ _ (unvisited-cons adj id v.visited) (
            each_dependency-Within adj _ _ _ (dependents id adj) (visit id v)
              (λ dep w unseen below.
                Within-mono adj (unvisited adj w.visited) _ _ below
                  (dfs-Within fuel adj _ dep w unseen (omega arith)))
              (omega arith))
    ])

abbrev IsSome : {A : Type 0} → Option A → Type 0
IsSome none = ⊥
IsSome (some a) = Unit

report_path-IsSome :
    (path : List Bytes) (o : Option (List (List Bytes))) → IsSome o → IsSome (report_path path o)
report_path-IsSome path none h = h
report_path-IsSome path (some paths) h = tt

after_root-IsSome :
    (adj : Adjacency) (n : ℕ) (rest : Visits → Option (List (List Bytes))) (s : Search)
    → ((w : Visits) → IsSome (rest w))
    → Within adj n s
    → IsSome (after_root rest s)
after_root-IsSome adj n rest no_fuel k h = absurd h
after_root-IsSome adj n rest (no_cycle w) k h = k w
after_root-IsSome adj n rest (cycle path w) k h = report_path-IsSome path (rest w) (k w)

each_root-IsSome :
    (fuel : ℕ) (adj : Adjacency) (ids : List Bytes) (v : Visits)
    → length adj < fuel
    → IsSome (each_root fuel adj ids v)
unfolding each_root
each_root-IsSome fuel adj [] v q = tt
each_root-IsSome fuel adj (id ∷ ids) v q = elim (Bool-cases (member id v.visited)) [
  | inl seen ↦ rw (each_root, seen) (each_root-IsSome fuel adj ids v q)
  | inr new ↦
      rw (each_root, new)
        (after_root-IsSome adj _ _ (dfs fuel adj [] id v) (λ w. each_root-IsSome fuel adj ids w q)
          (dfs-Within fuel adj [] id v new (omega (arith, unvisited-le-length adj v.visited))))
]

-- The search of `checkCircularDependencies` ends, in every order of the keys, for duplicate ids,
-- unknown dependencies and cycles too: a level more than there are keys is deep enough.
pub cycles_end :
    (adj : Adjacency) (order : List Bytes)
    → (paths : List (List Bytes)) × (cycles adj order ≡ some paths)
unfolding cycles
cycles_end adj order = elim (Option-cases (cycles adj order)) [
  | inl e ↦
      absurd
        (subst IsSome e (each_root-IsSome (suc (length adj)) adj order no_visits (omega arith)))
  | inr found ↦ found
]
