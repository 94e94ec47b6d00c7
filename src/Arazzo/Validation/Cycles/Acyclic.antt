-- ===== src/Arazzo/Validation/Cycles/Acyclic.antt =====
-- arazzo/validation.go: `checkCircularDependencies` on an acyclic graph, and its two directions.
use libopenapi.Prelude.{
  ℕ, zero, suc, ◌≤◌, ◌<◌, true, false, List, [], ◌∷◌, length, Option, some, Bytes, eqb, eqb_iff,
  eqb_refl, member, if◌then◌else◌, ◌≡◌, refl, sym, ap, ◌∙◌, ◌↔◌, arith, inl, inr, Bool-cases,
}
use mathlib.Core.Path.{subst}
use libopenapi.Arazzo.Engine.Order.{dependents}
use libopenapi.Arazzo.Validation.Cycles.{
  Adjacency, Visits, visit, unstack, Search, no_fuel, cycle, no_cycle, ◌>>=◌, each_dependency, dfs,
  after_root, each_root, no_visits, cycles,
}
use libopenapi.Arazzo.Validation.Cycles.Fuel.{cycles_end}
use libopenapi.Arazzo.Validation.Cycles.Finished.{member-cleared}
use libopenapi.Arazzo.Validation.Cycles.Ranked.{IsRanked, IsAcyclic, Ranges, cycles-IsRanked}

-- A search without a cycle, which leaves no more on the stack.
abbrev Keeps : Visits → Search → Type 0
Keeps v no_fuel = Unit
Keeps v (cycle path w) = ⊥
Keeps v (no_cycle w) = (i : Bytes) → member i w.on_stack ≡ true → member i v.on_stack ≡ true

Keeps->>= :
    (v : Visits) (s : Search) (rest : Visits → Search)
    → Keeps v s
    → ((w : Visits)
        → ((i : Bytes) → member i w.on_stack ≡ true → member i v.on_stack ≡ true)
        → Keeps w (rest w))
    → Keeps v (s >>= rest)
Keeps->>= v no_fuel rest h k = tt
Keeps->>= v (cycle path w) rest h k = absurd h
Keeps->>= v (no_cycle w) rest h k = by (rest w) (k w h)
  where
    by : (s : Search) → Keeps w s → Keeps v s
    by no_fuel q = q
    by (cycle path x) q = q
    by (no_cycle x) q = λ i r. h i (q i r)

left-Keeps :
    (id : Bytes) (v : Visits) (s : Search)
    → Keeps (visit id v) s
    → Keeps v (s >>= λ w. no_cycle (unstack id w))
unfolding member
left-Keeps id v no_fuel h = h
left-Keeps id v (cycle path w) h = h
left-Keeps id v (no_cycle w) h = λ i r. ground (arith, h i, member-cleared id i w.on_stack)

module _ (rank : Bytes → ℕ) where
  -- Everything on the stack has rank `n` at least.
  abbrev Above : ℕ → Visits → Type 0
  Above n v = (i : Bytes) → member i v.on_stack ≡ true → n ≤ rank i

  off_lower :
      (n : ℕ) (id : Bytes) (v : Visits) → Above n v → rank id < n → member id v.on_stack ≡ false
  off_lower n id v a q = elim (Bool-cases (member id v.on_stack)) [
    | inl e ↦ let least = a id e in ground arith
    | inr e ↦ e
  ]

  each_dependency-Keeps :
      (search : Bytes → Visits → Search) (path : List Bytes) (n : ℕ)
      → ((dep : Bytes) (v : Visits) → Above (suc (rank dep)) v → Keeps v (search dep v))
      → (deps : List Bytes) (v : Visits) → ((d : Bytes) → member d deps ≡ true → rank d < n)
      → Above n v
      → Keeps v (each_dependency search path deps v)
  unfolding each_dependency member
  each_dependency-Keeps search path n h [] v q a = λ i r. r
  each_dependency-Keeps search path n h (dep ∷ deps) v q a =
      let less : rank dep < n = q dep (ground (arith, eqb_refl dep)) in
      let more : (d : Bytes) → member d deps ≡ true → rank d < n = λ d r. q d (ground arith) in
      elim (Bool-cases (member dep v.visited)) [
        | inl seen ↦
            rw (each_dependency, seen, off_lower n dep v a less)
              (each_dependency-Keeps search path n h deps v more a)
        | inr new ↦
            rw (each_dependency, new)
              (Keeps->>= v (search dep v) _ (h dep v (λ i r. let least = a i r in omega arith))
                (λ w back.
                  each_dependency-Keeps search path n h deps w more (λ i r. a i (back i r))))
      ]

  entered-Above : (id : Bytes) (v : Visits) → Above (suc (rank id)) v → Above (rank id) (visit id v)
  unfolding member
  entered-Above id v a i r = elim (Bool-cases (eqb id i)) [
    | inl e ↦ subst (λ k. rank id ≤ rank k) ((eqb_iff id i).0 e) (omega arith)
    | inr e ↦
        let least = a i (sym (ap (λ b. if b then true else member i v.on_stack) e) ∙ r) in
        omega arith
  ]

  module _ (adj : Adjacency) (ranked : IsRanked adj rank) where
    dfs-Keeps :
        (fuel : ℕ) (path : List Bytes) (id : Bytes) (v : Visits)
        → Above (suc (rank id)) v
        → Keeps v (dfs fuel adj path id v)
    unfolding dfs
    dfs-Keeps zero path id v a = tt
    dfs-Keeps (suc fuel) path id v a = left-Keeps id v _ (
        each_dependency-Keeps (dfs fuel adj _) _ (rank id) (λ dep w b. dfs-Keeps fuel _ dep w b)
          (dependents id adj) (visit id v) (λ d r. ranked id d r) (entered-Above id v a))

    abbrev Nil : Option (List (List Bytes)) → Type 0
    Nil o = (paths : List (List Bytes)) → o ≡ some paths → paths ≡ []

    abbrev Empties : Visits → Type 0
    Empties v = (i : Bytes) → member i v.on_stack ≡ false

    after_root-Nil :
        (v : Visits) (rest : Visits → Option (List (List Bytes))) (s : Search)
        → Empties v
        → ((w : Visits) → Empties w → Nil (rest w))
        → Keeps v s
        → Nil (after_root rest s)
    after_root-Nil v rest no_fuel off k h = λ paths e. ground arith
    after_root-Nil v rest (cycle path w) off k h = absurd h
    after_root-Nil v rest (no_cycle w) off k h = k w (λ i. ground (arith, h i, off i))

    each_root-Nil :
        (fuel : ℕ) (ids : List Bytes) (v : Visits) → Empties v → Nil (each_root fuel adj ids v)
    unfolding each_root
    each_root-Nil fuel [] v off = λ paths e. ground arith
    each_root-Nil fuel (id ∷ ids) v off = elim (Bool-cases (member id v.visited)) [
      | inl seen ↦ rw (each_root, seen) (each_root-Nil fuel ids v off)
      | inr new ↦
          rw (each_root, new)
            (after_root-Nil v _ (dfs fuel adj [] id v) off (λ w. each_root-Nil fuel ids w)
              (dfs-Keeps fuel [] id v (λ i r. let o = off i in ground arith)))
    ]

-- `checkCircularDependencies` reports no cycle exactly where the ids have ranks below which their
-- dependencies stand; in every order of the keys.
pub cycles-IsAcyclic :
    (adj : Adjacency) (order : List Bytes)
    → Ranges adj order
    → (cycles adj order ≡ some []) ↔ IsAcyclic adj
unfolding cycles member
cycles-IsAcyclic adj order h = (
  cycles-IsRanked adj order h,
  λ (rank, ranked).
      let (paths, e) = cycles_end adj order in
      e
      ∙ ap some
          (each_root-Nil rank adj ranked (suc (length adj)) order no_visits (λ i. refl) paths e),
)
