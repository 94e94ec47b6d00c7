-- ===== src/Arazzo/Validation/Cycles/Finished.antt =====
-- arazzo/validation.go: what the search of `checkCircularDependencies` has finished: ids whose
-- dependencies it had finished before.
use libopenapi.Prelude.{
  ℕ, zero, suc, true, false, not, ◌&&◌, List, [], ◌∷◌, Bytes, eqb, eqb_iff, eqb_refl, member,
  if◌then◌else◌, ◌≡◌, refl, sym, ap, ◌∙◌, arith, inl, inr, Bool-cases, All,
}
use mathlib.Core.Path.{subst}
use libopenapi.Arazzo.Engine.Order.{dependents}
use libopenapi.Arazzo.Validation.Cycles.{
  Adjacency, Visits, visit, unstack, cleared, Search, no_fuel, cycle, no_cycle, ◌>>=◌,
  each_dependency, dfs,
}

-- Every id of the list has its dependencies behind it.
abbrev pub Settled : Adjacency → List Bytes → Type 0
Settled adj [] = Unit
Settled adj (id ∷ older) =
    (member id older ≡ false)
    × ((d : Bytes) → member d (dependents id adj) ≡ true → member d older ≡ true)
    × Settled adj older

-- The state of a search that has finished the ids of a list.
pub record Progress (adj : Adjacency) (finished : List Bytes) (v : Visits) : Type 0 where
  pub same : (i : Bytes) → member i finished ≡ (member i v.visited && not (member i v.on_stack))
  pub below : (i : Bytes) → member i v.on_stack ≡ true → member i v.visited ≡ true
  pub settled : Settled adj finished

pub record Grown (v w : Visits) : Type 0 where
  pub stack : (i : Bytes) → member i w.on_stack ≡ member i v.on_stack
  pub visits : (i : Bytes) → member i v.visited ≡ true → member i w.visited ≡ true

pub Grown-refl : (v : Visits) → Grown v v
Grown-refl v = record { stack = λ i. refl; visits = λ i q. q }

pub Grown-trans : {v w x : Visits} → Grown v w → Grown w x → Grown v x
Grown-trans g h = record {
  stack = λ i. h.stack i ∙ g.stack i;
  visits = λ i q. h.visits i (g.visits i q);
}

-- What holds where a search ends without a cycle.
abbrev pub Finishes : (Visits → Type 0) → Search → Type 0
Finishes P no_fuel = Unit
Finishes P (cycle path w) = Unit
Finishes P (no_cycle w) = P w

Finishes->>= :
    (P Q : Visits → Type 0) (s : Search) (rest : Visits → Search)
    → Finishes P s
    → ((w : Visits) → P w → Finishes Q (rest w))
    → Finishes Q (s >>= rest)
Finishes->>= P Q no_fuel rest h k = tt
Finishes->>= P Q (cycle path w) rest h k = tt
Finishes->>= P Q (no_cycle w) rest h k = k w h

pub record Visited (adj : Adjacency) (id : Bytes) (v w : Visits) : Type 0 where
  pub done_ids : List Bytes
  pub progress : Progress adj done_ids w
  pub grown : Grown v w
  pub seen : member id w.visited ≡ true

record VisitedAll (adj : Adjacency) (ids : List Bytes) (v w : Visits) : Type 0 where
  done_ids : List Bytes
  progress : Progress adj done_ids w
  grown : Grown v w
  every : All (λ d. (member d w.visited ≡ true) × (member d w.on_stack ≡ false)) ids

abbrev pub Visiting : Adjacency → (Bytes → Visits → Search) → Type 0
Visiting adj search =
    (dep : Bytes) (v : Visits) (finished : List Bytes)
    → Progress adj finished v
    → member dep v.visited ≡ false
    → Finishes (Visited adj dep v) (search dep v)

off_stack :
    {adj : Adjacency} {finished : List Bytes} {v : Visits} (i : Bytes)
    → Progress adj finished v
    → member i v.visited ≡ false
    → member i v.on_stack ≡ false
off_stack i p q = let b = p.below i in ground arith

module _ (adj : Adjacency) (search : Bytes → Visits → Search) (path : List Bytes)
    (visiting : Visiting adj search) where
  cons-VisitedAll :
      (dep : Bytes) (deps : List Bytes) (v w x : Visits)
      → Grown v w
      → member dep w.visited ≡ true
      → member dep w.on_stack ≡ false
      → VisitedAll adj deps w x
      → VisitedAll adj (dep ∷ deps) v x
  cons-VisitedAll dep deps v w x g seen off a = record {
    done_ids = a.done_ids;
    progress = a.progress;
    grown = Grown-trans g a.grown;
    every = ((a.grown.visits dep seen, a.grown.stack dep ∙ off), a.every);
  }

  Finishes-cons :
      (dep : Bytes) (deps : List Bytes) (v w : Visits) (s : Search)
      → Grown v w
      → member dep w.visited ≡ true
      → member dep w.on_stack ≡ false
      → Finishes (VisitedAll adj deps w) s
      → Finishes (VisitedAll adj (dep ∷ deps) v) s
  Finishes-cons dep deps v w no_fuel g seen off h = tt
  Finishes-cons dep deps v w (cycle p x) g seen off h = tt
  Finishes-cons dep deps v w (no_cycle x) g seen off h = cons-VisitedAll dep deps v w x g seen off h

  each_dependency-VisitedAll :
      (deps : List Bytes) (v : Visits) (finished : List Bytes)
      → Progress adj finished v
      → Finishes (VisitedAll adj deps v) (each_dependency search path deps v)
  unfolding each_dependency
  each_dependency-VisitedAll [] v finished p = record {
    done_ids = finished;
    progress = p;
    grown = Grown-refl v;
    every = tt;
  }
  each_dependency-VisitedAll (dep ∷ deps) v finished p = elim (Bool-cases (member dep v.visited)) [
    | inl seen ↦ elim (Bool-cases (member dep v.on_stack)) [
      | inl on ↦ rw (each_dependency, seen, on) tt
      | inr off ↦
          rw (each_dependency, seen, off)
            (Finishes-cons dep deps v v _ (Grown-refl v) seen off
              (each_dependency-VisitedAll deps v finished p))
    ]
    | inr new ↦
        rw (each_dependency, new)
          (Finishes->>= (Visited adj dep v) _ (search dep v) _ (visiting dep v finished p new)
            (λ w a.
              Finishes-cons dep deps v w _ a.grown a.seen (a.grown.stack dep ∙ off_stack dep p new)
                (each_dependency-VisitedAll deps w a.done_ids a.progress)))
  ]

entered-Progress :
    (adj : Adjacency) (finished : List Bytes) (id : Bytes) (v : Visits)
    → Progress adj finished v
    → member id v.visited ≡ false
    → Progress adj finished (visit id v)
unfolding member
entered-Progress adj finished id v p new = record {
  same = λ i. ground (arith, p.same i, p.same id, eqb_iff id i);
  below = λ i. ground (arith, p.below i);
  settled = p.settled;
}

pub member-cleared :
    (id i : Bytes) (ids : List Bytes) → member i (cleared id ids) ≡ (member i ids && not (eqb id i))
unfolding member cleared
member-cleared id i [] = refl
member-cleared id i (j ∷ ids) =
    ground (arith, member-cleared id i ids, eqb_iff j id, eqb_iff j i, eqb_iff id i)

pub every-member :
    (P : Bytes → Type 0) (ids : List Bytes) (d : Bytes) → All P ids → member d ids ≡ true → P d
unfolding member
every-member P [] d h q = ground arith
every-member P (i ∷ ids) d (p, h) q = elim (Bool-cases (eqb i d)) [
  | inl e ↦ subst P ((eqb_iff i d).0 e) p
  | inr e ↦ every-member P ids d h (sym (ap (λ b. if b then true else member d ids) e) ∙ q)
]

module _ (adj : Adjacency) (finished : List Bytes) (id : Bytes) (v : Visits)
    (p : Progress adj finished v) (new : member id v.visited ≡ false) (w : Visits)
    (a : VisitedAll adj (dependents id adj) (visit id v) w) where
  inside_visited : member id w.visited ≡ true
  unfolding member
  inside_visited = a.grown.visits id (ground (arith, eqb_refl id))

  on_top : member id w.on_stack ≡ true
  unfolding member
  on_top = a.grown.stack id ∙ ground (arith, eqb_refl id)

  not_finished : member id a.done_ids ≡ false
  not_finished = ground (arith, a.progress.same id, on_top)

  left-Settled : Settled adj (id ∷ a.done_ids)
  left-Settled = (
    not_finished,
    λ d q.
        let (seen, off) = every-member _ (dependents id adj) d a.every q in
        ground (arith, a.progress.same d),
    a.progress.settled,
  )

  left-Visited : Visited adj id v (unstack id w)
  unfolding member
  left-Visited = record {
    done_ids = id ∷ a.done_ids;
    progress = record {
      same = λ i.
          ground (
            arith,
            a.progress.same i,
            member-cleared id i w.on_stack,
            eqb_iff id i,
            inside_visited,
          );
      below = λ i. ground (arith, a.progress.below i, member-cleared id i w.on_stack);
      settled = left-Settled;
    };
    grown = record {
      stack = λ i. ground (
        arith,
        a.grown.stack i,
        member-cleared id i w.on_stack,
        eqb_iff id i,
        off_stack id p new,
      );
      visits = λ i. ground (arith, a.grown.visits i);
    };
    seen = inside_visited;
  }

pub dfs-Visited :
    (fuel : ℕ) (adj : Adjacency) (path : List Bytes) → Visiting adj (dfs fuel adj path)
unfolding dfs
dfs-Visited zero adj path id v finished p new = tt
dfs-Visited (suc fuel) adj path id v finished p new =
    Finishes->>= (VisitedAll adj (dependents id adj) (visit id v)) _ _ _
      (each_dependency-VisitedAll adj _ _ (dfs-Visited fuel adj _) (dependents id adj) (visit id v)
        finished (entered-Progress adj finished id v p new))
      (λ w a. left-Visited adj finished id v p new w a)
