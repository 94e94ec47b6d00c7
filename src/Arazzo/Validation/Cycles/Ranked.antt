-- ===== src/Arazzo/Validation/Cycles/Ranked.antt =====
-- arazzo/validation.go: `checkCircularDependencies` and the ranks that a search
-- without a cycle leaves.
use libopenapi.Prelude.{
  ℕ, suc, ◌≤◌, ◌<◌, Bool, true, false, List, [], ◌∷◌, length, Option, none, some, Bytes, eqb,
  eqb_iff, member, if◌then◌else◌, ◌≡◌, refl, sym, ap, ◌∙◌, arith, inl, inr, Bool-cases, All,
}
use mathlib.Core.Path.{subst}
use libopenapi.Prelude.Dict.{lookup}
use libopenapi.Arazzo.Engine.Order.{dependents}
use libopenapi.Arazzo.Validation.Cycles.{
  Adjacency, Visits, Search, no_fuel, cycle, no_cycle, dfs, report_path, after_root, each_root,
  no_visits, cycles,
}
use libopenapi.Arazzo.Validation.Cycles.Finished.{
  Settled, Progress, Grown, Grown-refl, Grown-trans, Finishes, Visited, dfs-Visited, every-member,
}

-- A rank below which the dependencies of an id stand.
abbrev pub IsRanked : Adjacency → (Bytes → ℕ) → Type 0
IsRanked adj rank = (id d : Bytes) → member d (dependents id adj) ≡ true → rank d < rank id

-- No cycle: the ids have such ranks.
abbrev pub IsAcyclic : Adjacency → Type 0
IsAcyclic adj = (rank : Bytes → ℕ) × IsRanked adj rank

-- The order lists the keys.
abbrev pub Ranges : Adjacency → List Bytes → Type 0
Ranges adj order = All (λ e. member e.0 order ≡ true) adj

-- A search from all ids of an order.
record Searched (adj : Adjacency) (ids : List Bytes) (v : Visits) : Type 0 where
  done_ids : List Bytes
  last : Visits
  progress : Progress adj done_ids last
  grown : Grown v last
  every : All (λ id. member id last.visited ≡ true) ids

next_root :
    (adj : Adjacency) (id : Bytes) (ids : List Bytes) (v w : Visits)
    → Grown v w
    → member id w.visited ≡ true
    → Searched adj ids w
    → Searched adj (id ∷ ids) v
next_root adj id ids v w g seen s = record {
  done_ids = s.done_ids;
  last = s.last;
  progress = s.progress;
  grown = Grown-trans g s.grown;
  every = (s.grown.visits id seen, s.every);
}

some_path : (path : List Bytes) (o : Option (List (List Bytes))) → ¬ (report_path path o ≡ some [])
some_path path none e = ground arith
some_path path (some paths) e = ground arith

module _ (fuel : ℕ) (adj : Adjacency) where
  after_root-Searched :
      (id : Bytes) (ids : List Bytes) (v : Visits) (s : Search)
      → Finishes (Visited adj id v) s
      → ((w : Visits) (finished : List Bytes)
          → Progress adj finished w
          → each_root fuel adj ids w ≡ some []
          → Searched adj ids w)
      → after_root (each_root fuel adj ids) s ≡ some []
      → Searched adj (id ∷ ids) v
  after_root-Searched id ids v no_fuel h k e = ground arith
  after_root-Searched id ids v (cycle path w) h k e = absurd (some_path path _ e)
  after_root-Searched id ids v (no_cycle w) h k e =
      next_root adj id ids v w h.grown h.seen (k w h.done_ids h.progress e)

  each_root-Searched :
      (ids : List Bytes) (v : Visits) (finished : List Bytes)
      → Progress adj finished v
      → each_root fuel adj ids v ≡ some []
      → Searched adj ids v
  unfolding each_root
  each_root-Searched [] v finished p e = record {
    done_ids = finished;
    last = v;
    progress = p;
    grown = Grown-refl v;
    every = tt;
  }
  each_root-Searched (id ∷ ids) v finished p e =
      let step : Bool → Option (List (List Bytes)) = λ b. elim b [
        | true ↦ each_root fuel adj ids v
        | false ↦ after_root (each_root fuel adj ids) (dfs fuel adj [] id v)
      ] in
      elim (Bool-cases (member id v.visited)) [
        | inl seen ↦
            next_root adj id ids v v (Grown-refl v) seen
              (each_root-Searched ids v finished p (sym (ap step seen) ∙ e))
        | inr new ↦
            after_root-Searched id ids v (dfs fuel adj [] id v)
              (dfs-Visited fuel adj [] id v finished p new)
              (λ w f q r. each_root-Searched ids w f q r) (sym (ap step new) ∙ e)
      ]

-- The place of an id from the end of a list.
unfoldable rank_in : List Bytes → Bytes → ℕ
rank_in [] i = 0
rank_in (j ∷ older) i = let n = rank_in older i in if eqb j i then suc (length older) else n

rank_in-le-length : (ids : List Bytes) (i : Bytes) → rank_in ids i ≤ length ids
unfolding rank_in
rank_in-le-length [] i = omega arith
rank_in-le-length (j ∷ older) i = ground (arith, rank_in-le-length older i)

rank_in-lt :
    (adj : Adjacency) (finished : List Bytes) (id d : Bytes)
    → Settled adj finished
    → member id finished ≡ true
    → member d (dependents id adj) ≡ true
    → (rank_in finished d < rank_in finished id) × (member d finished ≡ true)
unfolding rank_in member
rank_in-lt adj [] id d s q r = ground arith
rank_in-lt adj (x ∷ older) id d (new, deps, s) q r = elim (Bool-cases (eqb x id)) [
  | inl e ↦
      let below =
        deps d (subst (λ k. member d (dependents k adj) ≡ true) (sym ((eqb_iff x id).0 e)) r) in
      ground (arith, rank_in-le-length older d, eqb_iff x d)
  | inr e ↦
      let (less, there) =
        rank_in-lt adj older id d s (sym (ap (λ b. if b then true else member id older) e) ∙ q) r in
      ground (arith, eqb_iff x d)
]

listed :
    (adj : Adjacency) (order : List Bytes) (id d : Bytes)
    → Ranges adj order
    → member d (dependents id adj) ≡ true
    → member id order ≡ true
unfolding lookup member
listed [] order id d h q = ground arith
listed ((k, deps) ∷ adj) order id d (p, h) q = elim (Bool-cases (eqb k id)) [
  | inl e ↦ subst (λ j. member j order ≡ true) ((eqb_iff k id).0 e) p
  | inr e ↦ listed adj order id d h (sym (ap by e) ∙ q)
]
  where
    by : Bool → Bool
    by b = member d (elim (if b then some deps else lookup id adj) [ none ↦ [] | some ids ↦ ids ])

new_Progress : (adj : Adjacency) → Progress adj [] no_visits
unfolding member
new_Progress adj = record { same = λ i. refl; below = λ i q. ground arith; settled = tt }

pub cycles-IsRanked :
    (adj : Adjacency) (order : List Bytes)
    → Ranges adj order
    → cycles adj order ≡ some []
    → IsAcyclic adj
unfolding cycles member
cycles-IsRanked adj order h e =
    let s = each_root-Searched (suc (length adj)) adj order no_visits [] (new_Progress adj) e in
    (
      rank_in s.done_ids,
      λ id d q.
          let seen = every-member _ order id s.every (listed adj order id d h q) in
          let off = s.grown.stack id in
          (rank_in-lt adj s.done_ids id d s.progress.settled (ground (arith, s.progress.same id))
            q).0,
    )
