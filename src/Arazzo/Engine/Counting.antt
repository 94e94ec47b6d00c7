-- ===== src/Arazzo/Engine/Counting.antt =====
-- arazzo/engine.go: the number of degrees that `topologicalSort` compares its order with.
use libopenapi.Prelude.{
  suc, ◌+◌, ◌≤◌, true, false, List, [], ◌∷◌, ◌++◌, length, Bytes, eqb, eqb_iff, eqb_refl, member,
  if◌then◌else◌, ◌≡◌, refl, sym, ap, ◌∙◌, arith, inl, inr, Bool-cases, Option-cases,
}
use libopenapi.Prelude.Number.{ℤ, pos}
use libopenapi.Prelude.Dict.{lookup, insert}
use libopenapi.Arazzo.Engine.Document.{Workflow}
use libopenapi.Arazzo.Engine.Order.{
  Degrees, degree, increment, dependents, zero_degrees, add_edges, all_edges,
}
use libopenapi.Arazzo.Engine.Edges.{IsDistinct}
use libopenapi.Arazzo.Engine.Graph.{workflow_ids, is_some, is_some-insert, known_lem}

-- A list without its first `x`.
unfoldable remove : Bytes → List Bytes → List Bytes
remove x [] = []
remove x (y ∷ ys) = let rest = remove x ys in if eqb y x then ys else y ∷ rest

length-remove :
    (x : Bytes) (ys : List Bytes) → member x ys ≡ true → suc (length (remove x ys)) ≡ length ys
unfolding remove member
length-remove x [] q = ground arith
length-remove x (y ∷ ys) q = ground (arith, length-remove x ys)

member-remove :
    (x i : Bytes) (ys : List Bytes)
    → eqb x i ≡ false
    → member i ys ≡ true
    → member i (remove x ys) ≡ true
unfolding remove member
member-remove x i [] p q = q
member-remove x i (y ∷ ys) p q = ground (arith, member-remove x i ys p, eqb_iff y x, eqb_iff y i)

not_member :
    (x i : Bytes) (xs : List Bytes) → member x xs ≡ false → member i xs ≡ true → eqb x i ≡ false
not_member x i xs p q = elim (Bool-cases (eqb x i)) [
  | inl e ↦ let same = ap (λ k. member k xs) ((eqb_iff x i).0 e) in ground arith
  | inr e ↦ e
]

-- Distinct ids that are all in a list are no more than the list has.
pub length-le_of_members :
    (xs ys : List Bytes)
    → IsDistinct xs
    → ((i : Bytes) → member i xs ≡ true → member i ys ≡ true)
    → length xs ≤ length ys
unfolding member
length-le_of_members [] ys d h = omega arith
length-le_of_members (x ∷ xs) ys (new, d) h =
    let there = h x (ground (arith, eqb_refl x)) in
    omega (
      arith,
      length-remove x ys there,
      length-le_of_members xs (remove x ys) d
          (λ i q. member-remove x i ys (not_member x i xs new q) (h i (ground arith))),
    )

length-insert :
    (k : Bytes) (n : ℤ) (m : Degrees)
    → is_some (lookup k m) ≡ true
    → length (insert k n m) ≡ length m
unfolding lookup insert
length-insert k n [] q = ground arith
length-insert k n ((j, i) ∷ m) q = ground (arith, length-insert k n m)

length-insert_new :
    (k : Bytes) (n : ℤ) (m : Degrees)
    → is_some (lookup k m) ≡ false
    → length (insert k n m) ≡ suc (length m)
unfolding lookup insert
length-insert_new k n [] q = refl
length-insert_new k n ((j, i) ∷ m) q = ground (arith, length-insert_new k n m)

-- Every id has a degree.
abbrev Keeps : List Bytes → Degrees → Type 0
Keeps ids m = (i : Bytes) → member i ids ≡ true → is_some (lookup i m) ≡ true

insert-Keeps :
    (ids : List Bytes) (k : Bytes) (n : ℤ) (m : Degrees) → Keeps ids m → Keeps ids (insert k n m)
insert-Keeps ids k n m h i q = ground (arith, is_some-insert k i n m, h i q)

add_edges-length :
    (known : Degrees) (ids : List Bytes) (id : Bytes) (deps : List Bytes)
    (adj : List (Bytes × List Bytes)) (m : Degrees)
    → member id ids ≡ true
    → Keeps ids m
    → (length (add_edges known id deps (adj, m)).1 ≡ length m)
      × Keeps ids (add_edges known id deps (adj, m)).1
unfolding add_edges
add_edges-length known ids id [] adj m q h = (refl, h)
add_edges-length known ids id (dep ∷ deps) adj m q h = elim (Option-cases (lookup dep known)) [
  | inl e ↦ rw (add_edges, e) (add_edges-length known ids id deps adj m q h)
  | inr (n, e) ↦
      let (same, kept) =
        add_edges-length known ids id deps (insert dep (dependents dep adj ++ (id ∷ [])) adj)
          (insert id (increment (degree id m)) m) q (insert-Keeps ids id _ m h) in
      rw (add_edges, e) (same ∙ length-insert id _ m (h id q), kept)
]

all_edges-length :
    {F : Type 0} (known : Degrees) (ids : List Bytes) (ws : List (Workflow F))
    (g : List (Bytes × List Bytes) × Degrees)
    → ((i : Bytes) → member i (workflow_ids ws) ≡ true → member i ids ≡ true)
    → Keeps ids g.1
    → length (all_edges known ws g).1 ≡ length g.1
unfolding all_edges member
all_edges-length known ids [] g h k = refl
all_edges-length known ids (w ∷ ws) (adj, m) h k =
    let (same, kept) =
      add_edges-length known ids w.workflow_id w.depends_on adj m
        (h w.workflow_id (ground (arith, eqb_refl w.workflow_id))) k in
    all_edges-length known ids ws (add_edges known w.workflow_id w.depends_on (adj, m))
      (λ i q. h i (ground arith)) kept
    ∙ same

zero_degrees-length :
    {F : Type 0} (ws : List (Workflow F)) (m : Degrees)
    → IsDistinct (workflow_ids ws)
    → ((i : Bytes) → member i (workflow_ids ws) ≡ true → is_some (lookup i m) ≡ false)
    → length (zero_degrees ws m) ≡ length ws + length m
unfolding zero_degrees member
zero_degrees-length [] m d h = omega arith
zero_degrees-length (w ∷ ws) m (new, d) h =
    let absent = h w.workflow_id (ground (arith, eqb_refl w.workflow_id)) in
    let other : (i : Bytes) → member i (workflow_ids ws) ≡ true → eqb w.workflow_id i ≡ false =
      λ i q. not_member w.workflow_id i (workflow_ids ws) new q in
    elim (Option-cases (lookup w.workflow_id m)) [
      | inl e ↦
          rw (zero_degrees, e)
            (omega (
              arith,
              zero_degrees-length ws (insert w.workflow_id (pos 0) m) d
                  (λ i q. ground (arith, is_some-insert w.workflow_id i (pos 0) m, h i, other i q)),
              length-insert_new w.workflow_id (pos 0) m absent,
            ))
      | inr (n, e) ↦ let bad = sym (ap is_some e) ∙ absent in ground arith
    ]

-- A degree for each workflow.
pub degrees-length :
    {F : Type 0} (ws : List (Workflow F))
    → IsDistinct (workflow_ids ws)
    → length (all_edges (zero_degrees ws []) ws ([], zero_degrees ws [])).1 ≡ length ws
unfolding member lookup
degrees-length ws d =
    all_edges-length (zero_degrees ws []) (workflow_ids ws) ws ([], zero_degrees ws []) (λ i q. q)
      (λ i q. known_lem ws i [] ∙ q)
    ∙ zero_degrees-length ws [] d (λ i q. refl)
    ∙ omega arith
