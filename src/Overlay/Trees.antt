-- ===== src/Overlay/Trees.antt =====
-- overlay/engine.go: merging trees without nil nodes, whose mappings have keys and values by turns.
use libopenapi.Prelude.{
  ℕ, true, Bytes, Option, none, some, eqb, ◌==◌, ==_iff, if◌then◌else◌, ◌≡◌, refl, sym, ap, ◌∙◌,
  inl, inr, Bool-cases,
}
use mathlib.Core.Option.{map}
use mathlib.Core.Path.{subst}
use libopenapi.Yaml.{
  Kind, no_kind, document_node, sequence_node, mapping_node, scalar_node, alias_node, Node, absent,
  node, Nodes, nil, cons,
}
use libopenapi.Overlay.Merge.{
  number, same_kind, append, chain, merge_entry, merged_as, merge_node, merge_mapping_node,
}

unfoldable mutual
  pub IsTree : Node → Type 0
  IsTree absent = ⊥
  IsTree (node mapping_node t v c) = IsMapping c
  IsTree (node k t v c) = AreTrees c

  pub IsMapping : Nodes → Type 0
  IsMapping nil = Unit
  IsMapping (cons absent rest) = ⊥
  IsMapping (cons (node k t v c) nil) = ⊥
  IsMapping (cons (node k t v c) (cons x rest)) = IsTree x × IsMapping rest

  pub AreTrees : Nodes → Type 0
  AreTrees nil = Unit
  AreTrees (cons n ns) = IsTree n × AreTrees ns

-- No panic, and a tree again.
abbrev pub GivesTree : Option Node → Type 0
GivesTree none = ⊥
GivesTree (some n) = IsTree n

abbrev pub GivesMapping : Option Nodes → Type 0
GivesMapping none = ⊥
GivesMapping (some c) = IsMapping c

kind_of : ℕ → Kind
kind_of n =
    if n == 1
    then document_node
    else if n == 2
    then sequence_node
    else if n == 4
    then mapping_node
    else if n == 8
    then scalar_node
    else if n == 16
    then alias_node
    else no_kind

kind_of-number : (k : Kind) → kind_of (number k) ≡ k
unfolding kind_of
kind_of-number no_kind = refl
kind_of-number document_node = refl
kind_of-number sequence_node = refl
kind_of-number mapping_node = refl
kind_of-number scalar_node = refl
kind_of-number alias_node = refl

pub same_kind-eq : (k j : Kind) → same_kind k j ≡ true → k ≡ j
same_kind-eq k j e =
    sym (kind_of-number k) ∙ ap kind_of ((==_iff (number k) (number j)).0 e) ∙ kind_of-number j

AreTrees-append : (c d : Nodes) → AreTrees c → AreTrees d → AreTrees (append c d)
unfolding append AreTrees
AreTrees-append nil d p q = q
AreTrees-append (cons n c) d (a, p) q = (a, AreTrees-append c d p q)

module _ (key : Bytes) (f : Node → Option Node)
    (fine : (y : Node) → IsTree y → GivesTree (f y)) where
  replaced-IsMapping :
      (k : Kind) (t v : Bytes) (b rest : Nodes) (o : Option Node)
      → GivesTree o
      → IsMapping rest
      → GivesMapping (map (λ y. cons (node k t v b) (cons y rest)) o)
  unfolding IsMapping
  replaced-IsMapping k t v b rest none p q = p
  replaced-IsMapping k t v b rest (some y) p q = (p, q)

  kept-IsMapping :
      (k : Kind) (t v : Bytes) (b : Nodes) (x : Node) (o : Option Nodes)
      → IsTree x
      → GivesMapping o
      → GivesMapping (map (λ ns. cons (node k t v b) (cons x ns)) o)
  unfolding IsMapping
  kept-IsMapping k t v b x none p q = q
  kept-IsMapping k t v b x (some ns) p q = (p, q)

  merge_entry-IsMapping :
      (more c : Nodes) → IsMapping more → IsMapping c → GivesMapping (merge_entry key f more c)
  unfolding merge_entry IsMapping
  merge_entry-IsMapping more nil p q = p
  merge_entry-IsMapping more (cons absent rest) p q = absurd q
  merge_entry-IsMapping more (cons (node k t v b) nil) p q = absurd q
  merge_entry-IsMapping more (cons (node k t v b) (cons x rest)) p (a, q) =
      elim (Bool-cases (eqb v key)) [
        | inl e ↦ rw e (replaced-IsMapping k t v b rest (f x) (fine x a) q)
        | inr e ↦ rw e (kept-IsMapping k t v b x _ a (merge_entry-IsMapping more rest p q))
      ]

mapping_of :
    (t v : Bytes) (o : Option Nodes) → GivesMapping o → GivesTree (map (node mapping_node t v) o)
unfolding IsTree
mapping_of t v none p = p
mapping_of t v (some c) p = p

-- Two nodes of the same kind.
merged_as-IsTree :
    (k : Kind) (t v w u : Bytes) (c d : Nodes) (o : Option Nodes)
    → IsTree (node k t v c)
    → IsTree (node k u w d)
    → (IsMapping c → IsMapping d → GivesMapping o)
    → GivesTree (merged_as k t v c w d o)
unfolding IsTree
merged_as-IsTree mapping_node t v w u c d o p q entries = mapping_of t v o (entries p q)
merged_as-IsTree sequence_node t v w u c d o p q entries = AreTrees-append c d p q
merged_as-IsTree no_kind t v w u c d o p q entries = p
merged_as-IsTree document_node t v w u c d o p q entries = p
merged_as-IsTree scalar_node t v w u c d o p q entries = p
merged_as-IsTree alias_node t v w u c d o p q entries = p

chain-IsMapping :
    (f : Nodes → Option Nodes) (o : Option Nodes)
    → GivesMapping o
    → ((c : Nodes) → IsMapping c → GivesMapping (f c))
    → GivesMapping (chain f o)
chain-IsMapping f none p g = p
chain-IsMapping f (some c) p g = g c p

mutual
  unfolding IsTree merge_node

  node-IsTree : (m n : Node) → IsTree n → IsTree m → GivesTree (merge_node n m)
  node-IsTree absent n p q = absurd q
  node-IsTree (node j u w d) absent p q = absurd p
  node-IsTree (node j u w d) (node k t v c) p q = elim (Bool-cases (same_kind k j)) [
    | inl e ↦ rw e (
        merged_as-IsTree k t v w u c d _ p
          (subst (λ i. IsTree (node i u w d)) (sym (same_kind-eq k j e)) q)
          (λ a b. mapping-IsMapping d c a b))
    | inr e ↦ rw e q
  ]

  mapping-IsMapping :
      (m c : Nodes) → IsMapping c → IsMapping m → GivesMapping (merge_mapping_node c m)
  mapping-IsMapping nil c p q = p
  mapping-IsMapping (cons absent rest) c p q = absurd q
  mapping-IsMapping (cons (node j u w d) nil) c p q = absurd q
  mapping-IsMapping (cons (node j u w d) (cons x rest)) c p (a, q) =
      chain-IsMapping (λ more. merge_mapping_node more rest) _
        (merge_entry-IsMapping w (λ y. merge_node y x) (λ y b. node-IsTree x y b a)
          (cons (node j u w d) (cons x nil)) c (a, tt) p)
        (λ more r. mapping-IsMapping rest more r q)

-- Merging a tree into a tree does not panic, and gives a tree.
pub merge_node-IsTree :
    (n m : Node) → IsTree n → IsTree m → (r : Node) × (merge_node n m ≡ some r) × IsTree r
merge_node-IsTree n m p q = given (merge_node n m) (node-IsTree m n p q)
  where
    given : (o : Option Node) → GivesTree o → (r : Node) × (o ≡ some r) × IsTree r
    given none g = absurd g
    given (some r) g = (r, refl, g)
