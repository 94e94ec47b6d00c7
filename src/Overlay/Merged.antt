-- ===== src/Overlay/Merged.antt =====
-- overlay/engine.go: what a key of a mapping has when an update is merged into it.
use libopenapi.Prelude.{
  true, false, Bytes, Option, none, some, eqb, eqb_iff, eqb_refl, if◌then◌else◌, ◌≡◌, refl, sym, ap,
  ◌∙◌, inl, inr, Bool-cases,
}
use mathlib.Core.Option.{map}
use mathlib.Core.Path.{subst}
use libopenapi.Yaml.{Kind, Node, absent, node, Nodes, nil, cons}
use libopenapi.Overlay.Merge.{merge_entry, merge_node, merge_mapping_node, chain}

-- The first value under a key.
unfoldable pub find : Bytes → Nodes → Option Node
find key nil = none
find key (cons absent rest) = none
find key (cons (node k t v c) nil) = none
find key (cons (node k t v c) (cons x rest)) =
    let below = find key rest in if eqb v key then some x else below

-- Keys and values by turns.
abbrev pub IsPaired : Nodes → Type 0
IsPaired nil = Unit
IsPaired (cons absent rest) = ⊥
IsPaired (cons (node k t v c) nil) = ⊥
IsPaired (cons (node k t v c) (cons x rest)) = IsPaired rest

-- The same, and no key twice.
abbrev pub IsDistinct : Nodes → Type 0
IsDistinct nil = Unit
IsDistinct (cons absent rest) = ⊥
IsDistinct (cons (node k t v c) nil) = ⊥
IsDistinct (cons (node k t v c) (cons x rest)) = (find v rest ≡ none) × IsDistinct rest

abbrev fetched : (Node → Option Node) → Node → Option Node → Option Node
fetched f x none = some x
fetched f x (some y) = f y

-- Under the key is what `f` makes of what was there, or `x`; all other keys have what they had.
abbrev Sets : Bytes → (Node → Option Node) → Node → Nodes → Option Nodes → Type 0
Sets key f x c none = Unit
Sets key f x c (some d) =
    (find key d ≡ fetched f x (find key c))
    × (((j : Bytes) → eqb key j ≡ false → find j d ≡ find j c) × IsPaired d)

module _ (key : Bytes) (f : Node → Option Node) (x : Node) where
  other_key : (v j : Bytes) → eqb v key ≡ true → eqb key j ≡ false → eqb v j ≡ false
  other_key v j p q = ap (λ u. eqb u j) ((eqb_iff v key).0 p) ∙ q

  module _ (j : Kind) (t v : Bytes) (b : Nodes) (y : Node) (rest : Nodes) where
    replaced-Sets :
        (o : Option Node)
        → f y ≡ o
        → eqb v key ≡ true
        → IsPaired rest
        → Sets key f x
            (cons (node j t v b) (cons y rest))
            (map (λ z. cons (node j t v b) (cons z rest)) o)
    unfolding find
    replaced-Sets none q e p = tt
    replaced-Sets (some z) q e p = (rw e (sym q), ((λ i n. rw (other_key v i e n) refl), p))

    kept-Sets :
        (o : Option Nodes)
        → eqb v key ≡ false
        → Sets key f x rest o
        → Sets key f x
            (cons (node j t v b) (cons y rest))
            (map (λ ns. cons (node j t v b) (cons y ns)) o)
    unfolding find
    kept-Sets none e s = tt
    kept-Sets (some ns) e (here, (there, p)) =
        (rw e here, ((λ i n. ap (λ o. if eqb v i then some y else o) (there i n)), p))

  module _ (k : Kind) (t : Bytes) (b : Nodes) where
    added-Sets : Sets key f x nil (some (cons (node k t key b) (cons x nil)))
    unfolding find
    added-Sets = (rw (eqb_refl key) refl, ((λ j n. rw n refl), tt))

    pub merge_entry-Sets :
        (c : Nodes)
        → IsPaired c
        → Sets key f x c (merge_entry key f (cons (node k t key b) (cons x nil)) c)
    unfolding merge_entry
    merge_entry-Sets nil p = added-Sets
    merge_entry-Sets (cons absent rest) p = absurd p
    merge_entry-Sets (cons (node j u v d) nil) p = absurd p
    merge_entry-Sets (cons (node j u v d) (cons y rest)) p = elim (Bool-cases (eqb v key)) [
      | inl e ↦ rw e (replaced-Sets j u v d y rest (f y) refl e p)
      | inr e ↦ rw e (kept-Sets j u v d y rest _ e (merge_entry-Sets rest p))
    ]

-- What a key has when the second mapping is merged into the first.
abbrev pub combined : Option Node → Option Node → Option Node
combined o none = o
combined none (some x) = some x
combined (some y) (some x) = merge_node y x

abbrev Combines : Nodes → Nodes → Option Nodes → Type 0
Combines c m none = Unit
Combines c m (some d) = (key : Bytes) → find key d ≡ combined (find key c) (find key m)

fetched-combined :
    (x : Node) (o : Option Node) → fetched (λ y. merge_node y x) x o ≡ combined o (some x)
fetched-combined x none = refl
fetched-combined x (some y) = refl

module _ (j : Kind) (u w : Bytes) (d : Nodes) (x : Node) (rest : Nodes)
    (fresh : find w rest ≡ none) where
  module _ (c more : Nodes) (sets : Sets w (λ y. merge_node y x) x c (some more)) where
    at_key : combined (find w more) (find w rest) ≡ combined (find w c) (some x)
    at_key = rw fresh (sets.0 ∙ fetched-combined x (find w c))

    entry-combined :
        (key : Bytes)
        → combined (find key more) (find key rest)
          ≡ combined (find key c) (find key (cons (node j u w d) (cons x rest)))
    unfolding find
    entry-combined key = elim (Bool-cases (eqb w key)) [
      | inl e ↦ rw e (
          subst (λ k. combined (find k more) (find k rest) ≡ combined (find k c) (some x))
            ((eqb_iff w key).0 e) at_key)
      | inr e ↦ rw e (ap (λ o. combined o (find key rest)) (sets.1.0 key e))
    ]

    rest-Combines :
        (o : Option Nodes) → Combines more rest o → Combines c (cons (node j u w d) (cons x rest)) o
    rest-Combines none s = tt
    rest-Combines (some m) s = λ key. s key ∙ entry-combined key

  entry-Combines :
      (c : Nodes) (o : Option Nodes)
      → Sets w (λ y. merge_node y x) x c o
      → ((more : Nodes) → IsPaired more → Combines more rest (merge_mapping_node more rest))
      → Combines c
          (cons (node j u w d) (cons x rest))
          (chain (λ more. merge_mapping_node more rest) o)
  entry-Combines c none s next = tt
  entry-Combines c (some more) s next =
      rest-Combines c more s (merge_mapping_node more rest) (next more s.1.1)

merge_mapping_node-Combines :
    (m c : Nodes) → IsPaired c → IsDistinct m → Combines c m (merge_mapping_node c m)
unfolding merge_mapping_node find
merge_mapping_node-Combines nil c p q = λ key. refl
merge_mapping_node-Combines (cons absent rest) c p q = absurd q
merge_mapping_node-Combines (cons (node j u w d) nil) c p q = absurd q
merge_mapping_node-Combines (cons (node j u w d) (cons x rest)) c p (fresh, q) =
    entry-Combines j u w d x rest fresh c _ (merge_entry-Sets w (λ y. merge_node y x) x j u d c p)
      (λ more r. merge_mapping_node-Combines rest more r q)

-- A key of the merged mapping has what the two values under it merge to, where both mappings have
-- the key; else what the one that has it has. The mappings have keys and values by turns, and the
-- update no key twice.
pub merge_mapping_node-find :
    (c m d : Nodes) (key : Bytes)
    → IsPaired c
    → IsDistinct m
    → merge_mapping_node c m ≡ some d
    → find key d ≡ combined (find key c) (find key m)
merge_mapping_node-find c m d key p q e =
    subst (Combines c m) e (merge_mapping_node-Combines m c p q) key
