-- ===== src/Overlay/Removed.antt =====
-- overlay/engine.go: what the keys of a mapping have after a removal; and the tags of merged nodes.
use libopenapi.Prelude.{
  [], suc, Bool, true, false, Bytes, Option, none, some, eqb, eqb_refl, eqb_iff, if◌then◌else◌, ◌≡◌,
  refl, sym, ap, ◌∙◌, arith, inl, inr, Bool-cases,
}
use mathlib.Core.Path.{subst}
use libopenapi.Prelude.Outcome.{ok}
use libopenapi.Yaml.{
  Kind, no_kind, document_node, sequence_node, mapping_node, scalar_node, alias_node, Node, absent,
  node, Nodes, nil, cons, count,
}
use libopenapi.Overlay.Merge.{append, same_kind, merged_as, merge_node, merge_mapping_node}
use libopenapi.Overlay.Merged.{find, IsPaired, IsDistinct}
use libopenapi.Overlay.Remove.{take, drop, remove_child}

take_before : (c d : Nodes) → take (count c) (append c d) ≡ c
unfolding take append
take_before nil d = refl
take_before (cons n c) d = ap (cons n) (take_before c d)

drop_pair :
    (c d : Nodes) (n x : Node) → drop (suc (suc (count c))) (append c (cons n (cons x d))) ≡ d
unfolding drop append
drop_pair nil d n x = refl
drop_pair (cons m c) d n x = drop_pair c d n x

some≢none : {A : Type 0} {a : A} → ¬ (some a ≡ none)
some≢none e = ground arith

module _ (k : Kind) (t v : Bytes) (b : Nodes) (x : Node) (rest : Nodes) where
  abbrev whole : Nodes → Nodes
  whole before = append before (cons (node k t v b) (cons x rest))

  has_key : (before : Nodes) → IsPaired before → ¬ (find v (whole before) ≡ none)
  unfolding append find
  has_key nil p e = some≢none (sym (ap (λ o. if o then some x else find v rest) (eqb_refl v)) ∙ e)
  has_key (cons absent c) p e = absurd p
  has_key (cons (node i s w a) nil) p e = absurd p
  has_key (cons (node i s w a) (cons y c)) p e = elim (Bool-cases (eqb w v)) [
    | inl q ↦ some≢none (sym (ap (λ o. if o then some y else find v (whole c)) q) ∙ e)
    | inr q ↦ has_key c p (sym (ap (λ o. if o then some y else find v (whole c)) q) ∙ e)
  ]

  without :
      (before : Nodes)
      → IsPaired before
      → IsDistinct (whole before)
      → (find v (append before rest) ≡ none)
        × ((j : Bytes) → eqb v j ≡ false → find j (append before rest) ≡ find j (whole before))
  unfolding append find
  without nil p (fresh, q) = (fresh, λ j n. rw n refl)
  without (cons absent c) p q = absurd p
  without (cons (node i s w a) nil) p q = absurd p
  without (cons (node i s w a) (cons y c)) p (fresh, q) =
      let (gone, same) = without c p q in
      (
        elim (Bool-cases (eqb w v)) [
          | inl e ↦
              absurd (has_key c p (subst (λ u. find u (whole c) ≡ none) ((eqb_iff w v).0 e) fresh))
          | inr e ↦ rw e gone
        ],
        λ j n. ap (λ o. if eqb w j then some y else o) (same j n),
      )

  -- Removing the value of a key from a mapping removes the key, and every other key has what it had.
  -- The mapping has keys and values by turns, and no key twice.
  pub remove_child-find :
      (before : Nodes)
      → IsPaired before
      → IsDistinct (append before (cons (node k t v b) (cons x rest)))
      → (d : Nodes) × (remove_child mapping_node
            (suc (count before))
            (append before (cons (node k t v b) (cons x rest)))
          ≡ ok d)
        × (find v d ≡ none)
        × ((j : Bytes)
            → eqb v j ≡ false
            → find j d ≡ find j (append before (cons (node k t v b) (cons x rest))))
  unfolding remove_child
  remove_child-find before p q =
      let (gone, same) = without before p q in (append before rest, removed, gone, same)
    where
      removed :
          remove_child mapping_node (suc (count before)) (whole before) ≡ ok (append before rest)
      removed = λ i. ok (
          append (take_before before (cons (node k t v b) (cons x rest)) i)
            (drop_pair before rest (node k t v b) x i))

abbrev pub tag : Node → Bytes
tag absent = []
tag (node k t v c) = t

abbrev pub kind : Node → Kind
kind absent = no_kind
kind (node k t v c) = k

node_of : {n r : Node} → some n ≡ some r → n ≡ r
node_of {n = n} e = ap (λ o. elim o [ none ↦ n | some x ↦ x ]) e

tag_of : {n r : Node} → some n ≡ some r → tag n ≡ tag r
tag_of e = ap tag (node_of e)

merged_as-tag :
    (k : Kind) (t v w : Bytes) (c d : Nodes) (o : Option Nodes) (r : Node)
    → merged_as k t v c w d o ≡ some r
    → tag r ≡ t
merged_as-tag mapping_node t v w c d none r e = absurd (some≢none (sym e))
merged_as-tag mapping_node t v w c d (some ns) r e = sym (tag_of e)
merged_as-tag sequence_node t v w c d o r e = sym (tag_of e)
merged_as-tag no_kind t v w c d o r e = sym (tag_of e)
merged_as-tag document_node t v w c d o r e = sym (tag_of e)
merged_as-tag scalar_node t v w c d o r e = sym (tag_of e)
merged_as-tag alias_node t v w c d o r e = sym (tag_of e)

-- A node that is merged with one of its own kind keeps its tag, whatever the tag of the update is;
-- one of another kind becomes the update.
pub merge_node-tag :
    (n m r : Node)
    → merge_node n m ≡ some r
    → (same_kind (kind n) (kind m) ≡ true → tag r ≡ tag n)
      × (same_kind (kind n) (kind m) ≡ false → r ≡ m)
unfolding merge_node
merge_node-tag n absent r e = absurd (some≢none (sym e))
merge_node-tag absent (node j u w d) r e = absurd (some≢none (sym e))
merge_node-tag (node k t v c) (node j u w d) r e =
    let same = merged_as k t v c w d (merge_mapping_node c d) in
    let by : Bool → Option Node = λ o. if o then same else some (node j u w d) in
    (
      λ q. merged_as-tag k t v w c d (merge_mapping_node c d) r (sym (ap by q) ∙ e),
      λ q. sym (node_of (sym (ap by q) ∙ e)),
    )
