-- ===== src/Arazzo/Criterion/NilBelow.antt =====
-- arazzo/yamlutil.go and arazzo/expression/evaluator.go: a nil value inside a map that becomes a node.
use libopenapi.Prelude.{
  ℕ, zero, suc, [], ◌∷◌, ◌++◌, none, some, Bytes, codes, eqb_refl, index, index_byte, has_prefix,
  Lacks, index_byte-append, ◌≤◌, length, take-append, drop-suc-append, ◌≡◌, ◌≢◌, refl, arith, inl,
  inr, Option-cases, length-append,
}
use libopenapi.Prelude.Outcome.{err}
use libopenapi.Yaml
use libopenapi.Yaml.{Node, absent, node, Nodes, mapping_node, scalar}
use libopenapi.Arazzo.Value.{null, object, Entries, entry}
use libopenapi.Arazzo.Evaluator.Pointer.{
  nil_dereference, unescape_json_pointer, find_key, descend, walk, resolve_json_pointer,
}
use libopenapi.Arazzo.Criterion.{Host}
use libopenapi.Arazzo.Criterion.Nodes.{to_yaml_node, direct_yaml_node, entry_nodes}

index-Lacks : (s : Bytes) → Lacks b'~' s → index s (codes "~") ≡ none
unfolding index has_prefix
index-Lacks [] l = refl
index-Lacks (c ∷ s) l = ground (arith, index-Lacks s)

unescape_json_pointer-Lacks : (s : Bytes) → Lacks b'~' s → unescape_json_pointer s ≡ s
unfolding unescape_json_pointer
unescape_json_pointer-Lacks s l = ground (arith, index-Lacks s l)

walk-absent :
    (fuel : ℕ) (c : ℕ) (s : Bytes) → 1 ≤ fuel → walk fuel absent (c ∷ s) ≡ err nil_dereference
unfolding walk descend
walk-absent zero c s l = ground arith
walk-absent (suc fuel) c s l = elim (Option-cases (index_byte (c ∷ s) b'/')) [
  | inl e ↦ rw (walk, e)
  | inr (i, e) ↦ rw (walk, e)
]

walk-below :
    (fuel d c : ℕ) (k s : Bytes) (rest : Nodes)
    → 1 ≤ fuel
    → Lacks b'/' (d ∷ k)
    → Lacks b'~' (d ∷ k)
    → walk
        (suc fuel)
        (node mapping_node
          (codes "!!map")
          []
          (Yaml.cons (scalar (codes "!!str") (d ∷ k)) (Yaml.cons absent rest)))
        (d ∷ (k ++ (b'/' ∷ c ∷ s)))
      ≡ err nil_dereference
unfolding walk descend find_key
walk-below fuel d c k s rest l slash tilde =
    rw
      (
        walk,
        index_byte-append (d ∷ k) (c ∷ s) b'/' slash,
        take-append (d ∷ k) (b'/' ∷ c ∷ s),
        drop-suc-append (d ∷ k) (c ∷ s) b'/',
        unescape_json_pointer-Lacks (d ∷ k) tilde,
        descend,
        find_key,
        eqb_refl (d ∷ k),
      )
      (walk-absent fuel c s l)

module _ (h : Host) where
  first_nil :
      (k : Bytes) (m : Entries h.floats.Float) (n : Node)
      → to_yaml_node h (object (entry k null m)) ≡ some n
      → (rest : Nodes) × (n
          ≡ node mapping_node
              (codes "!!map")
              []
              (Yaml.cons (scalar (codes "!!str") k) (Yaml.cons absent rest)))
  unfolding to_yaml_node direct_yaml_node
  first_nil k m n e = elim (Option-cases (entry_nodes h m)) [
    | inl q ↦ ground arith
    | inr (rest, q) ↦ (rest, ground arith)
  ]

  -- A map whose first entry is nil becomes a node below which `resolveJSONPointer` dereferences
  -- nil: with the entry's key, which is not empty and needs no escaping, and any text that is not
  -- empty behind it as the pointer.
  pub to_yaml_node-nil_below :
      (k : Bytes) (m : Entries h.floats.Float) (n : Node) (c : ℕ) (s : Bytes)
      → to_yaml_node h (object (entry k null m)) ≡ some n
      → Lacks b'/' k
      → Lacks b'~' k
      → k ≢ []
      → resolve_json_pointer h.floats n (b'/' ∷ (k ++ (b'/' ∷ c ∷ s))) ≡ err nil_dereference
  unfolding resolve_json_pointer
  to_yaml_node-nil_below [] m n c s e slash tilde ne = absurd (ne refl)
  to_yaml_node-nil_below (d ∷ k) m n c s e slash tilde ne =
      let (rest, q) = first_nil (d ∷ k) m n e in
      rw q (
        rw (
          walk-below (length (k ++ (b'/' ∷ c ∷ s))) d c k s rest
            (omega (arith, length-append k (b'/' ∷ c ∷ s))) slash tilde))
