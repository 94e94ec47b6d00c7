-- ===== src/Arazzo/Evaluator/Segments.antt =====
-- arazzo/expression/evaluator.go: the loop of `resolveJSONPointer` against a walk along a list of
-- segments, and `UnescapeJSONPointer` against the escaping of RFC 6901.
use libopenapi.Prelude.{
  ℕ, zero, suc, ◌≤◌, List, [], ◌∷◌, ◌++◌, ◌≡◌, ◌≢◌, inl, inr, refl, ap, ◌∙◌, append_assoc,
  append-nil, arith, none, some, Bytes, codes, ◌==◌, eqb, index, has_prefix, index_byte,
  replace_all, replace_from, split, split_from, is_empty, length, length-drop, take, drop,
  if◌then◌else◌, Option-cases, Bool-cases, sym,
}
use libopenapi.Prelude.Outcome.{Result, ok, err, ◌>>=◌}
use libopenapi.Yaml.{Node, node, absent}
use libopenapi.Arazzo.Value.{Floats, Value, yaml}
use libopenapi.Arazzo.Evaluator.Pointer.{
  PointerError, nil_dereference, descend, walk, unescape_json_pointer, unwrap_document,
  yaml_node_to_value, resolve_json_pointer,
}

-- A last empty part is left out.
abbrev pub drop_last_empty : List Bytes → List Bytes
drop_last_empty [] = []
drop_last_empty (p ∷ []) = if is_empty p then [] else p ∷ []
drop_last_empty (p ∷ q ∷ ps) = p ∷ drop_last_empty (q ∷ ps)

-- The parts of a pointer between its slashes.
abbrev pub segments : Bytes → List Bytes
segments s = drop_last_empty (split s b'/')

-- One step for each segment.
abbrev pub follow : Node → List Bytes → Result PointerError Node
follow n [] = ok n
follow n (p ∷ ps) = descend n (unescape_json_pointer p) >>= λ next. follow next ps

split_from-none :
    (b : ℕ) (part s : Bytes) → index_byte s b ≡ none → split_from b part s ≡ (part ++ s) ∷ []
unfolding split_from index_byte
split_from-none b part [] h = rw append-nil
split_from-none b part (c ∷ s) h =
    ground (arith, split_from-none b (part ++ (c ∷ [])) s, append_assoc part (c ∷ []) s)

split_from-some :
    (b : ℕ) (part s : Bytes) (i : ℕ)
    → index_byte s b ≡ some i
    → split_from b part s ≡ (part ++ take i s) ∷ split_from b [] (drop (suc i) s)
unfolding split_from index_byte
split_from-some b part [] i h = cc
split_from-some b part (c ∷ s) zero h = ground (arith, append-nil part)
split_from-some b part (c ∷ s) (suc i) h =
    ground (arith, split_from-some b (part ++ (c ∷ [])) s i, append_assoc part (c ∷ []) (take i s))

split_from-ne-nil : (b : ℕ) (part s : Bytes) → split_from b part s ≢ []
unfolding split_from
split_from-ne-nil b part [] = λ h. cc
split_from-ne-nil b part (c ∷ s) =
    ground (arith, split_from-ne-nil b [] s, split_from-ne-nil b (part ++ (c ∷ [])) s)

drop_last_empty-cons :
    (p : Bytes) (ps : List Bytes) → ps ≢ [] → drop_last_empty (p ∷ ps) ≡ p ∷ drop_last_empty ps
drop_last_empty-cons p [] h = absurd (h refl)
drop_last_empty-cons p (q ∷ ps) h = refl

segments-none :
    (c : ℕ) (s : Bytes) → index_byte (c ∷ s) b'/' ≡ none → segments (c ∷ s) ≡ (c ∷ s) ∷ []
segments-none c s h = rw (split_from-none b'/' [] (c ∷ s) h)

segments-some :
    (s : Bytes) (i : ℕ)
    → index_byte s b'/' ≡ some i
    → segments s ≡ take i s ∷ segments (drop (suc i) s)
segments-some s i h =
    ap drop_last_empty (split_from-some b'/' [] s i h)
    ∙ drop_last_empty-cons (take i s) _ (split_from-ne-nil b'/' [] (drop (suc i) s))

bind_cong :
    (r : Result PointerError Node) (f g : Node → Result PointerError Node)
    → ((n : Node) → f n ≡ g n)
    → (r >>= f) ≡ (r >>= g)
bind_cong (ok n) f g h = h n
bind_cong (err e) f g h = refl

bind_ok : (r : Result PointerError Node) → r ≡ (r >>= ok)
bind_ok (ok n) = refl
bind_ok (err e) = refl

walk-follow :
    (fuel : ℕ) (n : Node) (s : Bytes) → length s ≤ fuel → walk fuel n s ≡ follow n (segments s)
unfolding walk split_from
walk-follow zero n [] l = refl
walk-follow (suc fuel) n [] l = refl
walk-follow zero n (c ∷ s) l = absurd (omega arith)
walk-follow (suc fuel) n (c ∷ s) l = elim (Option-cases (index_byte (c ∷ s) b'/')) [
  | inl e ↦
      rw (e, walk) (rw (segments-none c s e) (bind_ok (descend n (unescape_json_pointer (c ∷ s)))))
  | inr (i, e) ↦
      rw (e, walk)
        (rw (segments-some (c ∷ s) i e) (
          bind_cong (descend n (unescape_json_pointer (take i (c ∷ s)))) _ _
            λ m. walk-follow fuel m (drop (suc i) (c ∷ s)) (omega (arith, length-drop i s))))
]

-- A slash in front is left out.
abbrev pub behind_slash : Bytes → Bytes
behind_slash [] = []
behind_slash (c ∷ s) = if c == b'/' then s else c ∷ s

follow-absent : (c : ℕ) (s : Bytes) → follow absent (segments (c ∷ s)) ≡ err nil_dereference
unfolding descend
follow-absent c s = elim (Option-cases (index_byte (c ∷ s) b'/')) [
  | inl e ↦ rw (segments-none c s e) refl
  | inr (i, e) ↦ rw (segments-some (c ∷ s) i e) refl
]

module _ (floats : Floats) where
  -- What follows the slash, if there is something.
  abbrev followed : Node → Bytes → Result PointerError (Value floats.Float)
  followed n rest =
      follow (unwrap_document n) (segments rest) >>= λ found. ok (yaml_node_to_value floats found)

  walk-followed :
      (n : Node) (s : Bytes)
      → (walk (length s) (unwrap_document n) s >>= λ found. ok (yaml_node_to_value floats found))
        ≡ followed n s
  walk-followed n s =
      ap (λ (r : Result PointerError Node). r >>= λ found. ok (yaml_node_to_value floats found))
        (walk-follow (length s) (unwrap_document n) s (omega arith))

  followed-absent : (c : ℕ) (s : Bytes) → err nil_dereference ≡ followed absent (c ∷ s)
  followed-absent c s =
      ap (λ (r : Result PointerError Node). r >>= λ found. ok (yaml_node_to_value floats found))
        (sym (follow-absent c s))

  -- For every node, nil too, and every pointer: a slash in front is left out; then an empty pointer
  -- gives the node itself, and any other is followed from the node, or from a document's first child,
  -- one step for each segment between the slashes, with a last empty one left out.
  pub resolve_json_pointer-follow :
      (n : Node) (pointer : Bytes)
      → resolve_json_pointer floats n pointer ≡ (
          if is_empty (behind_slash pointer)
          then ok (yaml n)
          else (follow (unwrap_document n) (segments (behind_slash pointer)) >>= λ found.
              ok (yaml_node_to_value floats found)))
  unfolding resolve_json_pointer eqb
  resolve_json_pointer-follow n [] = refl
  resolve_json_pointer-follow absent (b ∷ []) = elim (Bool-cases (b == b'/')) [
    | inl e ↦ rw e refl
    | inr e ↦ rw e (followed-absent b [])
  ]
  resolve_json_pointer-follow absent (b ∷ c ∷ s) = elim (Bool-cases (b == b'/')) [
    | inl e ↦ rw e (followed-absent c s)
    | inr e ↦ rw e (followed-absent b (c ∷ s))
  ]
  resolve_json_pointer-follow (node k tag v cs) (b ∷ []) = elim (Bool-cases (b == b'/')) [
    | inl e ↦ rw e refl
    | inr e ↦ rw e (walk-followed (node k tag v cs) (b ∷ []))
  ]
  resolve_json_pointer-follow (node k tag v cs) (b ∷ c ∷ s) = elim (Bool-cases (b == b'/')) [
    | inl e ↦ rw e (walk-followed (node k tag v cs) (c ∷ s))
    | inr e ↦ rw e (walk-followed (node k tag v cs) (b ∷ c ∷ s))
  ]

-- The escaping of RFC 6901, which the program undoes.
abbrev pub escape : Bytes → Bytes
escape [] = []
escape (c ∷ s) =
    if c == b'~'
    then b'~' ∷ b'0' ∷ escape s
    else if c == b'/'
    then b'~' ∷ b'1' ∷ escape s
    else c ∷ escape s

-- Slashes are back, tildes are not.
abbrev half : Bytes → Bytes
half [] = []
half (c ∷ s) = if c == b'~' then b'~' ∷ b'0' ∷ half s else c ∷ half s

replace_all-escape : (s : Bytes) → replace_all (escape s) (codes "~1") (codes "/") ≡ half s
unfolding replace_from has_prefix
replace_all-escape [] = refl
replace_all-escape (c ∷ s) = ground (arith, replace_all-escape s)

replace_all-half : (s : Bytes) → replace_all (half s) (codes "~0") (codes "~") ≡ s
unfolding replace_from has_prefix
replace_all-half [] = refl
replace_all-half (c ∷ s) = ground (arith, replace_all-half s)

escape-none : (s : Bytes) → index (escape s) (codes "~") ≡ none → escape s ≡ s
unfolding index has_prefix
escape-none [] h = refl
escape-none (c ∷ s) h = ground (arith, escape-none s)

-- `UnescapeJSONPointer` undoes the escaping, for every text.
pub unescape_json_pointer-escape : (s : Bytes) → unescape_json_pointer (escape s) ≡ s
unfolding unescape_json_pointer
unescape_json_pointer-escape s =
    ground (arith, escape-none s, replace_all-escape s, replace_all-half s)
