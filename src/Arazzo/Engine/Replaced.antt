-- ===== src/Arazzo/Engine/Replaced.antt =====
-- arazzo/step.go: `setJSONPointerValue` against a lookup along the pointer's segments.
use libopenapi.Prelude.{
  List, [], ◌∷◌, map, Option, none, some, Bytes, eqb_iff, split, ◌≡◌, ◌≢◌, arith, inl, inr, ap, sym,
  ◌∙◌,
}
use libopenapi.Prelude.Outcome.{ok, Result-cases}
use libopenapi.Arazzo.Value.{Value, object, Entries, get, get-put, get-put_self}
use libopenapi.Arazzo.Evaluator.Pointer.{unescape_json_pointer}
use libopenapi.Arazzo.Engine.Replacements.{
  next_map, set_along, set_segments, set_json_pointer_value,
}

module _ {F : Type 0} where
  -- The value at the end of a path of keys.
  abbrev pub get_along : List Bytes → Value F → Option (Value F)
  get_along [] v = some v
  get_along (k ∷ ks) (object m) = elim (get k m) [ none ↦ none | some below ↦ get_along ks below ]
  get_along (k ∷ ks) _ = none

  set_along-get_along :
      (pointer seg : Bytes) (rest : List Bytes) (m changed : Entries F) (v : Value F)
      → set_along pointer m seg rest v ≡ ok changed
      → (get_along (seg ∷ rest) (object changed) ≡ some v)
        × ((k : Bytes) → k ≢ seg → get k changed ≡ get k m)
  unfolding set_along
  set_along-get_along pointer seg [] m changed v e = (
    ground (arith, get-put_self seg v m),
    λ k ne. ground (arith, get-put seg k v m, eqb_iff seg k),
  )
  set_along-get_along pointer seg (s ∷ rest) m changed v e =
      elim (Result-cases (next_map pointer s rest (get seg m))) [
        | inr (x, q) ↦ ground arith
        | inl (below, q) ↦ elim (Result-cases (set_along pointer below s rest v)) [
          | inr (x, r) ↦ ground arith
          | inl (inner, r) ↦
              let found = (set_along-get_along pointer s rest below inner v r).0 in
              (
                ground (arith, found, get-put_self seg (object inner) m),
                λ k ne. ground (arith, get-put seg k (object inner) m, eqb_iff seg k),
              )
        ]
      ]

  -- Where `setJSONPointerValue` succeeds on a pointer with a slash in front, the value is found
  -- along the pointer's unescaped segments, and no entry of the root has changed but that of the
  -- first segment.
  pub set_json_pointer_value-get_along :
      (root changed : Entries F) (pointer seg : Bytes) (rest : List Bytes) (v : Value F)
      → map unescape_json_pointer (split pointer b'/') ≡ seg ∷ rest
      → set_json_pointer_value root (b'/' ∷ pointer) v ≡ ok changed
      → (get_along (seg ∷ rest) (object changed) ≡ some v)
        × ((k : Bytes) → k ≢ seg → get k changed ≡ get k root)
  unfolding set_json_pointer_value
  set_json_pointer_value-get_along root changed pointer seg rest v p e =
      set_along-get_along (b'/' ∷ pointer) seg rest root changed v
        (sym (ap (λ segs. set_segments (b'/' ∷ pointer) root segs v) p) ∙ e)
