-- ===== src/Arazzo/Engine/Literal.antt =====
-- arazzo/step.go: what `resolveExpressionValues` leaves as it is.
use libopenapi.Prelude.{
  Bool, true, false, Bytes, codes, has_prefix, contains, if◌then◌else◌, ◌≡◌, refl, arith, ◌∙◌, ap,
}
use libopenapi.Prelude.Outcome.{Result, ok}
use libopenapi.Arazzo.Value.{
  Value, null, text, boolean, integer, float32, float64, slice, object, any_object, yaml,
  step_context, workflow_context, source_context, other, Values, nil, cons, Entries, end, entry,
}
use libopenapi.Arazzo.Evaluator.{Context}
use libopenapi.Arazzo.Criterion.{Host, Caches}
use libopenapi.Arazzo.Engine.{EngineError, Stateful, after, pure, ◌>>=◌}
use libopenapi.Arazzo.Engine.Strings.{evaluate_string_value}
use libopenapi.Arazzo.Engine.Values.{
  slice_needs_resolution, map_needs_resolution, resolve_expression_values, resolve_items,
  resolve_entries,
}

-- No text inside is or holds an expression, and no map inside has keys of any type.
module _ {F : Type 0} where
  abbrev mutual
    pub IsLiteral : Value F → Type 0
    IsLiteral (text s) = (has_prefix s (codes "$") ≡ false) × (contains s (codes "{$") ≡ false)
    IsLiteral (slice vs) = AreLiteral vs
    IsLiteral (object m) = IsLiteralMap m
    IsLiteral (any_object m) = true ≡ false
    IsLiteral _ = Unit

    pub AreLiteral : Values F → Type 0
    AreLiteral nil = Unit
    AreLiteral (cons v vs) = IsLiteral v × AreLiteral vs

    pub IsLiteralMap : Entries F → Type 0
    IsLiteralMap end = Unit
    IsLiteralMap (entry k v m) = IsLiteral v × IsLiteralMap m

module _ (h : Host) (ctx : Context h.floats.Float) where
  bind-ok :
      {A B : Type 0} (m : Stateful A) (a : A) (f : A → Stateful B) (c d : Caches)
      → m c ≡ (ok a, d)
      → (m >>= f) c ≡ f a d
  unfolding ◌>>=◌
  bind-ok m a f c d e = ap (after f) e

  if-same :
      {A : Type 0} (b : Bool) (m n : Stateful A) (r : Result EngineError A × Caches) (c : Caches)
      → m c ≡ r
      → n c ≡ r
      → (if b then m else n) c ≡ r
  if-same true m n r c p q = p
  if-same false m n r c p q = q

  resolve_text :
      (s : Bytes) (c : Caches)
      → IsLiteral {F = h.floats.Float} (text s)
      → resolve_expression_values h ctx (text s) c ≡ (ok (text s), c)
  unfolding resolve_expression_values evaluate_string_value
  resolve_text s c (p, q) = rw (p, q)

  module _ (c : Caches) where
    mutual
      unfolding resolve_expression_values

      resolve_value :
          (v : Value h.floats.Float) → IsLiteral v → resolve_expression_values h ctx v c ≡ (ok v, c)
      resolve_value (text s) l = resolve_text s c l
      resolve_value (slice vs) l =
          if-same (slice_needs_resolution vs)
            (resolve_items h ctx vs >>= λ ws. pure (ok (slice ws))) _ _ c
            (bind-ok (resolve_items h ctx vs) vs _ c c (resolve_each vs l)) refl
      resolve_value (object m) l =
          if-same (map_needs_resolution m) (resolve_entries h ctx m >>= λ ws. pure (ok (object ws)))
            _ _ c (bind-ok (resolve_entries h ctx m) m _ c c (resolve_each_entry m l)) refl
      resolve_value (any_object m) l = ground arith
      resolve_value null l = refl
      resolve_value (boolean b) l = refl
      resolve_value (integer t n) l = refl
      resolve_value (float32 x) l = refl
      resolve_value (float64 x) l = refl
      resolve_value (yaml n) l = refl
      resolve_value (step_context i o) l = refl
      resolve_value (workflow_context i o) l = refl
      resolve_value (source_context u) l = refl
      resolve_value (other n) l = refl

      resolve_each :
          (vs : Values h.floats.Float) → AreLiteral vs → resolve_items h ctx vs c ≡ (ok vs, c)
      resolve_each nil l = refl
      resolve_each (cons v vs) (l, ls) =
          bind-ok (resolve_expression_values h ctx v) v _ c c (resolve_value v l)
          ∙ bind-ok (resolve_items h ctx vs) vs _ c c (resolve_each vs ls)

      resolve_each_entry :
          (m : Entries h.floats.Float) → IsLiteralMap m → resolve_entries h ctx m c ≡ (ok m, c)
      resolve_each_entry end l = refl
      resolve_each_entry (entry k v m) (l, ls) =
          bind-ok (resolve_expression_values h ctx v) v _ c c (resolve_value v l)
          ∙ bind-ok (resolve_entries h ctx m) m _ c c (resolve_each_entry m ls)

    -- A decoded value resolves to itself, through all its slices and maps, and no cache changes, if
    -- no text inside begins with `$` or holds `{$` and no map inside has keys of any type.
    pub resolve_expression_values-literal :
        (v : Value h.floats.Float) → IsLiteral v → resolve_expression_values h ctx v c ≡ (ok v, c)
    resolve_expression_values-literal v l = resolve_value v l
