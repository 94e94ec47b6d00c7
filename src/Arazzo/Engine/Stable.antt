-- ===== src/Arazzo/Engine/Stable.antt =====
-- arazzo/step.go: the resolution of values against what the engine has cached before.
use libopenapi.Prelude.{
  Bool, true, false, Bytes, codes, has_prefix, contains, if◌then◌else◌, ◌≡◌, refl, sym, ap, ◌∙◌,
  arith,
}
use libopenapi.Prelude.Outcome.{Result, ok, err, wrap_err}
use libopenapi.Arazzo.Value.{
  Value, null, text, boolean, integer, float32, float64, slice, object, any_object, yaml,
  step_context, workflow_context, source_context, other, Values, nil, cons, Entries, end, entry,
  AnyEntries, any_end, any_entry, put,
}
use libopenapi.Arazzo.Evaluator.{Context}
use libopenapi.Arazzo.Criterion.{Host, Caches, new_caches}
use libopenapi.Arazzo.Criterion.Nodes.{sprint_map_key}
use libopenapi.Arazzo.Criterion.Evaluate.{evaluate_parsed}
use libopenapi.Arazzo.Criterion.Faithful.{IsFaithful, new_caches-IsFaithful}
use libopenapi.Arazzo.Criterion.Caching.{parse_expression_lem}
use libopenapi.Arazzo.Engine.{EngineError, bad_value, Stateful, after, pure, ◌>>=◌}
use libopenapi.Arazzo.Engine.Strings.{evaluate_kept, evaluate_string_value}
use libopenapi.Arazzo.Engine.Values.{
  resolve_expression_values, resolve_items, resolve_entries, resolve_any_entries,
  slice_needs_resolution, map_needs_resolution, map_any_needs_resolution,
}

-- The result is that with empty caches, and faithful caches stay so.
abbrev pub IsStable : (h : Host) {A : Type 0} → Stateful A → Type 0
IsStable h m = (c : Caches) → IsFaithful h c → ((m c).0 ≡ (m new_caches).0) × IsFaithful h (m c).1

module _ (h : Host) where
  IsStable-pure : {A : Type 0} (r : Result EngineError A) → IsStable h (pure r)
  IsStable-pure r c f = (refl, f)

  IsStable-if :
      {A : Type 0} (b : Bool) (m n : Stateful A)
      → IsStable h m
      → IsStable h n
      → IsStable h (if b then m else n)
  IsStable-if true m n p q = p
  IsStable-if false m n p q = q

  after-agree :
      {A B : Type 0} (f : A → Stateful B)
      → ((a : A) → IsStable h (f a))
      → (x y : Result EngineError A × Caches) → x.0 ≡ y.0
      → IsFaithful h x.1
      → IsFaithful h y.1
      → ((after f x).0 ≡ (after f y).0) × IsFaithful h (after f x).1
  after-agree f k (ok a, c) (ok b, d) e p q =
      let ab : a ≡ b = cc in ((k a c p).0 ∙ (sym (k a d q).0 ∙ ap (λ z. (f z d).0) ab), (k a c p).1)
  after-agree f k (ok a, c) (err y, d) e p q = ground arith
  after-agree f k (err x, c) (ok b, d) e p q = ground arith
  after-agree f k (err x, c) (err y, d) e p q = (let xy : x ≡ y = cc in ap err xy, p)

  IsStable-bind :
      {A B : Type 0} (m : Stateful A) (f : A → Stateful B)
      → IsStable h m
      → ((a : A) → IsStable h (f a))
      → IsStable h (m >>= f)
  unfolding ◌>>=◌
  IsStable-bind m f p k c g =
      after-agree f k (m c) (m new_caches) (p c g).0 (p c g).1
        (p new_caches (new_caches-IsFaithful h)).1

  module _ (ctx : Context h.floats.Float) where
    IsStable-kept : (input : Bytes) → IsStable h (evaluate_kept h ctx input)
    IsStable-kept input c f =
        let l = parse_expression_lem h input c.expressions f.expressions in
        let n =
          parse_expression_lem h input new_caches.expressions
            (new_caches-IsFaithful h).expressions in
        (
          ap (λ r. wrap_err bad_value (evaluate_parsed h ctx r)) (l.0 ∙ sym n.0),
          record { expressions = l.1; regex = f.regex; json_path = f.json_path },
        )

    IsStable-string : (input : Bytes) → IsStable h (evaluate_string_value h ctx input)
    unfolding evaluate_string_value
    IsStable-string input =
        IsStable-if (has_prefix input (codes "$")) _ _ (IsStable-kept input)
          (IsStable-if (contains input (codes "{$")) _ _ (IsStable-pure _) (IsStable-pure _))

    mutual
      unfolding resolve_expression_values

      pub IsStable-value :
          (v : Value h.floats.Float) → IsStable h (resolve_expression_values h ctx v)
      IsStable-value (text s) = IsStable-string s
      IsStable-value (slice vs) =
          IsStable-if (slice_needs_resolution vs)
            (resolve_items h ctx vs >>= λ ws. pure (ok (slice ws))) _
            (IsStable-bind (resolve_items h ctx vs) _ (IsStable-items vs) λ ws. IsStable-pure _)
            (IsStable-pure _)
      IsStable-value (object m) =
          IsStable-if (map_needs_resolution m)
            (resolve_entries h ctx m >>= λ ws. pure (ok (object ws))) _
            (IsStable-bind (resolve_entries h ctx m) _ (IsStable-entries m) λ ws. IsStable-pure _)
            (IsStable-pure _)
      IsStable-value (any_object m) =
          IsStable-if (map_any_needs_resolution m)
            (resolve_any_entries h ctx end m >>= λ ws. pure (ok (object ws))) _
            (IsStable-bind (resolve_any_entries h ctx end m) _ (IsStable-any_entries m end)
              λ ws. IsStable-pure _)
            (IsStable-pure _)
      IsStable-value null = IsStable-pure _
      IsStable-value (boolean b) = IsStable-pure _
      IsStable-value (integer t n) = IsStable-pure _
      IsStable-value (float32 x) = IsStable-pure _
      IsStable-value (float64 x) = IsStable-pure _
      IsStable-value (yaml n) = IsStable-pure _
      IsStable-value (step_context i o) = IsStable-pure _
      IsStable-value (workflow_context i o) = IsStable-pure _
      IsStable-value (source_context u) = IsStable-pure _
      IsStable-value (other n) = IsStable-pure _

      IsStable-items : (vs : Values h.floats.Float) → IsStable h (resolve_items h ctx vs)
      IsStable-items nil = IsStable-pure _
      IsStable-items (cons v vs) =
          IsStable-bind (resolve_expression_values h ctx v) _ (IsStable-value v)
            λ w. IsStable-bind (resolve_items h ctx vs) _ (IsStable-items vs) λ ws. IsStable-pure _

      IsStable-entries : (m : Entries h.floats.Float) → IsStable h (resolve_entries h ctx m)
      IsStable-entries end = IsStable-pure _
      IsStable-entries (entry k v m) =
          IsStable-bind (resolve_expression_values h ctx v) _ (IsStable-value v) λ w.
            IsStable-bind (resolve_entries h ctx m) _ (IsStable-entries m) λ ws. IsStable-pure _

      IsStable-any_entries :
          (m : AnyEntries h.floats.Float) (items : Entries h.floats.Float)
          → IsStable h (resolve_any_entries h ctx items m)
      IsStable-any_entries any_end items = IsStable-pure _
      IsStable-any_entries (any_entry k v m) items =
          IsStable-bind (resolve_expression_values h ctx v) _ (IsStable-value v)
            λ w. IsStable-any_entries m (put (sprint_map_key h k) w items)

    -- A decoded value resolves to the same value or error whatever the engine has cached before, if
    -- each cache entry is what the parser or the compiler returns for its key, and so it is of each
    -- entry afterwards.
    pub resolve_expression_values-cached :
        (v : Value h.floats.Float) (c : Caches)
        → IsFaithful h c
        → ((resolve_expression_values h ctx v c).0
            ≡ (resolve_expression_values h ctx v new_caches).0)
          × IsFaithful h (resolve_expression_values h ctx v c).1
    resolve_expression_values-cached v = IsStable-value v
