-- ===== src/Arazzo/Engine/Values.antt =====
-- arazzo/step.go: decoded YAML with expressions inside, `resolveExpressionValues`. A map's entries
-- are taken in the order of the model's list, where the program's order is not determined.
use libopenapi.Prelude.{
  Bool, true, false, ◌||◌, codes, has_prefix, contains, index, if◌then◌else◌, Option, none, some,
}
use libopenapi.Prelude.Outcome.{ok, err}
use libopenapi.Yaml.{Node, absent, node}
use libopenapi.Arazzo.Value.{
  Value, null, text, slice, object, any_object, Values, nil, cons, Entries, end, entry, put,
  AnyEntries, any_end, any_entry,
}
use libopenapi.Arazzo.Evaluator.{Context}
use libopenapi.Arazzo.Criterion.{Host}
use libopenapi.Arazzo.Criterion.Nodes.{sprint_map_key}
use libopenapi.Arazzo.Engine.{not_decoded, Stateful, pure, ◌>>=◌}
use libopenapi.Arazzo.Engine.Strings.{evaluate_string_value}

module _ {F : Type 0} where
  unfoldable pub value_needs_resolution : Value F → Bool
  unfolding has_prefix index
  value_needs_resolution (text s) = has_prefix s (codes "$") || contains s (codes "{$")
  value_needs_resolution (slice vs) = true
  value_needs_resolution (object m) = true
  value_needs_resolution (any_object m) = true
  value_needs_resolution _ = false

  unfoldable pub slice_needs_resolution : Values F → Bool
  unfolding value_needs_resolution
  slice_needs_resolution nil = false
  slice_needs_resolution (cons v vs) = value_needs_resolution v || slice_needs_resolution vs

  unfoldable pub map_needs_resolution : Entries F → Bool
  unfolding value_needs_resolution
  map_needs_resolution end = false
  map_needs_resolution (entry k v m) = value_needs_resolution v || map_needs_resolution m

  unfoldable pub map_any_needs_resolution : AnyEntries F → Bool
  unfolding value_needs_resolution
  map_any_needs_resolution any_end = false
  map_any_needs_resolution (any_entry k v m) =
      value_needs_resolution v || map_any_needs_resolution m

module _ (h : Host) where
  -- Keys are printed, values stay.
  unfoldable pub with_text_keys :
      Entries h.floats.Float → AnyEntries h.floats.Float → Entries h.floats.Float
  with_text_keys items any_end = items
  with_text_keys items (any_entry k v m) = with_text_keys (put (sprint_map_key h k) v items) m

  module _ (ctx : Context h.floats.Float) where
    unfoldable mutual
      unfolding evaluate_string_value slice_needs_resolution map_needs_resolution
          map_any_needs_resolution with_text_keys

      pub resolve_expression_values : Value h.floats.Float → Stateful (Value h.floats.Float)
      resolve_expression_values (text s) = evaluate_string_value h ctx s
      resolve_expression_values (slice vs) =
          let items = resolve_items vs in
          if slice_needs_resolution vs
          then (items >>= λ ws. pure (ok (slice ws)))
          else pure (ok (slice vs))
      resolve_expression_values (object m) =
          let items = resolve_entries m in
          if map_needs_resolution m
          then (items >>= λ ws. pure (ok (object ws)))
          else pure (ok (object m))
      resolve_expression_values (any_object m) =
          let items = resolve_any_entries end m in
          if map_any_needs_resolution m
          then (items >>= λ ws. pure (ok (object ws)))
          else pure (ok (object (with_text_keys end m)))
      resolve_expression_values v = pure (ok v)

      pub resolve_items : Values h.floats.Float → Stateful (Values h.floats.Float)
      resolve_items nil = pure (ok nil)
      resolve_items (cons v vs) =
          resolve_expression_values v >>= λ w. resolve_items vs >>= λ ws. pure (ok (cons w ws))

      pub resolve_entries : Entries h.floats.Float → Stateful (Entries h.floats.Float)
      resolve_entries end = pure (ok end)
      resolve_entries (entry k v m) =
          resolve_expression_values v >>= λ w. resolve_entries m >>= λ ws. pure (ok (entry k w ws))

      pub resolve_any_entries :
          Entries h.floats.Float → AnyEntries h.floats.Float → Stateful (Entries h.floats.Float)
      resolve_any_entries items any_end = pure (ok items)
      resolve_any_entries items (any_entry k v m) = resolve_expression_values v >>= λ w.
          resolve_any_entries (put (sprint_map_key h k) w items) m

    abbrev decoded : Option (Value h.floats.Float) → Stateful (Value h.floats.Float)
    decoded none = pure (err not_decoded)
    decoded (some v) = resolve_expression_values v

    -- A nil node is a nil value.
    unfoldable pub resolve_yaml_node_value : Node → Stateful (Value h.floats.Float)
    resolve_yaml_node_value absent = pure (ok null)
    resolve_yaml_node_value (node k t v c) = decoded (h.decode (node k t v c))
