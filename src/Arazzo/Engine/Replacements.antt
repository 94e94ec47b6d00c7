-- ===== src/Arazzo/Engine/Replacements.antt =====
-- arazzo/step.go: replacements in a payload, `applyPayloadReplacements`. Values are trees here; the
-- program overwrites maps in place.
use libopenapi.Prelude.{
  List, [], ◌∷◌, map, Option, none, some, Bytes, ◌==◌, is_empty, split, if◌then◌else◌,
}
use libopenapi.Prelude.Outcome.{Result, ok, err}
use libopenapi.Arazzo.Value.{Value, object, Entries, end, get, put}
use libopenapi.Arazzo.Evaluator.{Context}
use libopenapi.Arazzo.Evaluator.Pointer.{unescape_json_pointer}
use libopenapi.Arazzo.Criterion.{Host}
use libopenapi.Arazzo.Engine.{
  EngineError, empty_pointer, pointer_without_slash, cannot_traverse, cannot_set,
  not_an_object_body, in_replacement, in_replacement_value, Stateful, pure, wrapped, ◌>>=◌,
  PayloadReplacement,
}
use libopenapi.Arazzo.Engine.Values.{resolve_yaml_node_value}

module _ {F : Type 0} where
  -- The map that the next round or the assignment finds as `current`: a missing one is new.
  unfoldable pub next_map :
      Bytes → Bytes → List Bytes → Option (Value F) → Result EngineError (Entries F)
  next_map pointer seg rest none = ok end
  next_map pointer seg rest (some (object m)) = ok m
  next_map pointer seg [] (some v) = err (cannot_set pointer)
  next_map pointer seg (s ∷ rest) (some v) = err (cannot_traverse seg)

  -- The loop over the segments, from the map that is `current`.
  unfoldable pub set_along :
      Bytes → Entries F → Bytes → List Bytes → Value F → Result EngineError (Entries F)
  unfolding next_map get put
  set_along pointer m seg [] v = ok (put seg v m)
  set_along pointer m seg (s ∷ rest) v = elim (next_map pointer s rest (get seg m)) [
    | err e ↦ err e
    | ok below ↦ elim (set_along pointer below s rest v) [
      | err e ↦ err e
      | ok changed ↦ ok (put seg (object changed) m)
    ]
  ]

  -- `strings.Split` returns one part at least.
  abbrev pub set_segments :
      Bytes → Entries F → List Bytes → Value F → Result EngineError (Entries F)
  set_segments pointer root [] v = err empty_pointer
  set_segments pointer root (seg ∷ rest) v = set_along pointer root seg rest v

  unfoldable pub set_json_pointer_value :
      Entries F → Bytes → Value F → Result EngineError (Entries F)
  unfolding unescape_json_pointer set_along
  set_json_pointer_value root [] v = err empty_pointer
  set_json_pointer_value root (c ∷ rest) v =
      if c == b'/'
      then set_segments (c ∷ rest) root (map unescape_json_pointer (split rest b'/')) v
      else err pointer_without_slash

module _ (h : Host) (ctx : Context h.floats.Float) (step_id : Bytes) where
  -- The loop over the replacements, which may be nil.
  unfoldable pub replace_each :
      Entries h.floats.Float → List (Option PayloadReplacement) → Stateful (Entries h.floats.Float)
  unfolding set_json_pointer_value resolve_yaml_node_value
  replace_each root [] = pure (ok root)
  replace_each root (none ∷ reps) = replace_each root reps
  replace_each root (some rep ∷ reps) =
      let skipped = replace_each root reps in
      if is_empty rep.target
      then skipped
      else (wrapped (in_replacement_value rep.target step_id)
            (resolve_yaml_node_value h ctx rep.value)
          >>= λ v.
              wrapped (in_replacement rep.target step_id)
                (pure (set_json_pointer_value root rep.target v))
              >>= λ changed. replace_each changed reps)

  unfoldable pub apply_payload_replacements :
      Value h.floats.Float → List (Option PayloadReplacement) → Stateful (Value h.floats.Float)
  unfolding replace_each
  apply_payload_replacements (object root) reps =
      replace_each root reps >>= λ changed. pure (ok (object changed))
  apply_payload_replacements payload reps = pure (err (not_an_object_body step_id))
