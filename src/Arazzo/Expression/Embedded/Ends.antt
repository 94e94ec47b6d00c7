-- ===== src/Arazzo/Expression/Embedded/Ends.antt =====
-- arazzo/expression/parser.go, `ParseEmbedded`: how many rounds its loop makes.
use libopenapi.Prelude.{
  ℕ, zero, suc, ◌+◌, ◌≤◌, List, [], ◌∷◌, ◌≢◌, inl, inr, arith, Option, none, some, Bytes, length,
  length-drop, take, drop,
}
use libopenapi.Prelude.Outcome.{err, Result-cases}
use libopenapi.Arazzo.Expression.{Token, out_of_fuel}
use libopenapi.Arazzo.Expression.Parser.{parse}
use libopenapi.Arazzo.Expression.Embedded.{Rest, close_at, open_at, embedded_loop, parse_embedded}

-- A round that has enough fuel for what it leaves.
abbrev Ends : Rest → ℕ → Type 0
Ends next n =
    (rest : Bytes) (pos : ℕ) (tokens : List Token)
    → length rest ≤ n
    → next rest pos tokens ≢ err out_of_fuel

close_at-Ends :
    (next : Rest) (n : ℕ)
    → Ends next n
    → (at : ℕ) (tokens : List Token) (from : Bytes) (o : Option ℕ) → length from ≤ n
    → close_at next at tokens from o ≢ err out_of_fuel
unfolding close_at
close_at-Ends next n ends at tokens from none l = cc
close_at-Ends next n ends at tokens from (some k) l = elim (Result-cases (parse (take k from))) [
  | inl (e, p) ↦
      rw p (ends (drop (suc k) from) (at + 1 + k + 1) _ (omega (arith, length-drop (suc k) from)))
  | inr (e, p) ↦ rw p (λ q. cc)
]

open_at-Ends :
    (next : Rest) (n : ℕ)
    → Ends next n
    → (rest : Bytes) (pos : ℕ) (tokens : List Token) (o : Option ℕ) → length rest ≤ suc n
    → open_at next rest pos tokens o ≢ err out_of_fuel
unfolding open_at
open_at-Ends next n ends rest pos tokens none l = λ q. cc
open_at-Ends next n ends rest pos tokens (some o) l =
    close_at-Ends next n ends (pos + o) _ (drop (suc o) rest) _
      (omega (arith, length-drop (suc o) rest))

loop-Ends : (fuel : ℕ) → Ends (embedded_loop fuel) fuel
unfolding embedded_loop
loop-Ends zero [] pos tokens l = λ q. cc
loop-Ends zero (c ∷ rest) pos tokens l = absurd (omega arith)
loop-Ends (suc fuel) [] pos tokens l = λ q. cc
loop-Ends (suc fuel) (c ∷ rest) pos tokens l =
    open_at-Ends (embedded_loop fuel) fuel (loop-Ends fuel) (c ∷ rest) pos tokens _ l

-- The loop of `ParseEmbedded` ends by itself on every input: the model's fuel never runs out.
pub parse_embedded_ends : (s : Bytes) → parse_embedded s ≢ err out_of_fuel
unfolding parse_embedded
parse_embedded_ends s = loop-Ends (length s) s 0 [] (omega arith)
