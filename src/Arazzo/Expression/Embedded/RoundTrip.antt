-- ===== src/Arazzo/Expression/Embedded/RoundTrip.antt =====
-- arazzo/expression/parser.go, `ParseEmbedded`: the text of its tokens.
use libopenapi.Prelude.{
  ℕ, zero, suc, ◌+◌, List, [], ◌∷◌, ◌++◌, ◌≡◌, ◌≢◌, ◌⊎◌, inl, inr, refl, sym, ap, ◌∙◌, append_assoc,
  append-nil, arith, Option, none, some, Bytes, codes, index, index_byte, index_byte-some, length,
  take, drop, if◌then◌else◌, All, All-append,
}
use libopenapi.Prelude.Outcome.{ok, Result-cases}
use libopenapi.Arazzo.Expression.{Expression, Token}
use libopenapi.Arazzo.Expression.Parser.{parse}
use libopenapi.Arazzo.Expression.Grammar.Sound.{parse_sound}
use libopenapi.Arazzo.Expression.Embedded.{
  literal_token, expression_token, Rest, close_at, open_at, embedded_loop, parse_embedded,
}

-- The text of a token, and of a list of tokens.
abbrev pub spell_token : Token → Bytes
spell_token t = if t.is_expression then b'{' ∷ (t.expression.raw ++ (b'}' ∷ [])) else t.literal

abbrev pub spell : List Token → Bytes
spell [] = []
spell (t ∷ ts) = spell_token t ++ spell ts

spell-append : (ts us : List Token) → spell (ts ++ us) ≡ spell ts ++ spell us
spell-append [] us = refl
spell-append (t ∷ ts) us = simp (spell-append ts us, append_assoc)

-- A literal is not empty and opens no block; an expression is what its text parses to.
abbrev pub IsToken : Token → Type 0
IsToken t =
    ((t ≡ literal_token t.literal) × (t.literal ≢ []) × (index t.literal (codes "{$") ≡ none))
    ⊎ ((t ≡ expression_token t.expression) × (parse t.expression.raw ≡ ok t.expression))

-- Where the search finds the opening, the text splits, with no opening before it.
index-some :
    (s : Bytes) (o : ℕ)
    → index s (codes "{$") ≡ some o
    → (s ≡ take o s ++ (b'{' ∷ drop (suc o) s)) × (index (take o s) (codes "{$") ≡ none)
unfolding index
index-some [] o h = cc
index-some (c ∷ s) zero h = ground arith
index-some (c ∷ []) (suc o) h = ground (arith, index-some [] o)
index-some (c ∷ d ∷ s) (suc zero) h = ground (arith, index-some (d ∷ s) zero)
index-some (c ∷ d ∷ s) (suc (suc o)) h = ground (arith, index-some (d ∷ s) (suc o))

parse-raw : (s : Bytes) (e : Expression) → parse s ≡ ok e → e.raw ≡ s
parse-raw s e h = (parse_sound s e h).0

-- What a round owes for the input behind it.
abbrev Spells : Bytes → List Token → List Token → Type 0
Spells rest tokens ts = (spell ts ≡ spell tokens ++ rest) × (All IsToken tokens → All IsToken ts)

abbrev NextSound : Rest → Type 0
NextSound next =
    (rest : Bytes) (pos : ℕ) (tokens ts : List Token)
    → next rest pos tokens ≡ ok ts
    → Spells rest tokens ts

Spells-cons :
    (t : Token) (rest rest' : Bytes) (tokens ts : List Token)
    → IsToken t
    → rest ≡ spell_token t ++ rest'
    → Spells rest' (tokens ++ (t ∷ [])) ts
    → Spells rest tokens ts
Spells-cons t rest rest' tokens ts i w (q, k) = (
  q ∙ rw w (simp (spell-append, append_assoc, append-nil)),
  λ a. k (All-append IsToken tokens (t ∷ []) a (i, tt)),
)

close_at_sound :
    (next : Rest)
    → NextSound next
    → (at : ℕ) (tokens : List Token) (from : Bytes) (o : Option ℕ) (ts : List Token)
    → index_byte from b'}' ≡ o
    → close_at next at tokens from o ≡ ok ts
    → Spells (b'{' ∷ from) tokens ts
unfolding close_at
close_at_sound next sound at tokens from none ts i h = cc
close_at_sound next sound at tokens from (some k) ts i h =
    elim (Result-cases (parse (take k from))) [
      | inl (e, p) ↦
          let r = parse-raw (take k from) e p in
          Spells-cons (expression_token e) (b'{' ∷ from) (drop (suc k) from) tokens ts
            (inr (refl, ap parse r ∙ p))
            (rw r (
              ap (λ (x : Bytes). b'{' ∷ x)
                ((index_byte-some from b'}' k i).1
                  ∙ sym (append_assoc (take k from) (b'}' ∷ []) (drop (suc k) from)))))
            (sound (drop (suc k) from) (at + 1 + k + 1) (tokens ++ (expression_token e ∷ [])) ts
              (rw p at h))
      | inr (e, p) ↦ ground arith
    ]

take-suc-ne : (s : Bytes) (o : ℕ) → s ≢ [] → take (suc o) s ≢ []
take-suc-ne [] o ne q = ne refl
take-suc-ne (c ∷ s) o ne q = cc

open_at_sound :
    (next : Rest)
    → NextSound next
    → (rest : Bytes) (pos : ℕ) (tokens : List Token) (o : Option ℕ) (ts : List Token) → rest ≢ []
    → index rest (codes "{$") ≡ o
    → open_at next rest pos tokens o ≡ ok ts
    → Spells rest tokens ts
unfolding open_at
open_at_sound next sound rest pos tokens none ts ne i h =
    let q : tokens ++ (literal_token rest ∷ []) ≡ ts = cc in
    rw (← q) (
      simp (spell-append, append-nil),
      λ a. All-append IsToken tokens (literal_token rest ∷ []) a (inl (refl, ne, i), tt),
    )
open_at_sound next sound rest pos tokens (some zero) ts ne i h =
    let w : rest ≡ b'{' ∷ drop (suc zero) rest = (index-some rest zero i).0 in
    rw w (close_at_sound next sound _ tokens (drop (suc zero) rest) _ ts refl h)
open_at_sound next sound rest pos tokens (some (suc o)) ts ne i h =
    let l = take (suc o) rest in
    let (w, clean) = index-some rest (suc o) i in
    let h' : close_at next (pos + suc o) (tokens ++ (literal_token l ∷ []))
          (drop (suc (suc o)) rest) (index_byte (drop (suc (suc o)) rest) b'}')
        ≡ ok ts =
      ground arith in
    Spells-cons (literal_token l) rest (b'{' ∷ drop (suc (suc o)) rest) tokens ts
      (inl (refl, (λ (q : l ≡ []). take-suc-ne rest o ne q), clean)) w
      (close_at_sound next sound _ (tokens ++ (literal_token l ∷ [])) (drop (suc (suc o)) rest) _ ts
        refl h')

Spells-refl : (tokens ts : List Token) → tokens ≡ ts → Spells [] tokens ts
Spells-refl tokens ts q = rw (← q) (sym (append-nil (spell tokens)), λ a. a)

loop_sound : (fuel : ℕ) → NextSound (embedded_loop fuel)
unfolding embedded_loop
loop_sound zero [] pos tokens ts h = Spells-refl tokens ts cc
loop_sound zero (c ∷ rest) pos tokens ts h = cc
loop_sound (suc fuel) [] pos tokens ts h = Spells-refl tokens ts cc
loop_sound (suc fuel) (c ∷ rest) pos tokens ts h =
    open_at_sound (embedded_loop fuel) (loop_sound fuel) (c ∷ rest) pos tokens _ ts (λ q. cc) refl h

-- Where `ParseEmbedded` succeeds, its tokens spell the input, byte for byte, every literal is
-- not empty and opens no block, and every expression is what its own text parses to.
pub parse_embedded_sound :
    (s : Bytes) (ts : List Token) → parse_embedded s ≡ ok ts → (spell ts ≡ s) × All IsToken ts
unfolding parse_embedded
parse_embedded_sound s ts h = let r = loop_sound (length s) s 0 [] ts h in (r.0, r.1 tt)
