-- ===== src/Arazzo/Expression/Embedded/Complete.antt =====
-- arazzo/expression/parser.go, `ParseEmbedded` on the text of tokens.
use libopenapi.Prelude.{
  ℕ, zero, suc, ◌+◌, ◌≤◌, ◌<◌, true, false, List, [], ◌∷◌, ◌++◌, ◌≡◌, ◌≢◌, ◌⊎◌, inl, inr, refl, sym,
  ap, ◌∙◌, append_assoc, append-nil, arith, none, some, Bytes, codes, ltb, index, index_byte,
  index_byte-append, length, length-append, drop, take-append, drop-suc-append, All, Lacks,
}
use mathlib.Core.Path.{subst, subst₂}
use libopenapi.Prelude.Outcome.{ok}
use libopenapi.Arazzo.Expression.{Expression, Token}
use libopenapi.Arazzo.Expression.Parser.{parse}
use libopenapi.Arazzo.Expression.Embedded.{
  literal_token, expression_token, Rest, close_at, open_at, embedded_loop, parse_embedded,
}
use libopenapi.Arazzo.Expression.Embedded.RoundTrip.{spell_token, spell, IsToken}

-- No two literals in a row.
abbrev pub Alternates : List Token → Type 0
Alternates [] = Unit
Alternates (t ∷ []) = Unit
Alternates (t ∷ u ∷ ts) =
    ((t.is_expression ≡ true) ⊎ (u.is_expression ≡ true)) × Alternates (u ∷ ts)

-- The expression's text can be closed by a brace.
abbrev pub IsClosable : Token → Type 0
IsClosable t = Lacks b'}' t.expression.raw

index-literal :
    (l r : Bytes)
    → index l (codes "{$") ≡ none
    → index (l ++ (b'{' ∷ b'$' ∷ r)) (codes "{$") ≡ some (length l)
unfolding index
index-literal [] r h = ground arith
index-literal (c ∷ []) r h = ground (arith, index-literal [] r)
index-literal (c ∷ d ∷ l) r h = ground (arith, index-literal (d ∷ l) r)

parse-dollar : (s : Bytes) (e : Expression) → parse s ≡ ok e → s ≡ b'$' ∷ drop 1 s
unfolding parse
parse-dollar [] e h = cc
parse-dollar (c ∷ []) e h = ground arith
parse-dollar (c ∷ d ∷ s) e h = ground arith

close_at_complete :
    (next : Rest) (at : ℕ) (tokens : List Token) (e : Expression) (r : Bytes)
    → parse e.raw ≡ ok e
    → Lacks b'}' e.raw
    → close_at next at tokens (e.raw ++ (b'}' ∷ r)) (index_byte (e.raw ++ (b'}' ∷ r)) b'}')
      ≡ next r (at + 1 + length e.raw + 1) (tokens ++ (expression_token e ∷ []))
unfolding close_at
close_at_complete next at tokens e r p l =
    rw (index_byte-append e.raw r b'}' l, close_at)
      (simp (take-append e.raw (b'}' ∷ r), drop-suc-append e.raw r b'}', p))

-- The text of a block, with what follows it.
abbrev block : Expression → Bytes → Bytes
block e r = b'{' ∷ (e.raw ++ (b'}' ∷ r))

index-block :
    (l : Bytes) (e : Expression) (r : Bytes)
    → parse e.raw ≡ ok e
    → index l (codes "{$") ≡ none
    → index (l ++ block e r) (codes "{$") ≡ some (length l)
index-block l e r p h =
    let d = parse-dollar e.raw e p in
    ap (λ (x : Bytes). index (l ++ (b'{' ∷ (x ++ (b'}' ∷ r)))) (codes "{$")) d
    ∙ index-literal l (drop 1 e.raw ++ (b'}' ∷ r)) h

positive : (n : ℕ) → ltb 0 (suc n) ≡ true
positive n = ground arith

module _ (fuel pos : ℕ) (tokens : List Token) (e : Expression) (r : Bytes) (p : parse e.raw ≡ ok e)
    (l : Lacks b'}' e.raw) where
  -- One round over a block, and one over a literal and the block behind it.
  round_expression :
      (at : ℕ) × (embedded_loop (suc fuel) (block e r) pos tokens
        ≡ embedded_loop fuel r at (tokens ++ (expression_token e ∷ [])))
  unfolding embedded_loop open_at index
  round_expression = (
    pos + 0 + 1 + length e.raw + 1,
    rw (index-block [] e r p refl, open_at)
        (close_at_complete (embedded_loop fuel) (pos + 0) tokens e r p l),
  )

  round_literal :
      (c : ℕ) (t : Bytes)
      → index (c ∷ t) (codes "{$") ≡ none
      → (at : ℕ) × (embedded_loop (suc fuel) ((c ∷ t) ++ block e r) pos tokens
          ≡ embedded_loop fuel r at
              ((tokens ++ (literal_token (c ∷ t) ∷ [])) ++ (expression_token e ∷ [])))
  unfolding embedded_loop open_at
  round_literal c t h = (
    pos + suc (length t) + 1 + length e.raw + 1,
    rw (index-block (c ∷ t) e r p h, open_at)
        (rw
          (
            drop-suc-append t (e.raw ++ (b'}' ∷ r)) b'{',
            take-append t (block e r),
            positive (length t),
          )
          (close_at_complete (embedded_loop fuel) (pos + suc (length t))
            (tokens ++ (literal_token (c ∷ t) ∷ [])) e r p l)),
  )

Alternates-tail : (t : Token) (ts : List Token) → Alternates (t ∷ ts) → Alternates ts
Alternates-tail t [] a = tt
Alternates-tail t (u ∷ ts) a = a.1

-- The loop reads the tokens `ts` back, whatever it has read before.
abbrev Reads : ℕ → List Token → Type 0
Reads fuel ts =
    (pos : ℕ) (tokens : List Token) → embedded_loop fuel (spell ts) pos tokens ≡ ok (tokens ++ ts)

Reads-expression :
    (fuel : ℕ) (e : Expression) (ts : List Token)
    → parse e.raw ≡ ok e
    → Lacks b'}' e.raw
    → Reads fuel ts
    → Reads (suc fuel) (expression_token e ∷ ts)
Reads-expression fuel e ts p l k pos tokens =
    let (at, r) = round_expression fuel pos tokens e (spell ts) p l in
    rw (append_assoc e.raw (b'}' ∷ []) (spell ts)) (
      r
      ∙ k at (tokens ++ (expression_token e ∷ []))
      ∙ ap ok (append_assoc tokens (expression_token e ∷ []) ts))

Reads-literal :
    (fuel : ℕ) (l : Bytes)
    → l ≢ []
    → index l (codes "{$") ≡ none
    → Reads (suc fuel) (literal_token l ∷ [])
unfolding embedded_loop open_at
Reads-literal fuel [] ne h pos tokens = absurd (ne refl)
Reads-literal fuel (c ∷ l) ne h pos tokens =
    subst (λ x. embedded_loop (suc fuel) x pos tokens ≡ ok (tokens ++ (literal_token (c ∷ l) ∷ [])))
      (sym (append-nil (c ∷ l))) (rw (h, open_at))

Reads-pair :
    (fuel : ℕ) (l : Bytes) (e : Expression) (ts : List Token)
    → l ≢ []
    → index l (codes "{$") ≡ none
    → parse e.raw ≡ ok e
    → Lacks b'}' e.raw
    → Reads fuel ts
    → Reads (suc fuel) (literal_token l ∷ expression_token e ∷ ts)
Reads-pair fuel [] e ts ne h p b k pos tokens = absurd (ne refl)
Reads-pair fuel (c ∷ l) e ts ne h p b k pos tokens =
    let (at, r) = round_literal fuel pos tokens e (spell ts) p b c l h in
    rw (append_assoc e.raw (b'}' ∷ []) (spell ts)) (
      r
      ∙ k at _
      ∙ ap ok (
          append_assoc (tokens ++ (literal_token (c ∷ l) ∷ [])) (expression_token e ∷ []) ts
          ∙ append_assoc tokens (literal_token (c ∷ l) ∷ []) (expression_token e ∷ ts)))

Reads-nil : (fuel : ℕ) → Reads fuel []
unfolding embedded_loop
Reads-nil zero pos tokens = rw append-nil
Reads-nil (suc fuel) pos tokens = rw append-nil

two_literals :
    (t u : Token)
    → t ≡ literal_token t.literal
    → u ≡ literal_token u.literal
    → (t.is_expression ≡ true) ⊎ (u.is_expression ≡ true)
    → ⊥
two_literals t u q q' (inl b) =
    let e : t.is_expression ≡ false = ap (λ (x : Token). x.is_expression) q in cc
two_literals t u q q' (inr b) =
    let e : u.is_expression ≡ false = ap (λ (x : Token). x.is_expression) q' in cc

Reads-spell :
    (ts : List Token) (fuel : ℕ)
    → length ts ≤ fuel
    → All IsToken ts
    → All IsClosable ts
    → Alternates ts
    → Reads fuel ts
Reads-spell [] fuel l t c a = Reads-nil fuel
Reads-spell (t ∷ ts) zero l k c a = absurd (omega arith)
Reads-spell (t ∷ []) (suc fuel) l (inl (q, ne, h), k) c a =
    subst (λ x. Reads (suc fuel) (x ∷ [])) (sym q) (Reads-literal fuel t.literal ne h)
Reads-spell (t ∷ u ∷ ts) (suc fuel) l (inl (q, ne, h), (inl (q', nz, z), k)) c (b, a) =
    absurd (two_literals t u q q' b)
Reads-spell (t ∷ u ∷ ts) (suc fuel) l (inl (q, ne, h), (inr (q', p), k)) (_, (c, cs)) (_, a) =
    subst₂ (λ x y. Reads (suc fuel) (x ∷ y ∷ ts)) (sym q) (sym q')
      (Reads-pair fuel t.literal u.expression ts ne h p c
        (Reads-spell ts fuel (omega arith) k cs (Alternates-tail u ts a)))
Reads-spell (t ∷ ts) (suc fuel) l (inr (q, p), k) (c, cs) a =
    subst (λ x. Reads (suc fuel) (x ∷ ts)) (sym q)
      (Reads-expression fuel t.expression ts p c
        (Reads-spell ts fuel (omega arith) k cs (Alternates-tail t ts a)))

length-spell_token : (t : Token) → IsToken t → 0 < length (spell_token t)
length-spell_token t (inl (q, ne, h)) =
    subst (λ x. 0 < length (spell_token x)) (sym q) (grind arith)
length-spell_token t (inr (q, p)) = subst (λ x. 0 < length (spell_token x)) (sym q) (omega arith)

length-le-spell : (ts : List Token) → All IsToken ts → length ts ≤ length (spell ts)
length-le-spell [] h = omega arith
length-le-spell (t ∷ ts) (h, hs) =
    omega (
      arith,
      length-spell_token t h,
      length-le-spell ts hs,
      length-append (spell_token t) (spell ts),
    )

-- `ParseEmbedded` reads back the text of tokens, if each literal is not empty and has no `{$` inside,
-- each expression is what `Parse` makes of its own text, no two literals stand in a row and no
-- expression holds a closing brace.
pub parse_embedded-spell :
    (ts : List Token)
    → All IsToken ts
    → All IsClosable ts
    → Alternates ts
    → parse_embedded (spell ts) ≡ ok ts
unfolding parse_embedded
parse_embedded-spell ts k c a = Reads-spell ts (length (spell ts)) (length-le-spell ts k) k c a 0 []
