-- ===== src/Arazzo/Criterion/Caching.antt =====
-- arazzo/criterion.go: evaluation with the engine's caches against evaluation without.
use libopenapi.Prelude.{
  Bool, true, false, List, ◌≡◌, inl, inr, refl, sym, Option, none, some, Bytes, codes, eqb,
  has_prefix, is_empty, if◌then◌else◌, Option-cases,
}
use Prim.Native.String.{String}
use mathlib.Core.Path.{subst}
use libopenapi.Prelude.Outcome.{Result, ok, err, Result-cases}
use libopenapi.Prelude.Number.{parse_bool}
use libopenapi.Prelude.Dict.{lookup}
use libopenapi.Prelude.Space.{trim_space}
use libopenapi.Arazzo.Expression.{Expression, ParseError}
use libopenapi.Arazzo.Expression.Parser.{parse}
use libopenapi.Arazzo.Evaluator.{Context}
use libopenapi.Arazzo.Evaluator.Evaluate.{StringError, evaluate_string}
use libopenapi.Arazzo.Criterion.{Host, Criterion, Caches, CriterionError, Cached, effective_type}
use libopenapi.Arazzo.Criterion.Condition.{split_simple_condition}
use libopenapi.Arazzo.Criterion.Evaluate.{
  ◌>>=◌, pure, keep_parsed, evaluate_parsed, parse_expression, compile_cached, compile_regex,
  compile_json_path, evaluate_expr_string, evaluate_simple_operand,
  evaluate_simple_condition_string, evaluate_simple_criterion, evaluate_regex_criterion,
  evaluate_jsonpath_criterion, evaluate_criterion_impl, evaluate_criterion,
}
use libopenapi.Arazzo.Criterion.Faithful.{IsFaithful, AreFaithful, insert-keeps, IsTransparent}

module _ (h : Host) where
  IsTransparent-pure : {A : Type 0} (r : Result CriterionError A) → IsTransparent h (pure r)
  IsTransparent-pure r = record { cacheless = refl; agrees = λ c f. (refl, f) }

  IsTransparent-if :
      {A : Type 0} (b : Bool) (m n : Cached A)
      → IsTransparent h m
      → IsTransparent h n
      → IsTransparent h (if b then m else n)
  IsTransparent-if true m n p q = p
  IsTransparent-if false m n p q = q

  -- What a bind does behind its first part, `x` with caches and `y` without.
  bind-none :
      {A B : Type 0} (x : Result CriterionError A × Option Caches) (f : A → Cached B)
      → x.1 ≡ none
      → ((a : A) → IsTransparent h (f a))
      → (((λ (c : Option Caches). x) >>= f) none).1 ≡ none
  unfolding ◌>>=◌
  bind-none (ok a, d) f e q = subst (λ d. (f a d).1 ≡ none) (sym e) (q a).cacheless
  bind-none (err z, d) f e q = e

  bind-agree :
      {A B : Type 0} (x y : Result CriterionError A × Option Caches) (f : A → Cached B)
      → x.0 ≡ y.0
      → y.1 ≡ none
      → AreFaithful h x.1
      → ((a : A) → IsTransparent h (f a))
      → ((((λ (c : Option Caches). x) >>= f) none).0 ≡ (((λ (c : Option Caches). y) >>= f) none).0)
        × AreFaithful h (((λ (c : Option Caches). x) >>= f) none).1
  unfolding ◌>>=◌
  bind-agree (ok a, d) (ok b, d') f e n k q =
      let same : a ≡ b = cc in
      subst (λ b. ((f a d).0 ≡ (f b d').0) × AreFaithful h (f a d).1) same
        (subst (λ d'. ((f a d).0 ≡ (f a d').0) × AreFaithful h (f a d).1) (sym n)
          ((q a).agrees d k))
  bind-agree (ok a, d) (err z, d') f e n k q = absurd (cc)
  bind-agree (err z, d) (ok b, d') f e n k q = absurd (cc)
  bind-agree (err z, d) (err z', d') f e n k q = (cc, k)

  IsTransparent-bind :
      {A B : Type 0} (m : Cached A) (f : A → Cached B)
      → IsTransparent h m
      → ((a : A) → IsTransparent h (f a))
      → IsTransparent h (m >>= f)
  unfolding ◌>>=◌
  IsTransparent-bind m f p q = record {
    cacheless = bind-none (m none) f p.cacheless q;
    agrees = λ c k. let r = p.agrees c k in bind-agree (m c) (m none) f r.0 p.cacheless r.1 q;
  }

  compile_cached_lem :
      {P : Type 0} (compiler : Bytes → Option P) (raw : Bytes) (cache : List (Bytes × Option P))
      → ((k : Bytes) (r : Option P) → lookup k cache ≡ some r → compiler k ≡ r)
      → ((compile_cached compiler raw cache).0 ≡ compiler raw)
        × ((k : Bytes) (r : Option P)
            → lookup k (compile_cached compiler raw cache).1 ≡ some r
            → compiler k ≡ r)
  unfolding compile_cached
  compile_cached_lem compiler raw cache f = elim (Option-cases (lookup raw cache)) [
    | inl e ↦
        rw (e, compile_cached)
          (refl, insert-keeps (λ k r. compiler k ≡ r) raw (compiler raw) cache refl f)
    | inr (r, e) ↦ rw (e, compile_cached) (sym (f raw r e), f)
  ]

  IsTransparent-compile_regex : (raw : Bytes) → IsTransparent h (compile_regex h raw)
  unfolding compile_regex
  IsTransparent-compile_regex raw = record { cacheless = refl; agrees = go }
    where
      go :
          (c : Option Caches)
          → AreFaithful h c
          → ((compile_regex h raw c).0 ≡ (compile_regex h raw none).0)
            × AreFaithful h (compile_regex h raw c).1
      go none f = (refl, tt)
      go (some c) f =
          let l = compile_cached_lem h.compile raw c.regex f.regex in
          (rw l.0, record { expressions = f.expressions; regex = l.1; json_path = f.json_path })

  pub parse_expression_lem :
      (input : Bytes) (cache : List (Bytes × Expression))
      → ((k : Bytes) (e : Expression) → lookup k cache ≡ some e → parse k ≡ ok e)
      → ((parse_expression input cache).0 ≡ parse input)
        × ((k : Bytes) (e : Expression)
            → lookup k (parse_expression input cache).1 ≡ some e
            → parse k ≡ ok e)
  unfolding parse_expression
  parse_expression_lem input cache f = elim (Option-cases (lookup input cache)) [
    | inr (e, q) ↦ rw (q, parse_expression) (sym (f input e q), f)
    | inl n ↦ rw (n, parse_expression) (kept (parse input) refl)
  ]
    where
      kept :
          (r : Result ParseError Expression)
          → parse input ≡ r
          → ((keep_parsed input cache r).0 ≡ r)
            × ((k : Bytes) (e : Expression)
                → lookup k (keep_parsed input cache r).1 ≡ some e
                → parse k ≡ ok e)
      kept (ok e) q = (refl, insert-keeps (λ k e. parse k ≡ ok e) input e cache q f)
      kept (err x) q = (refl, f)

  IsTransparent-compile_json_path : (raw : Bytes) → IsTransparent h (compile_json_path h raw)
  unfolding compile_json_path
  IsTransparent-compile_json_path raw = record { cacheless = refl; agrees = go }
    where
      go :
          (c : Option Caches)
          → AreFaithful h c
          → ((compile_json_path h raw c).0 ≡ (compile_json_path h raw none).0)
            × AreFaithful h (compile_json_path h raw c).1
      go none f = (refl, tt)
      go (some c) f =
          let l = compile_cached_lem h.new_path raw c.json_path f.json_path in
          (rw l.0, record { expressions = f.expressions; regex = f.regex; json_path = l.1 })

  module _ (ctx : Context h.floats.Float) where
    evaluate_string-parsed :
        (input : Bytes)
        → evaluate_string h.floats input (some ctx) ≡ evaluate_parsed h ctx (parse input)
    unfolding evaluate_string
    evaluate_string-parsed input = elim (Result-cases (parse input)) [
      | inl (e, q) ↦ rw q
      | inr (x, q) ↦ rw q
    ]

    IsTransparent-evaluate_expr_string :
        (wrap : StringError → CriterionError) (input : Bytes)
        → IsTransparent h (evaluate_expr_string h ctx wrap input)
    unfolding evaluate_expr_string
    IsTransparent-evaluate_expr_string wrap input = record { cacheless = refl; agrees = go }
      where
        go :
            (c : Option Caches)
            → AreFaithful h c
            → ((evaluate_expr_string h ctx wrap input c).0
                ≡ (evaluate_expr_string h ctx wrap input none).0)
              × AreFaithful h (evaluate_expr_string h ctx wrap input c).1
        go none f = (refl, tt)
        go (some c) f =
            let l = parse_expression_lem input c.expressions f.expressions in
            (
              rw (evaluate_string-parsed input, l.0),
              record { expressions = l.1; regex = f.regex; json_path = f.json_path },
            )

    IsTransparent-simple_operand : (s : Bytes) → IsTransparent h (evaluate_simple_operand h ctx s)
    unfolding evaluate_simple_operand
    IsTransparent-simple_operand s =
        IsTransparent-if (is_empty (trim_space s)) _ _ (IsTransparent-pure _) (
          IsTransparent-if (has_prefix (trim_space s) (codes "$")) _ _
            (IsTransparent-evaluate_expr_string _ _)
            (IsTransparent-bind _ _ (IsTransparent-pure _) λ q. IsTransparent-pure _))

    IsTransparent-simple_condition :
        (s : Bytes) → IsTransparent h (evaluate_simple_condition_string h ctx s)
    unfolding evaluate_simple_condition_string
    IsTransparent-simple_condition s =
        let t = trim_space s in
        IsTransparent-if (is_empty t) _ _ (IsTransparent-pure _)
          (elim (Option-cases (parse_bool t)) [
            | inr (b, e) ↦ rw e (IsTransparent-pure _)
            | inl e ↦ rw e (elim (Option-cases (split_simple_condition t)) [
              | inr ((l, op, r), q) ↦ rw q (
                  IsTransparent-bind _ _ (IsTransparent-simple_operand l) λ left.
                    IsTransparent-bind _ _ (IsTransparent-simple_operand r)
                      λ right. IsTransparent-pure _)
              | inl q ↦ rw q (
                  IsTransparent-bind _ _ (IsTransparent-simple_operand t) λ v. IsTransparent-pure _)
            ])
          ])

    IsTransparent-simple_criterion :
        (c : Criterion) → IsTransparent h (evaluate_simple_criterion h ctx c)
    unfolding evaluate_simple_criterion
    IsTransparent-simple_criterion c =
        IsTransparent-if (is_empty c.context) _ _ (IsTransparent-simple_condition c.condition) (
          IsTransparent-bind _ _ (IsTransparent-evaluate_expr_string _ _) λ v. IsTransparent-pure _)

    IsTransparent-regex_criterion :
        (c : Criterion) → IsTransparent h (evaluate_regex_criterion h ctx c)
    unfolding evaluate_regex_criterion
    IsTransparent-regex_criterion c =
        IsTransparent-if (is_empty c.context) _ _ (IsTransparent-pure _) (
          IsTransparent-bind _ _ (IsTransparent-evaluate_expr_string _ _)
            λ v. IsTransparent-bind _ _ (IsTransparent-compile_regex _) λ re. IsTransparent-pure _)

    IsTransparent-jsonpath_criterion :
        (c : Criterion) → IsTransparent h (evaluate_jsonpath_criterion h ctx c)
    unfolding evaluate_jsonpath_criterion
    IsTransparent-jsonpath_criterion c =
        IsTransparent-if (is_empty c.context) _ _ (IsTransparent-pure _) (
          IsTransparent-bind _ _ (IsTransparent-evaluate_expr_string _ _) λ target.
            IsTransparent-bind _ _ (IsTransparent-compile_json_path _) λ path. IsTransparent-pure _)

    IsTransparent-criterion : (c : Criterion) → IsTransparent h (evaluate_criterion_impl h ctx c)
    unfolding evaluate_criterion_impl
    IsTransparent-criterion c =
        let is = λ (t : String). eqb (effective_type c) (codes t) in
        IsTransparent-if (is "simple") _ _ (IsTransparent-simple_criterion c) (
          IsTransparent-if (is "regex") _ _ (IsTransparent-regex_criterion c) (
            IsTransparent-if (is "jsonpath") _ _ (IsTransparent-jsonpath_criterion c)
              (IsTransparent-if (is "xpath") _ _ (IsTransparent-pure _) (IsTransparent-pure _))))

    -- With an engine's caches a criterion evaluates to what it does without caches, if each entry is
    -- what its compiler or the parser returns for its key, and so it is of each entry afterwards.
    pub evaluate_criterion_impl-cached :
        (criterion : Criterion) (c : Caches)
        → IsFaithful h c
        → ((evaluate_criterion_impl h ctx criterion (some c)).0
            ≡ evaluate_criterion h ctx criterion)
          × AreFaithful h (evaluate_criterion_impl h ctx criterion (some c)).1
    unfolding evaluate_criterion
    evaluate_criterion_impl-cached criterion c f =
        (IsTransparent-criterion criterion).agrees (some c) f
