-- ===== src/Arazzo/Validation/Clean.antt =====
-- arazzo/validation.go: when the parts of a validation append no error, in terms of what they test.
pub mod Fields
pub mod Criteria
pub mod Actions
pub mod Sources
pub mod Workflows
use libopenapi.Prelude.{
  ℕ, suc, Bool, true, false, not, ◌&&◌, ◌||◌, List, [], ◌∷◌, ◌++◌, Option, none, some, Bytes, eqb,
  eqb_iff, member, is_empty, if◌then◌else◌, ◌≡◌, ◌≢◌, ◌↔◌, ◌⊎◌, inl, inr, refl, sym, ap, ◌∙◌, arith,
  All, All-append, append-All, Bool-cases,
}
use libopenapi.Prelude.Outcome.{Result, ok, err}
use libopenapi.Arazzo.Engine.Edges.{IsDistinct}
use libopenapi.Arazzo.Validation.{
  Report, error, warning, nil_dereference, unfinished, Reports, Cause, Message, error_if,
  warning_if, ValidationResult, Stop, collected, each,
}
use libopenapi.Arazzo.Validation.Names.{was_seen, see, keys, each_seen}

abbrev IsWarning : Report → Type 0
IsWarning (error path cause) = ⊥
IsWarning (warning path message) = Unit
IsWarning nil_dereference = ⊥
IsWarning unfinished = ⊥

-- No error, no panic and no lack of fuel.
abbrev pub Clean : Reports → Type 0
Clean = All IsWarning

-- A check is clean exactly where a rule holds.
pub record Tests (rs : Reports) (P : Type 0) : Type 0 where
  pub rule_of : Clean rs → P
  pub clean_of : P → Clean rs

pub both : {xs ys : Reports} {P Q : Type 0} → Tests xs P → Tests ys Q → Tests (xs ++ ys) (P × Q)
both {xs = xs} {ys = ys} f g = record {
  rule_of = λ h. let (a, b) = append-All IsWarning xs ys h in (f.rule_of a, g.rule_of b);
  clean_of = λ (p, q). All-append IsWarning xs ys (f.clean_of p) (g.clean_of q);
}

pub unless :
    (b : Bool) (path : Bytes) (cause : Cause) {P : Type 0}
    → ((b ≡ false) ↔ P)
    → Tests (error_if b path cause) P
unless true path cause f = record {
  rule_of = λ h. absurd h.0;
  clean_of = λ p. let e = f.1 p in ground arith;
}
unless false path cause f = record { rule_of = λ h. f.0 refl; clean_of = λ p. tt }

pub warned : (b : Bool) (path : Bytes) (message : Message) → Tests (warning_if b path message) Unit
warned true path message = record { rule_of = λ h. tt; clean_of = λ p. (tt, tt) }
warned false path message = record { rule_of = λ h. tt; clean_of = λ p. tt }

pub renamed : {xs : Reports} {P Q : Type 0} → (P ↔ Q) → Tests xs P → Tests xs Q
renamed (to, from) f = record {
  rule_of = λ h. to (f.rule_of h);
  clean_of = λ q. f.clean_of (from q);
}

pub negated : (b : Bool) → (not b ≡ false) ↔ (b ≡ true)
negated b = ground arith

pub non_empty : {A : Type 0} (s : List A) → (is_empty s ≡ false) ↔ (s ≢ [])
non_empty [] = (λ e. ground arith, λ h. absurd (h refl))
non_empty (c ∷ s) = (λ e q. ground arith, λ h. refl)

-- `error_if (s != "" && !b)`.
pub optional :
    {A : Type 0} (s : List A) (b : Bool)
    → ((not (is_empty s) && not b) ≡ false) ↔ (s ≢ [] → b ≡ true)
optional [] b = (λ e h. absurd (h refl), λ h. refl)
optional (c ∷ s) b = (λ e h. ground arith, λ h. let e = h (λ q. ground arith) in ground arith)

-- `error_if (s != "" && s != a && s != b)`, with tests for the three.
pub one_of_two :
    (e x y : Bool) {N P Q : Type 0}
    → ((e ≡ false) ↔ N)
    → ((x ≡ true) ↔ P)
    → ((y ≡ true) ↔ Q)
    → ((not e && not x && not y) ≡ false) ↔ (N → P ⊎ Q)
one_of_two true x y k f g = (λ h n. let q = k.1 n in ground arith, λ h. refl)
one_of_two false true y k f g = (λ h n. inl (f.0 refl), λ h. refl)
one_of_two false false true k f g = (λ h n. inr (g.0 refl), λ h. refl)
one_of_two false false false k f g = (
  λ h n. ground arith,
  λ h. elim (h (k.0 refl)) [
    | inl p ↦ let e = f.1 p in ground arith
    | inr q ↦ let e = g.1 q in ground arith
  ],
)

pub one_of_three :
    (e x y z : Bool) {N P Q R : Type 0}
    → ((e ≡ false) ↔ N)
    → ((x ≡ true) ↔ P)
    → ((y ≡ true) ↔ Q)
    → ((z ≡ true) ↔ R)
    → ((not e && not x && not y && not z) ≡ false) ↔ (N → P ⊎ (Q ⊎ R))
one_of_three true x y z k f g h = (λ e n. let q = k.1 n in ground arith, λ e. refl)
one_of_three false true y z k f g h = (λ e n. inl (f.0 refl), λ e. refl)
one_of_three false false y z k f g h =
    let (to, from) = one_of_two false y z k g h in
    (
      λ e n. inr (to e n),
      λ e. from (λ n. elim (e n) [ inl p ↦ let q = f.1 p in ground arith | inr r ↦ r ]),
    )

-- A test that chooses between two checks.
pub chosen :
    (b : Bool) {xs ys : Reports} {P Q : Type 0}
    → Tests xs P
    → Tests ys Q
    → Tests (if b then xs else ys) ((b ≡ true → P) × (b ≡ false → Q))
chosen true f g = record {
  rule_of = λ h. (λ e. f.rule_of h, λ e. ground arith);
  clean_of = λ (p, q). f.clean_of (p refl);
}
chosen false f g = record {
  rule_of = λ h. (λ e. ground arith, λ e. g.rule_of h);
  clean_of = λ (p, q). g.clean_of (q refl);
}

pub refuses : (path : Bytes) (cause : Cause) → Tests (error path cause ∷ []) ⊥
refuses path cause = record { rule_of = λ h. h.0; clean_of = λ h. absurd h }

pub nothing : Tests [] Unit
nothing = record { rule_of = λ h. tt; clean_of = λ h. tt }

pub each-Tests :
    {A : Type 0} (P : A → Type 0) (check : ℕ → A → Reports)
    → ((i : ℕ) (a : A) → Tests (check i a) (P a))
    → (i : ℕ) (xs : List A) → Tests (each check i xs) (All P xs)
unfolding each
each-Tests P check f i [] = nothing
each-Tests P check f i (a ∷ rest) = both (f i a) (each-Tests P check f (suc i) rest)

-- The keys are not in `seen`, and none comes twice.
abbrev NewKeys : {A : Type 0} → (A → Option Bytes) → List Bytes → List A → Type 0
NewKeys key seen [] = Unit
NewKeys key seen (a ∷ rest) = (was_seen (key a) seen ≡ false) × NewKeys key (see (key a) seen) rest

if_key :
    (k : Option Bytes) (seen : List Bytes)
    → (k ≢ none → was_seen k seen ≡ false)
    → was_seen k seen ≡ false
if_key none seen h = refl
if_key (some k) seen h = h (λ e. ground arith)

each_seen-NewKeys :
    {A : Type 0} (key : A → Option Bytes) (P : A → Type 0) (check : ℕ → A → Bool → Reports)
    → ((i : ℕ) (a : A) (seen : Bool)
        → Tests (check i a seen) (P a × ((key a ≢ none) → seen ≡ false)))
    → (i : ℕ) (seen : List Bytes) (xs : List A)
    → Tests (each_seen key check i seen xs) (All P xs × NewKeys key seen xs)
unfolding each_seen
each_seen-NewKeys key P check f i seen [] = record { rule_of = λ h. (tt, tt); clean_of = λ h. tt }
each_seen-NewKeys key P check f i seen (a ∷ rest) =
    renamed
      (
        λ ((p, q), (ps, qs)). ((p, ps), (if_key (key a) seen q, qs)),
        λ ((p, ps), (q, qs)). ((p, λ e. q), (ps, qs)),
      )
      (both (f i a (was_seen (key a) seen))
        (each_seen-NewKeys key P check f (suc i) (see (key a) seen) rest))

-- No key of a list is in `seen`.
abbrev Apart : List Bytes → List Bytes → Type 0
Apart ks seen = (k : Bytes) → member k ks ≡ true → member k seen ≡ false

module _ {A : Type 0} (key : A → Option Bytes) where
  see-Apart :
      (k : Option Bytes) (seen ks : List Bytes)
      → ((was_seen k seen ≡ false) × (IsDistinct ks × Apart ks (see k seen)))
        ↔ (IsDistinct (see k ks) × Apart (see k ks) seen)
  unfolding member
  see-Apart none seen ks = (λ (q, r). r, λ r. (refl, r))
  see-Apart (some k) seen ks = (
    λ (q, (d, a)). (
      (not_in (λ e. let b = a k e in ground (arith, eqb_iff k k)), d),
      λ i e. elim (Bool-cases (eqb k i)) [
        | inl same ↦ ap (λ j. member j seen) (sym ((eqb_iff k i).0 same)) ∙ q
        | inr other ↦ let b = a i (ground arith) in ground arith
      ],
    ),
    λ ((n, d), a). (
      a k (ground (arith, eqb_iff k k)),
      (
        d,
        λ i e. elim (Bool-cases (eqb k i)) [
          | inl same ↦ let b = ap (λ j. member j ks) ((eqb_iff k i).0 same) in ground arith
          | inr other ↦ let b = a i (ground arith) in ground arith
        ],
      ),
    ),
  )
    where
      not_in : {b : Bool} → ¬ (b ≡ true) → b ≡ false
      not_in {b = true} h = absurd (h refl)
      not_in {b = false} h = refl

  NewKeys-IsDistinct :
      (seen : List Bytes) (xs : List A)
      → NewKeys key seen xs ↔ (IsDistinct (keys key xs) × Apart (keys key xs) seen)
  unfolding keys member
  NewKeys-IsDistinct seen [] = (λ h. (tt, λ k e. ground arith), λ h. tt)
  NewKeys-IsDistinct seen (a ∷ rest) =
      let (to, from) = NewKeys-IsDistinct (see (key a) seen) rest in
      let (f, g) = see-Apart (key a) seen (keys key rest) in
      (λ (q, h). f (q, to h), λ h. let (q, r) = g h in (q, from r))

  -- A loop with a map of what it has seen is clean where each element is and no key comes twice.
  pub each_seen-Tests :
      (P : A → Type 0) (check : ℕ → A → Bool → Reports)
      → ((i : ℕ) (a : A) (seen : Bool)
          → Tests (check i a seen) (P a × ((key a ≢ none) → seen ≡ false)))
      → (xs : List A) → Tests (each_seen key check 0 [] xs) (All P xs × IsDistinct (keys key xs))
  unfolding member
  each_seen-Tests P check f xs =
      let (to, from) = NewKeys-IsDistinct [] xs in
      renamed (λ (ps, h). (ps, (to h).0), λ (ps, d). (ps, from (d, λ k e. refl)))
        (each_seen-NewKeys key P check f 0 [] xs)
