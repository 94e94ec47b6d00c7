-- ===== src/Prelude/Text.antt =====
-- Go strings as lists of bytes, with the functions of package `strings` that the program calls.
use Prim.Native.Nat.{ℕ, zero, suc, pred, compare, Ordering}
use Prim.Native.Char.{code}
use Prim.Native.String.{String}
use mathlib.Core.Path.{◌≡◌, refl}
use mathlib.Core.Logic.{◌↔◌, ◌≢◌, inl, inr}
use mathlib.Core.Bool.{Bool, true, false, ◌&&◌}
use mathlib.Core.List.{List, [], ◌∷◌, ◌++◌, reverse}
use mathlib.Core.Option
use mathlib.Core.Option.{Option, none, some}
use native.Mathlib.Omega.{arith}
use libopenapi.Prelude.Tests.{◌==◌, if◌then◌else◌, Bool-cases}
use libopenapi.Prelude.Lists.{length, take, drop, All}

abbrev pub Bytes : Type 0
Bytes = List ℕ

-- The bytes of a literal; the program's literals are ASCII.
abbrev pub codes : String → Bytes
codes String.[] = []
codes (String.◌∷◌ c s) = code c ∷ codes s

-- `a == b` on strings.
unfoldable pub eqb : Bytes → Bytes → Bool
eqb [] [] = true
eqb (x ∷ xs) (y ∷ ys) = x == y && eqb xs ys
eqb _ _ = false

pub eqb_iff : (a b : Bytes) → (eqb a b ≡ true) ↔ (a ≡ b)
unfolding eqb
eqb_iff (x ∷ a) (y ∷ b) = ground (arith, eqb_iff a b)
eqb_iff _ _ = ground arith

pub eqb_refl : (a : Bytes) → eqb a a ≡ true
eqb_refl a = (eqb_iff a a).1 refl

pub eqb-eq : (a b : Bytes) → eqb a b ≡ true → a ≡ b
eqb-eq a b = (eqb_iff a b).0

pub eqb-ne : (a b : Bytes) → a ≢ b → eqb a b ≡ false
eqb-ne a b h = elim (Bool-cases (eqb a b)) [ inl e ↦ absurd (h (eqb-eq a b e)) | inr e ↦ e ]

-- `len(s) == 0`, `s == ""`.
abbrev pub is_empty {ℓ} : {A : Type ℓ} → List A → Bool
is_empty [] = true
is_empty (_ ∷ _) = false

-- `strings.HasPrefix(s, p)`.
unfoldable pub has_prefix : Bytes → Bytes → Bool
has_prefix s [] = true
has_prefix [] (x ∷ p) = false
has_prefix (y ∷ s) (x ∷ p) = y == x && has_prefix s p

pub has_prefix-drop : (s p : Bytes) → has_prefix s p ≡ true → s ≡ p ++ drop (length p) s
unfolding has_prefix
has_prefix-drop s [] h = refl
has_prefix-drop [] (x ∷ p) h = cc
has_prefix-drop (y ∷ s) (x ∷ p) h = ground (arith, has_prefix-drop s p)

pub has_prefix-append : (p s : Bytes) → has_prefix (p ++ s) p ≡ true
unfolding has_prefix
has_prefix-append [] s = refl
has_prefix-append (x ∷ p) s = ground (arith, has_prefix-append p s)

-- `strings.IndexByte(s, b)`; `none` stands for -1.
unfoldable pub index_byte : Bytes → ℕ → Option ℕ
index_byte [] b = none
index_byte (c ∷ s) b = if c == b then some 0 else Option.map suc (index_byte s b)

abbrev pub Lacks : ℕ → Bytes → Type 0
Lacks b = All (λ c. c ≢ b)

pub index_byte-none : (s : Bytes) (b : ℕ) → index_byte s b ≡ none → Lacks b s
unfolding index_byte
index_byte-none [] b h = tt
index_byte-none (c ∷ s) b h = ground (arith, index_byte-none s b)

pub index_byte-Lacks : (s : Bytes) (b : ℕ) → Lacks b s → index_byte s b ≡ none
unfolding index_byte
index_byte-Lacks [] b h = refl
index_byte-Lacks (c ∷ s) b h = ground (arith, index_byte-Lacks s b h.1)

pub index_byte-some :
    (s : Bytes) (b i : ℕ)
    → index_byte s b ≡ some i
    → Lacks b (take i s) × (s ≡ take i s ++ (b ∷ drop (suc i) s))
unfolding index_byte
index_byte-some [] b i h = cc
index_byte-some (c ∷ s) b zero h = ground arith
index_byte-some (c ∷ s) b (suc i) h = ground (arith, index_byte-some s b i)

pub index_byte-append :
    (p s : Bytes) (b : ℕ) → Lacks b p → index_byte (p ++ (b ∷ s)) b ≡ some (length p)
unfolding index_byte
index_byte-append [] s b h = ground arith
index_byte-append (c ∷ p) s b h = ground (arith, index_byte-append p s b h.1)

-- `strings.Index(s, p)`; `none` stands for -1.
unfoldable pub index : Bytes → Bytes → Option ℕ
unfolding has_prefix
index [] p = if has_prefix [] p then some 0 else none
index (c ∷ s) p = if has_prefix (c ∷ s) p then some 0 else Option.map suc (index s p)

-- `strings.Contains(s, p)`.
abbrev pub contains : Bytes → Bytes → Bool
contains s p = elim (index s p) [ none ↦ false | some _ ↦ true ]

-- `strings.ReplaceAll(s, old, new)`, for an `old` that is not empty. The number says how many
-- bytes of a match are still to be passed over.
unfoldable pub replace_from : Bytes → Bytes → ℕ → Bytes → Bytes
replace_from old new k [] = []
replace_from old new (suc k) (c ∷ s) = replace_from old new k s
replace_from old new zero (c ∷ s) = elim (has_prefix (c ∷ s) old) [
  | true ↦ new ++ replace_from old new (pred (length old)) s
  | false ↦ c ∷ replace_from old new zero s
]

abbrev pub replace_all : Bytes → Bytes → Bytes → Bytes
replace_all s old new = replace_from old new zero s

-- `strings.Split(s, sep)` for a separator of one byte.
unfoldable pub split_from : ℕ → Bytes → Bytes → List Bytes
split_from sep part [] = part ∷ []
split_from sep part (c ∷ s) = elim (c == sep) [
  | true ↦ part ∷ split_from sep [] s
  | false ↦ split_from sep (part ++ (c ∷ [])) s
]

abbrev pub split : Bytes → ℕ → List Bytes
split s sep = split_from sep [] s

-- `strings.HasSuffix(s, p)`.
abbrev pub has_suffix : Bytes → Bytes → Bool
has_suffix s p = has_prefix (reverse s) (reverse p)

-- `a < b` on strings: byte by byte.
unfoldable pub text_lt : Bytes → Bytes → Bool
text_lt s [] = false
text_lt [] (y ∷ t) = true
text_lt (x ∷ s) (y ∷ t) = elim (compare x y) [
  | Ordering.lt ↦ true
  | Ordering.eq ↦ text_lt s t
  | Ordering.gt ↦ false
]

unfoldable pub member : Bytes → List Bytes → Bool
member id [] = false
member id (j ∷ ids) = let rest = member id ids in if eqb j id then true else rest
