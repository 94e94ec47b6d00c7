-- ===== src/Arazzo/Engine/Escaping.antt =====
-- arazzo/engine.go: what holds of the parts of a run that a panic leaves.
use libopenapi.Prelude.{
  Bool, true, false, Option, none, some, if◌then◌else◌, ◌≡◌, refl, inl, inr, Bool-cases,
}
use libopenapi.Arazzo.Engine.{EngineError, escapes, escaping, unless_escaping}

pub if_lem : {A : Type 0} (P : A → Type 0) (b : Bool) {x y : A} → P x → P y → P (if b then x else y)
if_lem P true p q = p
if_lem P false p q = q

-- A property of both ways to go on.
pub unless_escaping_lem :
    {A : Type 0} (P : A → Type 0) (x : Option EngineError) {f : EngineError → A} {a : A}
    → ((y : EngineError) → x ≡ some y → escapes y ≡ true → P (f y))
    → (escaping x ≡ none → P a)
    → P (unless_escaping x f a)
unless_escaping_lem P none p q = q refl
unless_escaping_lem P (some x) p q = elim (Bool-cases (escapes x)) [
  | inl k ↦ rw (unless_escaping, k) (p x refl k)
  | inr k ↦ rw (unless_escaping, k) (q (rw k refl))
]
