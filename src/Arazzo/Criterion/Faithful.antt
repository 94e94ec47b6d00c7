-- ===== src/Arazzo/Criterion/Faithful.antt =====
-- arazzo/criterion.go: what the engine's caches hold, and what evaluates alike with and without them.
use libopenapi.Prelude.{
  Bool, List, ◌≡◌, inl, inr, Option, none, some, Bytes, eqb, eqb-eq, Bool-cases,
}
use mathlib.Core.Path.{subst}
use libopenapi.Prelude.Outcome.{ok}
use libopenapi.Prelude.Dict.{lookup, insert, lookup-insert}
use libopenapi.Yaml.{Node}
use libopenapi.Arazzo.Expression.{Expression}
use libopenapi.Arazzo.Expression.Parser.{parse}
use libopenapi.Arazzo.Criterion.{Host, Caches, Cached, new_caches}

-- Each entry is what the parser or the compiler returns for its key.
pub record IsFaithful (h : Host) (c : Caches) : Type 0 where
  pub expressions : (k : Bytes) (e : Expression) → lookup k c.expressions ≡ some e → parse k ≡ ok e
  pub regex : (k : Bytes) (r : Option (Bytes → Bool)) → lookup k c.regex ≡ some r → h.compile k ≡ r
  pub json_path :
      (k : Bytes) (r : Option (Node → List Node)) → lookup k c.json_path ≡ some r → h.new_path k ≡ r

abbrev pub AreFaithful : Host → Option Caches → Type 0
AreFaithful h none = Unit
AreFaithful h (some c) = IsFaithful h c

pub new_caches-IsFaithful : (h : Host) → IsFaithful h new_caches
unfolding lookup
new_caches-IsFaithful h = record {
  expressions = λ k e q. cc;
  regex = λ k e q. cc;
  json_path = λ k e q. cc;
}

-- An insertion keeps what holds of every entry.
pub insert-keeps :
    {V : Type 0} (P : Bytes → V → Type 0) (raw : Bytes) (v : V) (m : List (Bytes × V))
    → P raw v
    → ((k : Bytes) (r : V) → lookup k m ≡ some r → P k r)
    → (k : Bytes) (r : V) → lookup k (insert raw v m) ≡ some r
    → P k r
insert-keeps P raw v m p f k r q = elim (Bool-cases (eqb raw k)) [
  | inl y ↦
      let e : some v ≡ some r = rw (lookup-insert raw k v m, y) at q in
      let w : v ≡ r = cc in subst (λ x. P x r) (eqb-eq raw k y) (subst (P raw) w p)
  | inr n ↦ f k r (rw (lookup-insert raw k v m, n) at q)
]

-- The caches change no result, and stay faithful; without caches there are none after.
pub record IsTransparent (h : Host) {A : Type 0} (m : Cached A) : Type 0 where
  pub cacheless : (m none).1 ≡ none
  pub agrees :
      (c : Option Caches) → AreFaithful h c → ((m c).0 ≡ (m none).0) × AreFaithful h (m c).1
