-- ===== src/Arazzo/Engine/Drained.antt =====
-- arazzo/engine.go: the last loop of `topologicalSort` takes every workflow without an open
-- dependency.
use libopenapi.Prelude.{
  ℕ, zero, suc, ◌+◌, ◌<◌, Bool, true, false, ◌||◌, List, [], ◌∷◌, ◌++◌, Bytes, eqb, eqb_iff,
  eqb_refl, member, Option, none, some, if◌then◌else◌, ◌≡◌, refl, sym, ap, ◌∙◌, arith, inl, inr,
  ◌⊎◌, Bool-cases, append_assoc, append-nil,
}
use mathlib.Core.Path.{subst}
use libopenapi.Prelude.Number.{pos}
use libopenapi.Arazzo.Engine.Order.{Degrees, degree, decrement, is_zero, dependents, relax, drain}
use libopenapi.Arazzo.Engine.Edges.{
  Edges, open_edges, targets, occurrences, member-append, member_last, Counts, relaxed, next_degree,
  relaxed-Counts, IsDistinct, relax-Queued,
}
use libopenapi.Arazzo.Engine.Sorted.{Waits, splits, before-Counts, relaxed-Waits, head_fresh}

pub joins :
    (b : Bool) (j i : Bytes) (new : List Bytes)
    → (member i new ≡ true) ⊎ ((b ≡ true) × (eqb j i ≡ true))
    → member i (if b then j ∷ new else new) ≡ true
unfolding member
joins true j i new (inl q) = ground arith
joins true j i new (inr (p, q)) = ground arith
joins false j i new (inl q) = q
joins false j i new (inr (p, q)) = ground arith

positive_or_zero : (n : ℕ) → (0 < n) ⊎ (n ≡ 0)
positive_or_zero zero = inr refl
positive_or_zero (suc n) = inl (omega arith)

-- What has had an edge and has none now is queued.
relax-member :
    (more : Bytes → ℕ) (ids : List Bytes) (m : Degrees)
    → Counts m (λ i. occurrences i ids + more i)
    → (i : Bytes) → 0 < occurrences i ids
    → more i ≡ 0
    → member i (relax ids m).1 ≡ true
unfolding relax occurrences relaxed member
relax-member more [] m h i q r = ground arith
relax-member more (j ∷ ids) m h i q r =
    let next : 0 < occurrences i ids → member i (relax ids (relaxed more j ids m)).1 ≡ true =
      λ p. relax-member more ids (relaxed more j ids m) (relaxed-Counts more j ids m h) i p r in
    joins (is_zero (decrement (degree j m))) j i _ (elim (Bool-cases (eqb j i)) [
      | inl e ↦ elim (positive_or_zero (occurrences i ids)) [
        | inl some_left ↦ inl (next some_left)
        | inr none_left ↦
            let closed : occurrences i ids + more i ≡ 0 = omega arith in
            inr (
              ap is_zero (
                  next_degree more j ids m h
                  ∙ ap pos (ap (λ k. occurrences k ids + more k) ((eqb_iff j i).0 e) ∙ closed)),
              e,
            )
      ]
      | inr e ↦ inl (next (ground arith))
    ])

-- Every id of `ids` without an open dependency is done or waits, and no other id waits.
pub record Awaits (es : Edges) (ids done queue : List Bytes) : Type 0 where
  pub taken :
      (i : Bytes)
      → member i ids ≡ true
      → open_edges es done i ≡ 0
      → (member i done || member i queue) ≡ true
  pub known : (i : Bytes) → member i queue ≡ true → member i ids ≡ true

-- The order of a run of the loop that ends: its ids are new, distinct and known, and no id without
-- an open dependency is left behind it.
pub record Taken (es : Edges) (ids done order : List Bytes) : Type 0 where
  pub all :
      (i : Bytes)
      → member i ids ≡ true
      → open_edges es (done ++ order) i ≡ 0
      → member i (done ++ order) ≡ true
  pub known : (i : Bytes) → member i order ≡ true → member i ids ≡ true
  pub fresh : (i : Bytes) → member i order ≡ true → member i done ≡ false
  pub distinct : IsDistinct order

abbrev pub TakenAll : Edges → List Bytes → List Bytes → Option (List Bytes) → Type 0
TakenAll es ids done none = Unit
TakenAll es ids done (some order) = Taken es ids done order

module _ (es : Edges) (ids done : List Bytes) (id : Bytes) where
  cons-Taken :
      (order : List Bytes)
      → member id ids ≡ true
      → member id done ≡ false
      → Taken es ids (done ++ (id ∷ [])) order
      → Taken es ids done (id ∷ order)
  unfolding member
  cons-Taken order there new t = record {
    all =
        subst
          (λ xs. (i : Bytes) → member i ids ≡ true → open_edges es xs i ≡ 0 → member i xs ≡ true)
          (append_assoc done (id ∷ []) order) t.all;
    known = λ i q. ground (arith, t.known i, eqb_iff id i);
    fresh = λ i q. ground (arith, t.fresh i, eqb_iff id i, member_last i id done);
    distinct = (ground (arith, t.fresh id, member_last id id done, eqb_refl id), t.distinct);
  }

  cons-TakenAll :
      (o : Option (List Bytes))
      → member id ids ≡ true
      → member id done ≡ false
      → TakenAll es ids (done ++ (id ∷ [])) o
      → TakenAll es ids done (elim o [ none ↦ none | some order ↦ some (id ∷ order) ])
  cons-TakenAll none there new t = tt
  cons-TakenAll (some order) there new t = cons-Taken order there new t

module _ (es : Edges) (ids : List Bytes)
    (sources : (d i : Bytes) → 0 < occurrences i (targets d es) → member i ids ≡ true) where
  relaxed-Awaits :
      (done : List Bytes) (id : Bytes) (queue : List Bytes) (m : Degrees)
      → Waits es done (id ∷ queue) m
      → Awaits es ids done (id ∷ queue)
      → Awaits es ids (done ++ (id ∷ [])) (queue ++ (relax (targets id es) m).1)
  unfolding member
  relaxed-Awaits done id queue m w a =
      let counts = before-Counts es done id queue m w in
      let more : Bytes → ℕ = open_edges es (done ++ (id ∷ [])) in
      let new = (relax (targets id es) m).1 in
      record {
        taken = λ i there closed. elim (positive_or_zero (occurrences i (targets id es))) [
          | inl had ↦
              let joined = relax-member more (targets id es) m counts i had closed in
              ground (arith, member_last i id done, member-append i queue new)
          | inr never ↦
              let before = a.taken i there (splits es done id queue m w i ∙ omega arith) in
              ground (arith, member_last i id done, member-append i queue new, before)
        ];
        known = λ i q. elim (Bool-cases (member i queue)) [
          | inl waits ↦ a.known i (ground arith)
          | inr e ↦
              sources id i
                ((relax-Queued more (targets id es) m counts).1 i
                  (ground (arith, member-append i queue new))).0
        ];
      }

  pub drain-Taken :
      (adj : List (Bytes × List Bytes))
      → ((i : Bytes) → dependents i adj ≡ targets i es)
      → (fuel : ℕ) (done queue : List Bytes) (m : Degrees) → Waits es done queue m
      → Awaits es ids done queue
      → TakenAll es ids done (drain fuel adj queue m)
  unfolding drain member
  drain-Taken adj graph fuel done [] m w a = record {
    all =
        subst
          (λ xs. (i : Bytes) → member i ids ≡ true → open_edges es xs i ≡ 0 → member i xs ≡ true)
          (sym (append-nil done)) (λ i there closed. ground (arith, a.taken i there closed));
    known = λ i q. ground arith;
    fresh = λ i q. ground arith;
    distinct = tt;
  }
  drain-Taken adj graph zero done (id ∷ queue) m w a = tt
  drain-Taken adj graph (suc fuel) done (id ∷ queue) m w a =
      subst
        (λ next.
          TakenAll es ids done (elim (drain fuel adj (queue ++ (relax next m).1) (relax next m).0) [
            | none ↦ none
            | some order ↦ some (id ∷ order)
          ]))
        (sym (graph id))
        (cons-TakenAll es ids done id _ (a.known id (ground (arith, eqb_refl id)))
          (head_fresh es done id queue m w)
          (drain-Taken adj graph fuel (done ++ (id ∷ [])) (queue ++ (relax (targets id es) m).1)
            (relax (targets id es) m).0 (relaxed-Waits es done id queue m w)
            (relaxed-Awaits done id queue m w a)))
