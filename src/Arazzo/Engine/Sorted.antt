-- ===== src/Arazzo/Engine/Sorted.antt =====
-- arazzo/engine.go: the queue and the degrees between the rounds of the last loop of
-- `topologicalSort`.
use libopenapi.Prelude.{
  ℕ, zero, suc, ◌+◌, Bool, true, false, ◌||◌, List, [], ◌∷◌, ◌++◌, Bytes, eqb, eqb_iff, eqb_refl,
  member, Option, none, some, if◌then◌else◌, ◌≡◌, refl, sym, ap, ◌∙◌, arith, inl, inr, ◌⊎◌,
  Bool-cases,
}
use mathlib.Core.Path.{subst}
use libopenapi.Prelude.Number.{pos}
use libopenapi.Arazzo.Engine.Order.{Degrees, dependents, relax, drain}
use libopenapi.Arazzo.Engine.Edges.{
  Edges, open_edges, targets, occurrences, member-append, member_last, open_edges-append, Counts,
  relax-Counts, IsDistinct, Queued, relax-Queued,
}

-- No workflow of the order has an open dependency when its turn comes.
abbrev pub Follows : Edges → List Bytes → List Bytes → Type 0
Follows es done [] = Unit
Follows es done (id ∷ order) = (open_edges es done id ≡ 0) × Follows es (done ++ (id ∷ [])) order

-- The queue between the rounds: each id waits once, is not done and has no open dependency, and the
-- degrees count the open dependencies.
pub record Waits (es : Edges) (done queue : List Bytes) (m : Degrees) : Type 0 where
  pub counts : Counts m (open_edges es done)
  pub distinct : IsDistinct queue
  pub fresh : (i : Bytes) → member i queue ≡ true → member i done ≡ false
  pub settled : (i : Bytes) → member i queue ≡ true → open_edges es done i ≡ 0
  pub closed : (i : Bytes) → member i done ≡ true → open_edges es done i ≡ 0

neither : (a b : Bool) → a ≡ false → b ≡ false → (a || b) ≡ false
neither a b p q = ground arith

later : (a b : Bool) → b ≡ true → (if a then true else b) ≡ true
later a b q = ground arith

either : (a b : Bool) → (a || b) ≡ true → (a ≡ true) ⊎ (b ≡ true)
either true b q = inl refl
either false b q = inr q

pub IsDistinct-append :
    (xs ys : List Bytes)
    → IsDistinct xs
    → IsDistinct ys
    → ((i : Bytes) → member i xs ≡ true → member i ys ≡ false)
    → IsDistinct (xs ++ ys)
unfolding member
IsDistinct-append [] ys p q h = q
IsDistinct-append (x ∷ xs) ys (a, p) q h = (
  member-append x xs ys
      ∙ neither (member x xs) (member x ys) a
          (h x (ap (λ b. if b then true else member x xs) (eqb_refl x))),
  IsDistinct-append xs ys p q (λ i s. h i (later (eqb x i) (member i xs) s)),
)

module _ (es : Edges) (done : List Bytes) (id : Bytes) (queue : List Bytes) (m : Degrees)
    (w : Waits es done (id ∷ queue) m) where
  abbrev after : Bytes → ℕ
  after = open_edges es (done ++ (id ∷ []))

  abbrev ids : List Bytes
  ids = targets id es

  pub head_fresh : member id done ≡ false
  unfolding member
  head_fresh = w.fresh id (ap (λ b. if b then true else member id queue) (eqb_refl id))

  head_ready : open_edges es done id ≡ 0
  unfolding member
  head_ready = w.settled id (ap (λ b. if b then true else member id queue) (eqb_refl id))

  pub splits : (i : Bytes) → open_edges es done i ≡ occurrences i ids + after i
  splits i = open_edges-append es done id i head_fresh

  pub before-Counts : Counts m (λ i. occurrences i ids + after i)
  before-Counts i = w.counts i ∙ ap pos (splits i)

  still_closed : (i : Bytes) → open_edges es done i ≡ 0 → after i ≡ 0
  still_closed i q = let s = splits i in omega arith

  in_queue : (i : Bytes) → member i queue ≡ true → member i (id ∷ queue) ≡ true
  unfolding member
  in_queue i q = ground arith

  abbrev new : List Bytes
  new = (relax ids m).1

  new-Queued : Queued after ids new
  new-Queued = relax-Queued after ids m before-Counts

  in_queue_or_new :
      (i : Bytes) → member i (queue ++ new) ≡ true → (member i queue ≡ true) ⊎ (member i new ≡ true)
  in_queue_or_new i q = either (member i queue) (member i new) (sym (member-append i queue new) ∙ q)

  not_head : (i : Bytes) → member i queue ≡ true → eqb id i ≡ false
  not_head i q = elim (Bool-cases (eqb id i)) [
    | inl e ↦
        absurd (apart (sym q ∙ ap (λ j. member j queue) (sym ((eqb_iff id i).0 e)) ∙ w.distinct.0))
    | inr e ↦ e
  ]
    where
      apart : ¬ (true ≡ false)
      apart e = ground arith

  queued_open : (i : Bytes) → member i new ≡ true → ¬ (open_edges es done i ≡ 0)
  queued_open i q r = let (a, b) = new-Queued.1 i q in let s = splits i in omega arith

  new_fresh : (i : Bytes) → member i new ≡ true → member i (done ++ (id ∷ [])) ≡ false
  new_fresh i q = member_last i id done ∙ neither (member i done) (eqb id i) not_done not_id
    where
      not_done : member i done ≡ false
      not_done = elim (Bool-cases (member i done)) [
        | inl e ↦ absurd (queued_open i q (w.closed i e))
        | inr e ↦ e
      ]

      not_id : eqb id i ≡ false
      not_id = elim (Bool-cases (eqb id i)) [
        | inl e ↦
            absurd
              (queued_open i q (ap (open_edges es done) (sym ((eqb_iff id i).0 e)) ∙ head_ready))
        | inr e ↦ e
      ]

  queue_fresh : (i : Bytes) → member i queue ≡ true → member i (done ++ (id ∷ [])) ≡ false
  queue_fresh i q =
      member_last i id done
      ∙ neither (member i done) (eqb id i) (w.fresh i (in_queue i q)) (not_head i q)

  apart_new : (i : Bytes) → member i queue ≡ true → member i new ≡ false
  apart_new i q = elim (Bool-cases (member i new)) [
    | inl e ↦ absurd (queued_open i e (w.settled i (in_queue i q)))
    | inr e ↦ e
  ]

  pub relaxed-Waits : Waits es (done ++ (id ∷ [])) (queue ++ new) (relax ids m).0
  relaxed-Waits = record {
    counts = relax-Counts after ids m before-Counts;
    distinct = IsDistinct-append queue new w.distinct.1 new-Queued.0 apart_new;
    fresh = λ i q. elim (in_queue_or_new i q) [ inl a ↦ queue_fresh i a | inr a ↦ new_fresh i a ];
    settled = λ i q. elim (in_queue_or_new i q) [
      | inl a ↦ still_closed i (w.settled i (in_queue i a))
      | inr a ↦ (new-Queued.1 i a).1
    ];
    closed = λ i q.
        still_closed i (elim (either (member i done) (eqb id i) (sym (member_last i id done) ∙ q)) [
          | inl a ↦ w.closed i a
          | inr a ↦ ap (open_edges es done) (sym ((eqb_iff id i).0 a)) ∙ head_ready
        ]);
  }

-- The order of a run of the loop that ends.
abbrev pub FollowsAll : Edges → List Bytes → Option (List Bytes) → Type 0
FollowsAll es done none = Unit
FollowsAll es done (some order) = Follows es done order

FollowsAll-cons :
    (es : Edges) (done : List Bytes) (id : Bytes) (o : Option (List Bytes))
    → open_edges es done id ≡ 0
    → FollowsAll es (done ++ (id ∷ [])) o
    → FollowsAll es done (elim o [ none ↦ none | some order ↦ some (id ∷ order) ])
FollowsAll-cons es done id none q f = tt
FollowsAll-cons es done id (some order) q f = (q, f)

pub drain-Follows :
    (es : Edges) (adj : List (Bytes × List Bytes))
    → ((i : Bytes) → dependents i adj ≡ targets i es)
    → (fuel : ℕ) (done queue : List Bytes) (m : Degrees) → Waits es done queue m
    → FollowsAll es done (drain fuel adj queue m)
unfolding drain
drain-Follows es adj graph fuel done [] m w = tt
drain-Follows es adj graph zero done (id ∷ queue) m w = tt
drain-Follows es adj graph (suc fuel) done (id ∷ queue) m w =
    subst
      (λ ids. FollowsAll es done (elim (drain fuel adj (queue ++ (relax ids m).1) (relax ids m).0) [
        | none ↦ none
        | some order ↦ some (id ∷ order)
      ]))
      (sym (graph id))
      (FollowsAll-cons es done id _ (head_ready es done id queue m w) (
        drain-Follows es adj graph fuel (done ++ (id ∷ [])) (queue ++ (relax (targets id es) m).1)
          (relax (targets id es) m).0 (relaxed-Waits es done id queue m w)))
