-- ===== src/Arazzo/Engine/Edges.antt =====
-- arazzo/engine.go: the dependencies that a workflow waits for while `topologicalSort` runs.
use libopenapi.Prelude.{
  ℕ, zero, suc, ◌+◌, ◌<◌, Bool, true, false, not, ◌&&◌, ◌||◌, List, [], ◌∷◌, ◌++◌, Bytes, eqb,
  eqb_iff, eqb_refl, member, Option, none, some, if◌then◌else◌, ◌≡◌, refl, sym, ap, ◌∙◌, arith, inl,
  inr, Bool-cases,
}
use mathlib.Core.Path.{subst}
use libopenapi.Prelude.Number.{ℤ, pos}
use libopenapi.Prelude.Dict.{lookup, insert, lookup-insert}
use libopenapi.Arazzo.Engine.Order.{Degrees, degree, decrement, is_zero, relax}

-- A dependency and the workflow that has it.
abbrev pub Edges : Type 0
Edges = List (Bytes × Bytes)

-- How many of a workflow's dependencies are not in `done`.
unfoldable pub open_edges : Edges → List Bytes → Bytes → ℕ
open_edges [] done id = 0
open_edges ((dep, i) ∷ es) done id =
    let n = open_edges es done id in if eqb i id && not (member dep done) then suc n else n

unfoldable pub targets : Bytes → Edges → List Bytes
targets dep [] = []
targets dep ((d, i) ∷ es) = let rest = targets dep es in if eqb dep d then i ∷ rest else rest

unfoldable pub occurrences : Bytes → List Bytes → ℕ
occurrences id [] = 0
occurrences id (i ∷ ids) = let n = occurrences id ids in if eqb i id then suc n else n

pub member-append :
    (i : Bytes) (xs ys : List Bytes) → member i (xs ++ ys) ≡ (member i xs || member i ys)
unfolding member
member-append i [] ys = refl
member-append i (x ∷ xs) ys = ground (arith, member-append i xs ys)

alone : (d p : Bytes) → member d (p ∷ []) ≡ eqb p d
unfolding member
alone d p = elim (Bool-cases (eqb p d)) [ inl e ↦ rw e refl | inr e ↦ rw e refl ]

pub member_last :
    (d p : Bytes) (done : List Bytes) → member d (done ++ (p ∷ [])) ≡ (member d done || eqb p d)
member_last d p done = member-append d done (p ∷ []) ∙ ap (λ b. member d done || b) (alone d p)

-- What is done for a first time closes the edges from it.
pub open_edges-append :
    (es : Edges) (done : List Bytes) (p id : Bytes)
    → member p done ≡ false
    → open_edges es done id ≡ occurrences id (targets p es) + open_edges es (done ++ (p ∷ [])) id
unfolding open_edges targets occurrences
open_edges-append [] done p id q = refl
open_edges-append ((d, i) ∷ es) done p id q =
    ground (arith, open_edges-append es done p id q, member_last d p done, eqb_iff p d)

abbrev or_zero : Option ℤ → ℤ
or_zero o = elim o [ none ↦ pos 0 | some n ↦ n ]

or_zero-if :
    (b : Bool) (v : ℤ) (o : Option ℤ)
    → or_zero (if b then some v else o) ≡ (if b then v else or_zero o)
or_zero-if true v o = refl
or_zero-if false v o = refl

pub degree-insert :
    (k j : Bytes) (v : ℤ) (m : Degrees)
    → degree j (insert k v m) ≡ (if eqb k j then v else degree j m)
degree-insert k j v m = ap or_zero (lookup-insert k j v m) ∙ or_zero-if (eqb k j) v (lookup j m)

-- The degrees are the occurrences that are to be relaxed, and `more`.
abbrev pub Counts : Degrees → (Bytes → ℕ) → Type 0
Counts m more = (i : Bytes) → degree i m ≡ pos (more i)

module _ (more : Bytes → ℕ) (j : Bytes) (ids : List Bytes) (m : Degrees) where
  pub next_degree :
      Counts m (λ i. occurrences i (j ∷ ids) + more i)
      → decrement (degree j m) ≡ pos (occurrences j ids + more j)
  unfolding occurrences
  next_degree h = ap decrement (h j ∙ ap pos one_less)
    where
      one_less : occurrences j (j ∷ ids) + more j ≡ suc (occurrences j ids + more j)
      one_less = ground (arith, eqb_refl j)

  unfoldable pub relaxed : Degrees
  relaxed = insert j (decrement (degree j m)) m

  pub relaxed-Counts :
      Counts m (λ i. occurrences i (j ∷ ids) + more i)
      → Counts relaxed (λ i. occurrences i ids + more i)
  unfolding occurrences relaxed
  relaxed-Counts h i = elim (Bool-cases (eqb j i)) [
    | inl e ↦
        degree-insert j i _ m
        ∙ ap (λ b. if b then decrement (degree j m) else degree i m) e
        ∙ next_degree h
        ∙ ap (λ k. pos (occurrences k ids + more k)) ((eqb_iff j i).0 e)
    | inr e ↦
        degree-insert j i _ m
        ∙ ap (λ b. if b then decrement (degree j m) else degree i m) e
        ∙ h i
        ∙ ap (λ b. pos ((if b then suc (occurrences i ids) else occurrences i ids) + more i)) e
  ]

-- `relax` takes the occurrences off.
pub relax-Counts :
    (more : Bytes → ℕ) (ids : List Bytes) (m : Degrees)
    → Counts m (λ i. occurrences i ids + more i)
    → Counts (relax ids m).0 more
unfolding relax occurrences relaxed
relax-Counts more [] m h = λ i. h i ∙ ap pos (omega arith)
relax-Counts more (j ∷ ids) m h =
    relax-Counts more ids (relaxed more j ids m) (relaxed-Counts more j ids m h)

-- No id twice.
abbrev pub IsDistinct : List Bytes → Type 0
IsDistinct [] = Unit
IsDistinct (x ∷ xs) = (member x xs ≡ false) × IsDistinct xs

-- What `relax` appends to the queue: ids without duplicates, that had an edge and have none now.
abbrev pub Queued : (Bytes → ℕ) → List Bytes → List Bytes → Type 0
Queued more ids new =
    IsDistinct new × ((i : Bytes) → member i new ≡ true → (0 < occurrences i ids) × (more i ≡ 0))

module _ (more : Bytes → ℕ) (j : Bytes) (ids new : List Bytes) where
  queued :
      (c : ℕ)
      → c ≡ occurrences j ids + more j
      → Queued more ids new
      → Queued more (j ∷ ids) (if is_zero (pos c) then j ∷ new else new)
  unfolding occurrences member
  queued (suc c) q (distinct, p) = (distinct, λ i s. let r = p i s in ground arith)
  queued zero q (distinct, p) = (
    (
      elim (Bool-cases (member j new)) [ inl s ↦ let r = p j s in ground arith | inr s ↦ s ],
      distinct,
    ),
    λ i s. elim (Bool-cases (eqb j i)) [
      | inl e ↦ (rw e (omega arith), ap more (sym ((eqb_iff j i).0 e)) ∙ omega arith)
      | inr e ↦
          let r = p i (sym (ap (λ b. if b then true else member i new) e) ∙ s) in (rw e r.0, r.1)
    ],
  )

pub relax-Queued :
    (more : Bytes → ℕ) (ids : List Bytes) (m : Degrees)
    → Counts m (λ i. occurrences i ids + more i)
    → Queued more ids (relax ids m).1
unfolding relax occurrences relaxed member
relax-Queued more [] m h = (tt, λ i q. ground arith)
relax-Queued more (j ∷ ids) m h =
    let next = relax-Queued more ids (relaxed more j ids m) (relaxed-Counts more j ids m h) in
    let new = (relax ids (relaxed more j ids m)).1 in
    subst (λ n. Queued more (j ∷ ids) (if is_zero n then j ∷ new else new))
      (sym (next_degree more j ids m h))
      (queued more j ids new (occurrences j ids + more j) refl next)
