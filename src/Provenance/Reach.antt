-- ===== src/Provenance/Reach.antt =====
-- Which records a trace is to find, and the steps of its two loops.
use aevros.Base.{
  ℕ, zero, suc, ◌<◌, ◌≤◌, ◌≡◌, refl, sym, ap₂, ◌⊎◌, inl, inr, Bool, true, false, ◌&&◌, List, [],
  ◌∷◌, ◌++◌, ltb, length, arith, List-cases, All, All-mono, subst,
}
use aevros.Provenance.{Entity, Record, Walk, entity_equal, from_of, next_of, follow, visit, walk}

-- The record is one of the list.
abbrev pub In : Record → List Record → Type 0
In r [] = ⊥
In r (x ∷ l) = (r ≡ x) ⊎ In r l

-- The entities that a chain of valid records links with the start.
pub data Reach (forward : Bool) (rs : List Record) (start : Entity) : Entity → Type 0 where
  here : Reach forward rs start start
  onward :
      (r : Record)
      → In r rs
      → r.valid ≡ true
      → Reach forward rs start (from_of forward r)
      → Reach forward rs start (next_of forward r)

pub entity_equal→eq : (a b : Entity) → entity_equal a b ≡ true → a ≡ b
unfolding entity_equal
entity_equal→eq a b h =
    let t : a.type ≡ b.type = ground (arith, h) in
    let i : a.id ≡ b.id = ground (arith, h) in ap₂ (λ t i. record { type = t; id = i }) t i

pub All-append : {A : Type 0} → (P : A → Type 0) (l m : List A) → All P l → All P m → All P (l ++ m)
All-append P [] m a b = b
All-append P (x ∷ l) m (h, a) b = (h, All-append P l m a b)

pub All-lookup : (P : Record → Type 0) (l : List Record) (r : Record) → All P l → In r l → P r
All-lookup P [] r a h = absurd h
All-lookup P (x ∷ l) r (p, a) (inl e) = subst P (sym e) p
All-lookup P (x ∷ l) r (p, a) (inr h) = All-lookup P l r a h

pub All-In : (l : List Record) → All (λ r. In r l) l
All-In [] = tt
All-In (x ∷ l) = (inl refl, All-mono (λ r. In r l) (λ r. In r (x ∷ l)) l (λ r h. inr h) (All-In l))

pub visit-limit :
    (forward : Bool) (max : ℕ) (e : Entity) (l : List Record) (w : Walk)
    → max ≤ length w.results
    → visit forward max e l w ≡ w
unfolding visit
visit-limit forward max e [] w h = refl
visit-limit forward max e (r ∷ l) w h = ground (arith, h)

abbrev pub leaves : Bool → Entity → Record → Bool
leaves forward e r = r.valid && entity_equal (from_of forward r) e

pub visit-leaves :
    (forward : Bool) (max : ℕ) (e : Entity) (r : Record) (l : List Record) (w : Walk)
    → length w.results < max
    → leaves forward e r ≡ true
    → visit forward max e (r ∷ l) w ≡ visit forward max e l (follow forward r w)
unfolding visit
visit-leaves forward max e r l w room h =
    let in_room : ltb (length w.results) max ≡ true = ground (arith, room) in rw (in_room, h) refl

pub visit-passes :
    (forward : Bool) (max : ℕ) (e : Entity) (r : Record) (l : List Record) (w : Walk)
    → length w.results < max
    → leaves forward e r ≡ false
    → visit forward max e (r ∷ l) w ≡ visit forward max e l w
unfolding visit
visit-passes forward max e r l w room h =
    let in_room : ltb (length w.results) max ≡ true = ground (arith, room) in rw (in_room, h) refl

pub walk-limit :
    (fuel : ℕ) (forward : Bool) (max : ℕ) (copied : List Record) (w : Walk)
    → max ≤ length w.results
    → walk fuel forward max copied w ≡ w
unfolding walk
walk-limit zero forward max copied w h = refl
walk-limit (suc fuel) forward max copied w h = elim (List-cases w.queue) [
  | inl e ↦ rw e refl
  | inr (x, rest, e) ↦
      let full : ltb (length w.results) max ≡ false = ground (arith, h) in rw (e, full) refl
]

pub walk-done :
    (fuel : ℕ) (forward : Bool) (max : ℕ) (copied : List Record) (w : Walk)
    → w.queue ≡ []
    → walk fuel forward max copied w ≡ w
unfolding walk
walk-done zero forward max copied w e = refl
walk-done (suc fuel) forward max copied w e = rw e refl

pub walk-round :
    (fuel : ℕ) (forward : Bool) (max : ℕ) (copied : List Record) (w : Walk) (e : Entity)
    (rest : List Entity)
    → length w.results < max
    → w.queue ≡ e ∷ rest
    → walk (suc fuel) forward max copied w
      ≡ walk fuel forward max copied (visit forward max e copied (record w { queue = rest }))
unfolding walk
walk-round fuel forward max copied w e rest room q =
    let in_room : ltb (length w.results) max ≡ true = ground (arith, room) in rw (q, in_room) refl
