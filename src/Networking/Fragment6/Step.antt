-- ===== src/Networking/Fragment6/Step.antt =====
-- What one fragment of a packet does to its slot.
use native.Mathlib.Decide.{dec_lt}
use aevros.Base.{
  ℕ, zero, suc, ◌+◌, ◌-◌, ◌≤◌, ◌<◌, ◌≡◌, ◌⊎◌, refl, sym, ◌∙◌, ap, ap₂, subst, inl, inr, Bool, true,
  List, [], ◌∷◌, ◌++◌, arith, set, take, drop, length, length-append, length-take, length-drop,
}
use aevros.Networking.Fragment6.{byte, bit_test, set_range, all_set, overwrite}

get_or-append_in : (i : ℕ) (xs ys : List ℕ) → i < length xs → byte i (xs ++ ys) ≡ byte i xs
get_or-append_in i [] ys h = absurd (omega arith)
get_or-append_in zero (x ∷ xs) ys h = refl
get_or-append_in (suc i) (x ∷ xs) ys h = get_or-append_in i xs ys (omega arith)

get_or-append_past :
    (i : ℕ) (xs ys : List ℕ) → length xs ≤ i → byte i (xs ++ ys) ≡ byte (i - length xs) ys
get_or-append_past i [] ys h = ap (λ k. byte k ys) (omega arith)
get_or-append_past zero (x ∷ xs) ys h = absurd (omega arith)
get_or-append_past (suc i) (x ∷ xs) ys h =
    get_or-append_past i xs ys (omega arith) ∙ ap (λ k. byte k ys) (omega arith)

pub byte-take : (i n : ℕ) (xs : List ℕ) → i < n → byte i (take n xs) ≡ byte i xs
byte-take i zero xs h = absurd (omega arith)
byte-take i (suc n) [] h = refl
byte-take zero (suc n) (x ∷ xs) h = refl
byte-take (suc i) (suc n) (x ∷ xs) h = byte-take i n xs (omega arith)

pub byte-drop : (i n : ℕ) (xs : List ℕ) → byte i (drop n xs) ≡ byte (n + i) xs
byte-drop i zero xs = ap (λ k. byte k xs) (omega arith)
byte-drop i (suc n) [] = refl
byte-drop i (suc n) (x ∷ xs) =
    byte-drop i n xs
    ∙ sym (ap (λ k. byte k (x ∷ xs)) (let e : suc n + i ≡ suc (n + i) = omega arith in e))

-- The bytes that are written, and the others.
module _ (o : ℕ) (d buf : List ℕ) (room : o + length d ≤ length buf) where
  long : length (take o buf) ≡ o
  long = length-take o buf ∙ omega (arith, room)

  pub byte-overwrite_in :
      (i : ℕ) → o ≤ i → i < o + length d → byte i (overwrite o d buf) ≡ byte (i - o) d
  byte-overwrite_in i low high =
      get_or-append_past i (take o buf) (d ++ drop (o + length d) buf) (omega (arith, long, low))
      ∙ ap (λ k. byte (i - k) (d ++ drop (o + length d) buf)) long
      ∙ get_or-append_in (i - o) d (drop (o + length d) buf) (omega arith)

  pub byte-overwrite_out :
      (i : ℕ) → (i < o) ⊎ (o + length d ≤ i) → byte i (overwrite o d buf) ≡ byte i buf
  byte-overwrite_out i (inl low) =
      get_or-append_in i (take o buf) (d ++ drop (o + length d) buf) (omega (arith, long, low))
      ∙ byte-take i o buf low
  byte-overwrite_out i (inr high) =
      get_or-append_past i (take o buf) (d ++ drop (o + length d) buf) (omega (arith, long, high))
      ∙ ap (λ k. byte (i - k) (d ++ drop (o + length d) buf)) long
      ∙ get_or-append_past (i - o) d (drop (o + length d) buf) (omega (arith, high))
      ∙ byte-drop (i - o - length d) (o + length d) buf
      ∙ ap (λ k. byte k buf) (omega (arith, high))

  pub length-overwrite : length (overwrite o d buf) ≡ length buf
  length-overwrite =
      length-append (take o buf) (d ++ drop (o + length d) buf)
      ∙ omega (
        arith,
        long,
        length-append d (drop (o + length d) buf),
        length-drop (o + length d) buf,
        room,
      )

bit-set :
    (bm : List Bool) (i u : ℕ)
    → bit_test (set bm i true) u ≡ true
    → (bit_test bm u ≡ true) ⊎ (u ≡ i)
bit-set [] i u h = inl h
bit-set (b ∷ bm) zero zero h = inr refl
bit-set (b ∷ bm) zero (suc u) h = inl h
bit-set (b ∷ bm) (suc i) zero h = inl h
bit-set (b ∷ bm) (suc i) (suc u) h = elim (bit-set bm i u h) [
  | inl k ↦ inl k
  | inr e ↦ inr (ap suc e)
]

pub bit-set_range :
    (bm : List Bool) (start n u : ℕ)
    → bit_test (set_range bm start n) u ≡ true
    → (bit_test bm u ≡ true) ⊎ ((start ≤ u) × (u < start + n))
unfolding set_range
bit-set_range bm start zero u h = inl h
bit-set_range bm start (suc n) u h = elim (bit-set_range (set bm start true) (start + 1) n u h) [
  | inr (low, high) ↦ inr (omega arith, omega arith)
  | inl old ↦ elim (bit-set bm start u old) [
    | inl k ↦ inl k
    | inr e ↦ inr (omega (arith, e), omega (arith, e))
  ]
]

pub all_set-bit :
    (bm : List Bool) (start n u : ℕ)
    → all_set bm start n ≡ true
    → start ≤ u
    → u < start + n
    → bit_test bm u ≡ true
unfolding all_set
all_set-bit bm start zero u h low high = absurd (omega arith)
all_set-bit bm start (suc n) u h low high = elim (dec_lt start u) [
  | yes past ↦
      all_set-bit bm (start + 1) n u (ground (arith, h)) (omega arith) (omega (arith, high))
  | no here ↦
      let at : start ≡ u = omega (arith, here, low) in
      subst (λ x. bit_test bm x ≡ true) at (ground (arith, h))
]

pub same_bytes :
    (p buf : List ℕ)
    → length p ≤ length buf
    → ((i : ℕ) → i < length p → byte i buf ≡ byte i p)
    → take (length p) buf ≡ p
same_bytes [] buf h k = refl
same_bytes (x ∷ p) [] h k = absurd (omega arith)
same_bytes (x ∷ p) (b ∷ buf) h k =
    ap₂ (λ (a : ℕ) (l : List ℕ). a ∷ l) (k 0 (omega arith))
      (same_bytes p buf (omega arith) (λ i low. k (suc i) (omega (arith, low))))
