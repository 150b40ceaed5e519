-- ===== src/Networking/Compass/Checksum.antt =====
-- `checksum_ok` against the ones' complement sum of RFC 791.
use native.Mathlib.Decide.{dec_lt}
use aevros.Base.{
  ℕ, zero, suc, ◌+◌, ◌*◌, ◌/◌, ◌%◌, ◌^◌, ◌<◌, ◌≤◌, ◌≡◌, refl, ◌⊎◌, inl, inr, Bool, true, false, not,
  ◌&&◌, List, [], ◌∷◌, arith, ltb, ◌==◌, length, add32, All,
}
use aevros.Networking.Compass.{sum_words, fold, checksum_ok}

abbrev pub AreBytes : List ℕ → Type 0
AreBytes l = All (λ b. b < 256) l

-- The same as a test.
unfoldable pub are_bytes : List ℕ → Bool
are_bytes [] = true
are_bytes (b ∷ l) = ltb b 256 && are_bytes l

pub are_bytes-AreBytes : (l : List ℕ) → are_bytes l ≡ true → AreBytes l
unfolding are_bytes
are_bytes-AreBytes [] h = tt
are_bytes-AreBytes (b ∷ l) h = (ground (arith, h), are_bytes-AreBytes l (ground (arith, h)))

-- The sum of the 16-bit words, without a bound.
pub total : List ℕ → ℕ
total [] = 0
total (a ∷ []) = a * 256
total (a ∷ b ∷ rest) = a * 256 + b + total rest

total-bound : (l : List ℕ) → AreBytes l → total l ≤ 65535 * length l
unfolding total
total-bound [] h = omega arith
total-bound (a ∷ []) (ha, _) = omega arith
total-bound (a ∷ b ∷ rest) (ha, (hb, h)) = omega (arith, total-bound rest h)

sum_words-total :
    (l : List ℕ) (sum : ℕ)
    → AreBytes l
    → sum + 65535 * length l < 2 ^ 32
    → sum_words l sum ≡ sum + total l
unfolding sum_words total
sum_words-total [] sum h small = omega arith
sum_words-total (a ∷ []) sum (ha, _) small = omega arith
sum_words-total (a ∷ b ∷ rest) sum (ha, (hb, h)) small =
    let e : add32 sum (a * 256 + b) ≡ sum + (a * 256 + b) = omega arith in
    rw e (omega (arith, sum_words-total rest (sum + (a * 256 + b)) h (omega arith)))

fold-end : (fuel sum : ℕ) → sum < 65536 → fold fuel sum ≡ sum
unfolding fold
fold-end zero sum h = refl
fold-end (suc fuel) sum h = let e : (sum / 65536 == 0) ≡ true = ground arith in rw e refl

fold-step :
    (fuel sum : ℕ) → 65536 ≤ sum → fold (suc fuel) sum ≡ fold fuel (sum % 65536 + sum / 65536)
unfolding fold
fold-step fuel sum h = let e : (sum / 65536 == 0) ≡ false = ground arith in rw e refl

-- The loop ends with a 16-bit value that has the same remainder, and is 0 only for the sum 0.
record Folded (sum r : ℕ) : Type 0 where
  small : r < 65536
  same : r % 65535 ≡ sum % 65535
  zeros : (r ≡ 0) ⊎ (0 < sum)
  zeros_back : (sum ≡ 0) ⊎ (0 < r)

next_round : (sum r : ℕ) → 65536 ≤ sum → Folded (sum % 65536 + sum / 65536) r → Folded sum r
next_round sum r big f = record {
  small = f.small;
  same = omega (arith, f.same);
  zeros = inr (omega arith);
  zeros_back = elim f.zeros_back [ inl z ↦ absurd (omega (arith, z)) | inr p ↦ inr p ];
}

last_round : (fuel sum : ℕ) → sum < 65536 → Folded sum (fold fuel sum)
last_round fuel sum h =
    rw (fold-end fuel sum h)
      (record { small = h; same = refl; zeros = ground arith; zeros_back = ground arith })

second_round : (fuel sum : ℕ) → sum ≤ 65536 → Folded sum (fold (suc fuel) sum)
second_round fuel sum h = elim (dec_lt sum 65536) [
  | yes end ↦ last_round (suc fuel) sum end
  | no more ↦ rw (fold-step fuel sum (omega arith)) (
      next_round sum (fold fuel (sum % 65536 + sum / 65536)) (omega arith)
        (last_round fuel (sum % 65536 + sum / 65536) (omega arith)))
]

first_round : (fuel sum : ℕ) → sum < 131071 → Folded sum (fold (suc (suc fuel)) sum)
first_round fuel sum h = elim (dec_lt sum 65536) [
  | yes end ↦ last_round (suc (suc fuel)) sum end
  | no more ↦ rw (fold-step (suc fuel) sum (omega arith)) (
      next_round sum (fold (suc fuel) (sum % 65536 + sum / 65536)) (omega arith)
        (second_round fuel (sum % 65536 + sum / 65536) (omega arith)))
]

fold-Folded : (sum : ℕ) → sum < 2 ^ 32 → Folded sum (fold 3 sum)
fold-Folded sum h = elim (dec_lt sum 65536) [
  | yes end ↦ last_round 3 sum end
  | no more ↦ rw (fold-step 2 sum (omega arith)) (
      next_round sum (fold 2 (sum % 65536 + sum / 65536)) (omega arith)
        (first_round 0 (sum % 65536 + sum / 65536) (omega arith)))
]

-- `checksum_ok` holds exactly when the words of the header sum to a multiple of 65535 that is not
-- 0, for a header of fewer than 65536 bytes.
pub checksum_ok-total :
    (header : List ℕ)
    → AreBytes header
    → length header < 65536
    → checksum_ok header ≡ (total header % 65535 == 0 && not (total header == 0))
unfolding checksum_ok
checksum_ok-total header bytes short =
    let e = sum_words-total header 0 bytes (omega arith) in
    let f = fold-Folded (total header) (omega (arith, total-bound header bytes)) in
    let e' : sum_words header 0 ≡ total header = omega (arith, e) in
    rw e' (ground (arith, f.small, f.same, f.zeros, f.zeros_back))
