-- ===== src/Files/Ramfs/Grow.antt =====
-- The doubling of a capacity ends exactly where 2 ^ 31 bytes are enough.
use native.Mathlib.Nat.{pow-suc, pow-le-pow_right}
use native.Mathlib.Decide.{dec_le}
use aevros.Base.{
  ℕ, zero, suc, ◌+◌, ◌*◌, ◌%◌, ◌^◌, ◌≤◌, ◌<◌, ◌≡◌, refl, ◌⊎◌, inl, inr, true, none, some, arith,
  ltb, Bool-cases,
}
use aevros.Files.Ramfs.{grow, rounds}

pow_31 : (k : ℕ) → 31 ≤ k → 2 ^ 31 ≤ 2 ^ k
pow_31 k h = pow-le-pow_right (omega arith) h

pow_less : (k : ℕ) → k ≤ 31 → 2 ^ k ≤ 2 ^ 31
pow_less k h = pow-le-pow_right (omega arith) h

-- One doubling below the last stays below 2 ^ 32.
double : (k : ℕ) → k < 31 → 2 ^ k * 2 % 2 ^ 32 ≡ 2 ^ suc k
double k h = omega (arith, pow-suc 2 k, pow_less (suc k) h)

pub grow_ends :
    (f k needed : ℕ)
    → needed ≤ 2 ^ 31
    → k ≤ 31
    → 31 < k + f
    → (j : ℕ) × (grow f (2 ^ k) needed ≡ some (2 ^ j)) × (needed ≤ 2 ^ j) × (j ≤ 31)
unfolding grow
grow_ends zero k needed h low enough = absurd (omega arith)
grow_ends (suc f) k needed h low enough = elim (Bool-cases (ltb (2 ^ k) needed)) [
  | inr stop ↦ (k, rw stop refl, ground (arith, stop), low)
  | inl more ↦ elim (dec_le 31 k) [
    | yes high ↦ absurd (ground (arith, more, pow_31 k high))
    | no below ↦
        let small : k < 31 = omega (arith, below) in
        let (j, ends, fits, bound) = grow_ends f (suc k) needed h small (omega (arith, enough)) in
        (j, rw (more, double k small) ends, fits, bound)
  ]
]

stuck_at_0 : (f needed : ℕ) → 0 < needed → grow f 0 needed ≡ none
unfolding grow
stuck_at_0 zero needed h = refl
stuck_at_0 (suc f) needed h = ground (arith, stuck_at_0 f needed h)

pub grow-never : (f k needed : ℕ) → 2 ^ 31 < needed → k ≤ 31 → grow f (2 ^ k) needed ≡ none
unfolding grow
grow-never zero k needed h low = refl
grow-never (suc f) k needed h low =
    let more : ltb (2 ^ k) needed ≡ true = ground (arith, h, pow_less k low) in
    elim (dec_le 31 k) [
      | yes high ↦
          let wraps : 2 ^ k * 2 % 2 ^ 32 ≡ 0 = omega (arith, pow_31 k high, pow_less k low) in
          rw (more, wraps) (stuck_at_0 f needed (omega (arith, h)))
      | no below ↦
          let small : k < 31 = omega (arith, below) in
          rw (more, double k small) (grow-never f (suc k) needed h small)
    ]

-- From a capacity 2 ^ k that fits 32 bits: for at most 2 ^ 31 bytes the 33 rounds suffice, and give a
-- power of two that holds them; for more bytes no number of rounds is enough, since the capacity
-- wraps around to 0 and stays there.
pub grow-total :
    (k needed : ℕ)
    → k ≤ 31
    → ((needed ≤ 2 ^ 31)
        × ((j : ℕ) × (grow rounds (2 ^ k) needed ≡ some (2 ^ j)) × (needed ≤ 2 ^ j)))
      ⊎ ((2 ^ 31 < needed) × ((f : ℕ) → grow f (2 ^ k) needed ≡ none))
grow-total k needed low = elim (dec_le needed (2 ^ 31)) [
  | yes h ↦
      let (j, ends, fits, bound) = grow_ends 33 k needed h low (omega arith) in
      inl (h, (j, ends, fits))
  | no h ↦
      let much : 2 ^ 31 < needed = omega (arith, h) in
      inr (much, λ f. grow-never f k needed much low)
]
