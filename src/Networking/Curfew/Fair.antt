-- ===== src/Networking/Curfew/Fair.antt =====
-- Whom `curfew_check` refuses.
use aevros.Base.{
  ℕ, zero, suc, ◌+◌, ◌^◌, ◌<◌, ◌≤◌, ◌≡◌, refl, sym, ◌⊎◌, inl, inr, true, none, some, List, [], ◌∷◌,
  ltb, leb, sub32, update_at, length, arith, All, All-update_at, All-mono, update_at-update_at,
  All-replicate, Bool-cases, update_at, subst,
}
use aevros.Networking.Curfew.{
  State, Entry, Ticks, Slot, there, fresh, no_slot, blank, zeroed, scan, find_or_create,
  roll_window, check_at, check, strike_at, strike, opened, touch, counted, punish, is_over,
}

-- The entry is denied exactly when it has 150 strikes or more, and has no more than `n`.
pub record IsFair (n : ℕ) (e : Entry) : Type 0 where
  pub denied : e.denied ≡ leb 150 e.count
  pub few : e.count ≤ n

pub data Call : Type 0 where
  checks : List ℕ → Ticks → Call
  strikes : List ℕ → Ticks → Call

unfoldable pub step : State → Call → State
step s (checks ip t) = (check ip t s).1
step s (strikes ip t) = strike ip t s

unfoldable pub run : State → List Call → State
run s [] = s
run s (c ∷ cs) = run (step s c) cs

abbrev pub AllFair : ℕ → State → Type 0
AllFair n s = All (IsFair n) s.entries

touch-IsFair : (n now : ℕ) (e : Entry) → IsFair n e → IsFair n (touch now e)
unfolding roll_window
touch-IsFair n now e f = elim (Bool-cases (ltb 200 (sub32 now e.window_start))) [
  | inl late ↦ rw late (record { denied = refl; few = omega arith })
  | inr soon ↦ rw soon (record { denied = f.denied; few = f.few })
]

-- One more strike.
punish-IsFair :
    (n : ℕ) (e : Entry) → IsFair n e → n + 1 < 2 ^ 32 → IsFair (n + 1) (punish (counted e))
unfolding punish
punish-IsFair n e f small = elim (Bool-cases (is_over (counted e))) [
  | inl over ↦ rw over (record { denied = ground (arith, over); few = omega (arith, f.few) })
  | inr under ↦
      rw under
        (record { denied = ground (arith, under, f.denied, f.few); few = omega (arith, f.few) })
]

grow : (n : ℕ) (es : List Entry) → All (IsFair n) es → All (IsFair (n + 1)) es
grow n es a =
    All-mono (IsFair n) (IsFair (n + 1)) es
      (λ e f. record { denied = f.denied; few = omega (arith, f.few) }) a

opened-IsFair : (n : ℕ) (ip : List ℕ) (t : Ticks) → IsFair n (opened ip t)
opened-IsFair n ip t = record { denied = refl; few = omega arith }

pub Slot-cases : (t : Slot) → ((i : ℕ) × (t ≡ there i)) ⊎ ((i : ℕ) × (t ≡ fresh i)) ⊎ (t ≡ no_slot)
Slot-cases (there i) = inl (i, refl)
Slot-cases (fresh i) = inr (inl (i, refl))
Slot-cases no_slot = inr (inr refl)

pub find_or_create-there :
    (ip : List ℕ) (t : Ticks) (s : State) (i : ℕ)
    → scan ip 0 none none s.entries ≡ there i
    → find_or_create ip t s ≡ (some i, s)
unfolding find_or_create
find_or_create-there ip t s i e = ground (arith, e)

pub find_or_create-fresh :
    (ip : List ℕ) (t : Ticks) (s : State) (i : ℕ)
    → scan ip 0 none none s.entries ≡ fresh i
    → find_or_create ip t s
      ≡ (some i, record s { entries = update_at i (λ _. opened ip t) s.entries })
unfolding find_or_create
find_or_create-fresh ip t s i e = ground (arith, e)

pub find_or_create-none :
    (ip : List ℕ) (t : Ticks) (s : State)
    → scan ip 0 none none s.entries ≡ no_slot
    → find_or_create ip t s ≡ (none, s)
unfolding find_or_create
find_or_create-none ip t s e = ground (arith, e)

pub check-some :
    (ip : List ℕ) (t : Ticks) (s s' : State) (i : ℕ)
    → find_or_create ip t s ≡ (some i, s')
    → check ip t s ≡ check_at t.now i s'
unfolding check
check-some ip t s s' i e = ground (arith, e)

pub check-none :
    (ip : List ℕ) (t : Ticks) (s s' : State)
    → find_or_create ip t s ≡ (none, s')
    → check ip t s ≡ (true, s')
unfolding check
check-none ip t s s' e = ground (arith, e)

strike-some :
    (ip : List ℕ) (t : Ticks) (s s' : State) (i : ℕ)
    → find_or_create ip t s ≡ (some i, s')
    → strike ip t s ≡ strike_at t.now i s'
unfolding strike
strike-some ip t s s' i e = ground (arith, e)

strike-none :
    (ip : List ℕ) (t : Ticks) (s s' : State)
    → find_or_create ip t s ≡ (none, s')
    → strike ip t s ≡ s'
unfolding strike
strike-none ip t s s' e = ground (arith, e)

-- The entry that a call goes on with, if there is one, in a state that is fair still.
find_or_create-Fair :
    (n : ℕ) (ip : List ℕ) (t : Ticks) (s : State)
    → AllFair n s
    → (s' : State) × AllFair n s'
      × ((find_or_create ip t s ≡ (none, s')) ⊎ ((i : ℕ) × (find_or_create ip t s ≡ (some i, s'))))
find_or_create-Fair n ip t s a = elim (Slot-cases (scan ip 0 none none s.entries)) [
  | inl (i, e) ↦ (s, a, inr (i, find_or_create-there ip t s i e))
  | inr (inl (i, e)) ↦ (
    record s { entries = update_at i (λ _. opened ip t) s.entries },
    All-update_at (IsFair n) i (λ _. opened ip t) s.entries (λ x h f. opened-IsFair n ip t) a,
    inr (i, find_or_create-fresh ip t s i e),
  )
  | inr (inr e) ↦ (s, a, inl (find_or_create-none ip t s e))
]

check_at-Fair : (n now i : ℕ) (s : State) → AllFair n s → AllFair n (check_at now i s).1
unfolding check_at
check_at-Fair n now i s a =
    All-update_at (IsFair n) i (touch now) s.entries (λ e h f. touch-IsFair n now e f) a

struck-Fair :
    (n now i : ℕ) (es : List Entry)
    → All (IsFair n) es
    → n + 1 < 2 ^ 32
    → All (IsFair (n + 1)) (update_at i (λ e. punish (counted (touch now e))) es)
struck-Fair n now zero [] a small = tt
struck-Fair n now (suc i) [] a small = tt
struck-Fair n now zero (e ∷ es) (f, a) small =
    (punish-IsFair n (touch now e) (touch-IsFair n now e f) small, grow n es a)
struck-Fair n now (suc i) (e ∷ es) (f, a) small =
    (record { denied = f.denied; few = omega (arith, f.few) }, struck-Fair n now i es a small)

strike_at-Fair :
    (n now i : ℕ) (s : State) → AllFair n s → n + 1 < 2 ^ 32 → AllFair (n + 1) (strike_at now i s)
unfolding strike_at
strike_at-Fair n now i s a small =
    rw (update_at-update_at i (λ e. counted (touch now e)) punish s.entries)
      (struck-Fair n now i s.entries a small)

step-Fair :
    (n : ℕ) (s : State) (c : Call) → AllFair n s → n + 1 < 2 ^ 32 → AllFair (n + 1) (step s c)
unfolding step
step-Fair n s (checks ip t) a small =
    let (s', fair, how) = find_or_create-Fair n ip t s a in
    elim how [
      | inl e ↦
          subst (λ r. AllFair (n + 1) r.1) (sym (check-none ip t s s' e)) (grow n s'.entries fair)
      | inr (i, e) ↦
          subst (λ r. AllFair (n + 1) r.1) (sym (check-some ip t s s' i e))
            (grow n (check_at t.now i s').1.entries (check_at-Fair n t.now i s' fair))
    ]
step-Fair n s (strikes ip t) a small =
    let (s', fair, how) = find_or_create-Fair n ip t s a in
    elim how [
      | inl e ↦ subst (AllFair (n + 1)) (sym (strike-none ip t s s' e)) (grow n s'.entries fair)
      | inr (i, e) ↦
          subst (AllFair (n + 1)) (sym (strike-some ip t s s' i e))
            (strike_at-Fair n t.now i s' fair small)
    ]

run-Fair :
    (n : ℕ) (s : State) (cs : List Call)
    → AllFair n s
    → n + length cs < 2 ^ 32
    → AllFair (n + length cs) (run s cs)
unfolding run
run-Fair n s [] a small = let e : n + 0 ≡ n = omega arith in rw e a
run-Fair n s (c ∷ cs) a small =
    let e : n + suc (length cs) ≡ n + 1 + length cs = omega arith in
    rw e (run-Fair (n + 1) (step s c) cs (step-Fair n s c a (omega arith)) (omega (arith, small)))

pub reached-Fair : (cs : List Call) → length cs < 2 ^ 32 → AllFair (length cs) (run zeroed cs)
reached-Fair cs small =
    let e : 0 + length cs ≡ length cs = omega arith in
    subst (λ k. AllFair k (run zeroed cs)) e
      (run-Fair 0 zeroed cs
        (All-replicate (IsFair 0) 64 blank (record { denied = refl; few = omega arith }))
        (omega arith))
