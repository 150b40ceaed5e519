-- ===== src/Networking/Foyer/Drain.antt =====
-- No frame waits for ever.
use aevros.Networking.Rolodex
use aevros.Base.{
  ℕ, suc, ◌+◌, ◌≤◌, ◌≡◌, refl, sym, ◌∙◌, ap, subst, ◌⊎◌, if◌then◌else◌, inl, inr, true, false,
  Option, none, some, List, [], ◌∷◌, sub32, arith, length, All, All-mono, Bool-cases,
}
use aevros.Networking.Foyer.{State, Entry, Desk, Moment, retry, serve, visit, visit_all, tick}

-- A call of `foyer_tick`, with the address book that it finds.
pub record Round : Type 0 where
  pub moments : ℕ → Moment
  pub our_mac : List ℕ
  pub now : ℕ
  pub book : Rolodex.State

pub run : State → List Round → State
run s [] = s
run s (r ∷ rs) = run (tick r.moments r.our_mac r.now r.book s) rs

-- The last attempt for the slot is 100 ticks ago or more.
abbrev pub Due : ℕ → Entry → Type 0
Due now e = (e.in_use ≡ false) ⊎ (100 ≤ sub32 now e.last_attempt)

-- The rounds come 100 ticks or more apart.
unfoldable pub Spaced : ℕ → List Round → Type 0
Spaced last [] = Unit
Spaced last (r ∷ rs) = (100 ≤ sub32 r.now last) × Spaced r.now rs

abbrev pub Empty : Entry → Type 0
Empty e = e.in_use ≡ false

-- The slot is free, or `k` attempts were made for it, the last at `t`.
Tried : ℕ → ℕ → Entry → Type 0
Tried k t e =
    (e.in_use ≡ false) ⊎ ((k ≤ e.retry_count) × (e.retry_count ≤ 5) × (e.last_attempt ≡ t))

retry-Tried :
    (m : Moment) (our_mac : List ℕ) (now : ℕ) (r : Rolodex.State) (e : Entry) (d : Desk) (k : ℕ)
    → k ≤ e.retry_count
    → 100 ≤ sub32 now e.last_attempt
    → Tried (suc k) now (retry m our_mac now r e d).0
unfolding retry Tried
retry-Tried m our_mac now r e d k some_tries due = ground (arith, some_tries, due)

visit_free :
    (m : Moment) (our_mac : List ℕ) (now : ℕ) (r : Rolodex.State) (e : Entry) (d : Desk)
    → e.in_use ≡ false
    → visit m our_mac now r e d ≡ (e, d)
unfolding visit
visit_free m our_mac now r e d h =
    ap (λ b. if b then serve m our_mac now r (Rolodex.lookup e.target_ip r) e d else (e, d)) h

visit_used :
    (m : Moment) (our_mac : List ℕ) (now : ℕ) (r : Rolodex.State) (e : Entry) (d : Desk)
    → e.in_use ≡ true
    → visit m our_mac now r e d ≡ serve m our_mac now r (Rolodex.lookup e.target_ip r) e d
unfolding visit
visit_used m our_mac now r e d h =
    ap (λ b. if b then serve m our_mac now r (Rolodex.lookup e.target_ip r) e d else (e, d)) h

serve-Tried :
    (m : Moment) (our_mac : List ℕ) (now : ℕ) (r : Rolodex.State) (known : Option (List ℕ))
    (e : Entry) (d : Desk) (k : ℕ)
    → k ≤ e.retry_count
    → 100 ≤ sub32 now e.last_attempt
    → Tried (suc k) now (serve m our_mac now r known e d).0
unfolding serve Tried
serve-Tried m our_mac now r (some mac) e d k tries due = inl refl
serve-Tried m our_mac now r none e d k tries due = retry-Tried m our_mac now r e d k tries due

visit-Tried :
    (m : Moment) (our_mac : List ℕ) (now : ℕ) (r : Rolodex.State) (e : Entry) (d : Desk) (k : ℕ)
    → (e.in_use ≡ false) ⊎ ((k ≤ e.retry_count) × (100 ≤ sub32 now e.last_attempt))
    → Tried (suc k) now (visit m our_mac now r e d).0
unfolding Tried
visit-Tried m our_mac now r e d k (inl free) =
    inl (ap (λ (p : Entry × Desk). p.0.in_use) (visit_free m our_mac now r e d free) ∙ free)
visit-Tried m our_mac now r e d k (inr (tries, due)) = elim (Bool-cases e.in_use) [
  | inr free ↦
      inl (ap (λ (p : Entry × Desk). p.0.in_use) (visit_free m our_mac now r e d free) ∙ free)
  | inl used ↦
      subst (λ (p : Entry × Desk). Tried (suc k) now p.0)
        (sym (visit_used m our_mac now r e d used))
        (serve-Tried m our_mac now r (Rolodex.lookup e.target_ip r) e d k tries due)
]

visit_all-Tried :
    (ms : ℕ → Moment) (i : ℕ) (our_mac : List ℕ) (now : ℕ) (r : Rolodex.State) (es : List Entry)
    (d : Desk) (k : ℕ)
    → All (λ e. (e.in_use ≡ false) ⊎ ((k ≤ e.retry_count) × (100 ≤ sub32 now e.last_attempt))) es
    → All (Tried (suc k) now) (visit_all ms i our_mac now r es d).0
unfolding visit_all
visit_all-Tried ms i our_mac now r [] d k h = tt
visit_all-Tried ms i our_mac now r (e ∷ es) d k (this, rest) = (
  visit-Tried (ms i) our_mac now r e d k this,
  visit_all-Tried ms (suc i) our_mac now r es (visit (ms i) our_mac now r e d).1 k rest,
)

Tried-Due :
    (k t now : ℕ) (e : Entry)
    → 100 ≤ sub32 now t
    → Tried k t e
    → (e.in_use ≡ false) ⊎ ((k ≤ e.retry_count) × (100 ≤ sub32 now e.last_attempt))
unfolding Tried
Tried-Due k t now e due (inl free) = inl free
Tried-Due k t now e due (inr (tries, _, at)) =
    inr (tries, subst (λ l. 100 ≤ sub32 now l) (sym at) due)

Tried-Empty : (k t : ℕ) (e : Entry) → 6 ≤ k → Tried k t e → Empty e
unfolding Tried
Tried-Empty k t e many (inl free) = free
Tried-Empty k t e many (inr (tries, few, _)) = absurd (omega (arith, tries, few))

Due-Tried :
    (now : ℕ) (e : Entry)
    → Due now e
    → (e.in_use ≡ false) ⊎ ((0 ≤ e.retry_count) × (100 ≤ sub32 now e.last_attempt))
Due-Tried now e (inl free) = inl free
Due-Tried now e (inr due) = inr (omega arith, due)

run-Tried :
    (rs : List Round) (s : State) (k t : ℕ)
    → All (Tried k t) s.slots
    → Spaced t rs
    → 6 ≤ k + length rs
    → All Empty (run s rs).slots
unfolding run Spaced tick
run-Tried [] s k t h far many =
    All-mono (Tried k t) Empty s.slots (λ e. Tried-Empty k t e (omega (arith, many))) h
run-Tried (r ∷ rs) s k t h (due, far) many =
    run-Tried rs (tick r.moments r.our_mac r.now r.book s) (suc k) r.now
      (visit_all-Tried r.moments 0 r.our_mac r.now r.book s.slots s.desk k
        (All-mono (Tried k t) _ s.slots (λ e. Tried-Due k t r.now e due) h))
      far (omega (arith, many))

-- A frame waits for six rounds at most. Whatever the slots hold, the address book says, Bailiff and the
-- driver do: after six calls of `foyer_tick` or more, each 100 ticks or more after the one before and the
-- first 100 or more after the last attempt for each slot in use, with no frame queued between them, no
-- slot is in use.
pub run-Empty :
    (r : Round) (rs : List Round) (s : State)
    → All (Due r.now) s.slots
    → Spaced r.now rs
    → 5 ≤ length rs
    → All Empty (run s (r ∷ rs)).slots
unfolding run tick
run-Empty r rs s due far many =
    run-Tried rs (tick r.moments r.our_mac r.now r.book s) 1 r.now
      (visit_all-Tried r.moments 0 r.our_mac r.now r.book s.slots s.desk 0
        (All-mono (Due r.now) _ s.slots (λ e. Due-Tried r.now e) due))
      far (omega (arith, many))
