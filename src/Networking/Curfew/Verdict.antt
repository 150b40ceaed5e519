-- ===== src/Networking/Curfew/Verdict.antt =====
-- Whom `curfew_check` refuses.
use aevros.Base.{
  ℕ, zero, suc, ◌+◌, ◌^◌, ◌<◌, ◌≡◌, ◌≢◌, refl, ap, ◌∙◌, inl, inr, Bool, false, not, ◌&&◌, Option,
  none, some, List, [], ◌∷◌, leb, sub32, get_or, update_at, length, arith, find, find_index,
  find_index-find, is_some-find_index, All-get, Bool-cases, Option-cases, get_or-update_self,
  get_elem?, update_at-update_at,
}
use aevros.Networking.Curfew.{
  State, Entry, Ticks, there, blank, zeroed, matches, scan, target, roll_window, check_at, check,
  opened, touch, next_free, next_oldest,
}
use aevros.Networking.Curfew.Fair.{
  IsFair, AllFair, Call, run, reached-Fair, Slot-cases, find_or_create-there, find_or_create-fresh,
  find_or_create-none, check-some, check-none,
}

-- The address has an entry whose window is open, with 150 strikes or more.
pub is_over_limit : List ℕ → ℕ → State → Bool
is_over_limit ip now s = elim (find (matches ip) s.entries) [
  | none ↦ false
  | some e ↦ leb (sub32 now e.window_start) 200 && leb 150 e.count
]

scan-there :
    (ip : List ℕ) (i k : ℕ) (free : Option ℕ) (oldest : Option (ℕ × ℕ)) (es : List Entry)
    → find_index (matches ip) es ≡ some k
    → scan ip i free oldest es ≡ there (i + k)
unfolding scan find_index
scan-there ip i k free oldest [] h = absurd (ground arith)
scan-there ip i k free oldest (e ∷ es) h = elim (Bool-cases (matches ip e)) [
  | inl hit ↦ rw hit (ap there (ground (arith, h, hit)))
  | inr miss ↦ elim (Option-cases (find_index (matches ip) es)) [
    | inl nowhere ↦ absurd (ground (arith, h, miss, nowhere))
    | inr (j, found) ↦ rw miss (
        scan-there ip (i + 1) j (next_free i e free) (next_oldest i e oldest) es found
        ∙ ap there (ground (arith, h, miss, found)))
  ]
]

target_new : (free : Option ℕ) (oldest : Option (ℕ × ℕ)) (i : ℕ) → target free oldest ≢ there i
unfolding target
target_new (some j) oldest i = λ h. ground (arith, h)
target_new none (some (j, seen)) i = λ h. ground (arith, h)
target_new none none i = λ h. ground (arith, h)

scan-new :
    (ip : List ℕ) (i j : ℕ) (free : Option ℕ) (oldest : Option (ℕ × ℕ)) (es : List Entry)
    → find (matches ip) es ≡ none
    → scan ip i free oldest es ≢ there j
unfolding scan find
scan-new ip i j free oldest [] h = target_new free oldest j
scan-new ip i j free oldest (e ∷ es) h = elim (Bool-cases (matches ip e)) [
  | inl hit ↦ absurd (ground (arith, h, hit))
  | inr miss ↦ rw miss (
      scan-new ip (i + 1) j (next_free i e free) (next_oldest i e oldest) es
        (ground (arith, h, miss)))
]

fresh_allowed :
    (j : ℕ) (f : Entry → Entry) (es : List Entry)
    → ((e : Entry) → (f e).denied ≡ false)
    → (get_or (update_at j f es) j blank).denied ≡ false
fresh_allowed zero f [] h = refl
fresh_allowed (suc j) f [] h = refl
fresh_allowed zero f (e ∷ es) h = h e
fresh_allowed (suc j) f (e ∷ es) h = fresh_allowed j f es h

touch-denied :
    (now n : ℕ) (e : Entry)
    → IsFair n e
    → (touch now e).denied ≡ (leb (sub32 now e.window_start) 200 && leb 150 e.count)
unfolding roll_window
touch-denied now n e f = ground (arith, f.denied)

touch-allowed : (now : ℕ) (e : Entry) → e.denied ≡ false → (touch now e).denied ≡ false
unfolding roll_window
touch-allowed now e h = ground (arith, h)

get_or-get_elem? :
    (i : ℕ) (es : List Entry) (e : Entry) → get_elem? es i ≡ some e → get_or es i blank ≡ e
get_or-get_elem? i [] e h = absurd (ground arith)
get_or-get_elem? zero (x ∷ es) e h = ground (arith, h)
get_or-get_elem? (suc i) (x ∷ es) e h = get_or-get_elem? i es e h

over-none :
    (ip : List ℕ) (now : ℕ) (s : State)
    → find (matches ip) s.entries ≡ none
    → is_over_limit ip now s ≡ false
unfolding is_over_limit
over-none ip now s h = ground (arith, h)

over-some :
    (ip : List ℕ) (now : ℕ) (s : State) (e : Entry)
    → find (matches ip) s.entries ≡ some e
    → is_over_limit ip now s ≡ (leb (sub32 now e.window_start) 200 && leb 150 e.count)
unfolding is_over_limit
over-some ip now s e h = ground (arith, h)

-- An address with an entry.
check-known :
    (ip : List ℕ) (t : Ticks) (s : State) (n : ℕ) (e : Entry)
    → AllFair n s
    → find (matches ip) s.entries ≡ some e
    → (check ip t s).0 ≡ not (is_over_limit ip t.now s)
unfolding check_at
check-known ip t s n e a h = elim (Option-cases (find_index (matches ip) s.entries)) [
  | inl miss ↦ absurd (ground (arith, h, miss, is_some-find_index (matches ip) s.entries))
  | inr (k, at) ↦
      let (inside, same, _) = find_index-find (matches ip) s.entries k at in
      let this = same ∙ h in
      let fair : IsFair n e = All-get (IsFair n) k s.entries e a this in
      let found = scan-there ip 0 k none none s.entries at in
      let k_is : 0 + k ≡ k = omega arith in
      let slot = find_or_create-there ip t s k (found ∙ ap there k_is) in
      rw
        (
          check-some ip t s s k slot,
          get_or-update_self k (touch t.now) s.entries blank inside,
          get_or-get_elem? k s.entries e this,
          over-some ip t.now s e h,
          touch-denied t.now n e fair,
        )
        refl
]

-- An address with no entry is let through.
check-unknown :
    (ip : List ℕ) (t : Ticks) (s : State)
    → find (matches ip) s.entries ≡ none
    → (check ip t s).0 ≡ not (is_over_limit ip t.now s)
unfolding check_at
check-unknown ip t s h = elim (Slot-cases (scan ip 0 none none s.entries)) [
  | inl (i, e) ↦ absurd (scan-new ip 0 i none none s.entries h e)
  | inr (inr e) ↦
      rw (check-none ip t s s (find_or_create-none ip t s e), over-none ip t.now s h) refl
  | inr (inl (i, e)) ↦
      let opens : Entry → Entry = λ _. opened ip t in
      let s' : State = record s { entries = update_at i opens s.entries } in
      rw
        (
          check-some ip t s s' i (find_or_create-fresh ip t s i e),
          over-none ip t.now s h,
          update_at-update_at i opens (touch t.now) s.entries,
          fresh_allowed i (λ e. touch t.now (opens e)) s.entries
              (λ e. touch-allowed t.now (opened ip t) refl),
        )
        refl
]

-- After any calls from the zeroed table, fewer than 2 ^ 32, `curfew_check` refuses an address
-- exactly when it has an entry with 150 strikes or more whose window began 200 ticks ago or less.
pub check-run :
    (calls : List Call) (ip : List ℕ) (t : Ticks)
    → length calls < 2 ^ 32
    → (check ip t (run zeroed calls)).0 ≡ not (is_over_limit ip t.now (run zeroed calls))
check-run calls ip t small = elim (Option-cases (find (matches ip) (run zeroed calls).entries)) [
  | inl e ↦ check-unknown ip t (run zeroed calls) e
  | inr (x, e) ↦ check-known ip t (run zeroed calls) (length calls) x (reached-Fair calls small) e
]
