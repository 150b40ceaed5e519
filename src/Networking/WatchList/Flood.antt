-- ===== src/Networking/WatchList/Flood.antt =====
-- Which senders are flagged.
use aevros.Base.{
  ℕ, ◌+◌, ◌≤◌, ◌≡◌, refl, ◌∙◌, ap, inl, inr, true, false, Option, none, some, List, [], ◌∷◌, sub32,
  arith, if◌then◌else◌, bytes_eq, bytes_eq→eq, bytes_eq_refl, find, update_first, find-update_self,
  find-update_new, find-update_other, Option-cases,
}
use mathlib.Core.Option
use aevros.Networking.WatchList.{
  State, Entry, Ticks, matches, is_free, opened, slot_of, find_or_create, roll_window, counted,
  flag, struck, strike_slot, strike, note_dropped, expire, is_flagged,
}

-- The calls from outside.
pub data Call : Type 0 where
  strikes : List ℕ → Ticks → Call
  asks : List ℕ → ℕ → Call
  drops : Call

unfoldable pub step : Call → State → State
step (strikes mac t) s = (strike mac t s).1
step (asks mac now) s = (is_flagged mac now s).1
step drops s = note_dropped s

unfoldable pub run : State → List Call → State
run s [] = s
run s (c ∷ cs) = run (step c s) cs

-- A call that concerns `mac` comes 200 ticks or less after `start`.
unfoldable pub InWindow : List ℕ → ℕ → Call → Type 0
InWindow mac start (strikes j t) = bytes_eq j mac ≡ true → sub32 t.now start ≤ 200
InWindow mac start (asks j now) = bytes_eq j mac ≡ true → sub32 now start ≤ 200
InWindow mac start drops = Unit

unfoldable pub strikes_of : List ℕ → List Call → ℕ
strikes_of mac [] = 0
strikes_of mac (strikes j t ∷ cs) = (if bytes_eq j mac then 1 else 0) + strikes_of mac cs
strikes_of mac (asks j now ∷ cs) = strikes_of mac cs
strikes_of mac (drops ∷ cs) = strikes_of mac cs

abbrev pub lookup : List ℕ → State → Option Entry
lookup mac s = find (matches mac) s.entries

matches_apart :
    (i j : List ℕ) → bytes_eq i j ≡ false → (e : Entry) → matches i e ≡ true → matches j e ≡ false
matches_apart i j h e m = ground (arith, bytes_eq→eq e.mac i)

free_apart : (j : List ℕ) (e : Entry) → is_free e ≡ true → matches j e ≡ false
free_apart j e h = ground arith

-- A write that keeps the address and the use of an entry.
struck_same : (mac : List ℕ) (now : ℕ) (e : Entry) → matches mac (struck now e) ≡ matches mac e
unfolding flag counted roll_window
struck_same mac now e = ground arith

expire_same : (mac : List ℕ) (now : ℕ) (e : Entry) → matches mac (expire now e) ≡ matches mac e
unfolding expire
expire_same mac now e = ground arith

-- The state after a strike.
strike-there :
    (j : List ℕ) (t : Ticks) (s : State) (e : Entry)
    → lookup j s ≡ some e
    → (strike j t s).1 ≡ record s { entries = update_first (matches j) (struck t.now) s.entries }
unfolding strike find_or_create slot_of strike_slot
strike-there j t s e h = rw h refl

strike-fresh :
    (j : List ℕ) (t : Ticks) (s : State) (e : Entry)
    → lookup j s ≡ none
    → find is_free s.entries ≡ some e
    → (strike j t s).1
      ≡ record s { entries = update_first is_free (λ _. struck t.now (opened j t.start)) s.entries }
unfolding strike find_or_create slot_of strike_slot
strike-fresh j t s e h k = rw (h, k) refl

strike_full :
    (j : List ℕ) (t : Ticks) (s : State)
    → lookup j s ≡ none
    → find is_free s.entries ≡ none
    → (strike j t s).1 ≡ s
unfolding strike find_or_create slot_of strike_slot
strike_full j t s h k = rw (h, k) refl

-- The strike of another sender.
pub lookup-strike_other :
    (mac j : List ℕ) (t : Ticks) (s : State)
    → bytes_eq j mac ≡ false
    → lookup mac (strike j t s).1 ≡ lookup mac s
lookup-strike_other mac j t s ne = elim (Option-cases (lookup j s)) [
  | inr (e, at) ↦
      ap (lookup mac) (strike-there j t s e at)
      ∙ find-update_other (matches j) (matches mac) (struck t.now) s.entries
          (matches_apart j mac ne) (λ a m. struck_same mac t.now a ∙ matches_apart j mac ne a m)
  | inl new ↦ elim (Option-cases (find is_free s.entries)) [
    | inr (e, at) ↦
        ap (lookup mac) (strike-fresh j t s e new at)
        ∙ find-update_other is_free (matches mac) (λ _. struck t.now (opened j t.start)) s.entries
            (free_apart mac) (λ a m. struck_same mac t.now (opened j t.start) ∙ ground (arith, ne))
    | inl full ↦ ap (lookup mac) (strike_full j t s new full)
  ]
]

-- The strike of the sender.
pub lookup-strike_self :
    (mac : List ℕ) (t : Ticks) (s : State) (e : Entry)
    → lookup mac s ≡ some e
    → lookup mac (strike mac t s).1 ≡ some (struck t.now e)
lookup-strike_self mac t s e h =
    ap (lookup mac) (strike-there mac t s e h)
    ∙ (find-update_self (matches mac) (matches mac) (struck t.now) s.entries (λ a. refl)
          (λ a m. struck_same mac t.now a ∙ m)
        ∙ ap (Option.map (struck t.now)) h)

pub lookup-strike_new :
    (mac : List ℕ) (t : Ticks) (s : State) (e : Entry)
    → lookup mac s ≡ none
    → find is_free s.entries ≡ some e
    → lookup mac (strike mac t s).1 ≡ some (struck t.now (opened mac t.start))
lookup-strike_new mac t s e h k =
    ap (lookup mac) (strike-fresh mac t s e h k)
    ∙ (find-update_new is_free (matches mac) (λ _. struck t.now (opened mac t.start)) s.entries
          (λ a m. struck_same mac t.now (opened mac t.start) ∙ bytes_eq_refl mac) h
        ∙ ap (Option.map (λ _. struck t.now (opened mac t.start))) k)

pub lookup-asks_other :
    (mac j : List ℕ) (now : ℕ) (s : State)
    → bytes_eq j mac ≡ false
    → lookup mac (is_flagged j now s).1 ≡ lookup mac s
unfolding is_flagged
lookup-asks_other mac j now s ne =
    find-update_other (matches j) (matches mac) (expire now) s.entries (matches_apart j mac ne)
      (λ a m. expire_same mac now a ∙ matches_apart j mac ne a m)

pub lookup-asks_self :
    (mac : List ℕ) (now : ℕ) (s : State) (e : Entry)
    → lookup mac s ≡ some e
    → lookup mac (is_flagged mac now s).1 ≡ some (expire now e)
unfolding is_flagged
lookup-asks_self mac now s e h =
    find-update_self (matches mac) (matches mac) (expire now) s.entries (λ a. refl)
      (λ a m. expire_same mac now a ∙ m)
    ∙ ap (Option.map (expire now)) h
