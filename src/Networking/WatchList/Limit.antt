-- ===== src/Networking/WatchList/Limit.antt =====
-- The flood limit of a sender, whatever the others do.
use aevros.Base.{
  ℕ, suc, ◌+◌, ◌≤◌, ◌<◌, ◌^◌, ◌≡◌, refl, sym, ◌∙◌, ap, subst, inl, inr, none, some, List, [], ◌∷◌,
  leb, sub32, arith, bytes_eq, bytes_eq→eq, find, All, Bool-cases,
}
use aevros.Networking.WatchList.{
  State, Entry, Ticks, is_free, opened, roll_window, counted, flag, struck, strike, note_dropped,
  expire, flag_of, is_flagged,
}
use aevros.Networking.WatchList.Flood.{
  Call, strikes, asks, drops, step, run, InWindow, strikes_of, lookup, lookup-strike_other,
  lookup-strike_self, lookup-strike_new, lookup-asks_other, lookup-asks_self,
}

-- The entry of `mac` has counted `n` strikes since `start`.
pub record Counts (mac : List ℕ) (start n : ℕ) (s : State) : Type 0 where
  pub entry : Entry
  pub found : lookup mac s ≡ some entry
  pub since : entry.window_start ≡ start
  pub count : entry.count ≡ n
  pub flags : entry.flagged ≡ leb 4000 n

-- One strike more within the window.
struck-Counts :
    (now start n : ℕ) (e : Entry)
    → e.window_start ≡ start
    → e.count ≡ n
    → e.flagged ≡ leb 4000 n
    → sub32 now start ≤ 200
    → suc n < 2 ^ 32
    → ((struck now e).window_start ≡ start)
      × ((struck now e).count ≡ suc n)
      × ((struck now e).flagged ≡ leb 4000 (suc n))
unfolding flag counted roll_window
struck-Counts now start n e w c f near small = ground (arith, w, c, f, near, small)

expire_kept :
    (now start : ℕ) (e : Entry) → e.window_start ≡ start → sub32 now start ≤ 200 → expire now e ≡ e
unfolding expire
expire_kept now start e w near = ground (arith, w, near)

Counts-other :
    (mac : List ℕ) (start n : ℕ) (s s' : State)
    → Counts mac start n s
    → lookup mac s' ≡ lookup mac s
    → Counts mac start n s'
Counts-other mac start n s s' k e = record {
  entry = k.entry;
  found = e ∙ k.found;
  since = k.since;
  count = k.count;
  flags = k.flags;
}

strike-Counts :
    (mac : List ℕ) (start n : ℕ) (t : Ticks) (s : State)
    → Counts mac start n s
    → sub32 t.now start ≤ 200
    → suc n < 2 ^ 32
    → Counts mac start (suc n) (strike mac t s).1
strike-Counts mac start n t s k near small =
    let (w, c, f) = struck-Counts t.now start n k.entry k.since k.count k.flags near small in
    record {
      entry = struck t.now k.entry;
      found = lookup-strike_self mac t s k.entry k.found;
      since = w;
      count = c;
      flags = f;
    }

run-Counts :
    (mac : List ℕ) (start n : ℕ) (s : State) (cs : List Call)
    → Counts mac start n s
    → All (InWindow mac start) cs
    → n + strikes_of mac cs < 2 ^ 32
    → Counts mac start (n + strikes_of mac cs) (run s cs)
unfolding run step strikes_of InWindow note_dropped
run-Counts mac start n s [] k a small = subst (λ m. Counts mac start m s) (omega arith) k
run-Counts mac start n s (strikes j t ∷ cs) k (near, rest) small =
    elim (Bool-cases (bytes_eq j mac)) [
      | inl hit ↦
          let same : j ≡ mac = bytes_eq→eq j mac hit in
          let k' = strike-Counts mac start n t s k (near hit) (ground (arith, small, hit)) in
          let k'' : Counts mac start (suc n) (strike j t s).1 =
            subst (λ i. Counts mac start (suc n) (strike i t s).1) (sym same) k' in
          let all =
            run-Counts mac start (suc n) (strike j t s).1 cs k'' rest
              (ground (arith, small, hit)) in
          subst (λ m. Counts mac start m (run (strike j t s).1 cs)) (ground (arith, hit)) all
      | inr miss ↦
          let k' =
            Counts-other mac start n s (strike j t s).1 k (lookup-strike_other mac j t s miss) in
          let all =
            run-Counts mac start n (strike j t s).1 cs k' rest (ground (arith, small, miss)) in
          subst (λ m. Counts mac start m (run (strike j t s).1 cs)) (ground (arith, miss)) all
    ]
run-Counts mac start n s (asks j now ∷ cs) k (near, rest) small =
    elim (Bool-cases (bytes_eq j mac)) [
      | inl hit ↦
          let same : j ≡ mac = bytes_eq→eq j mac hit in
          let kept = expire_kept now start k.entry k.since (near hit) in
          let at : lookup mac (is_flagged mac now s).1 ≡ lookup mac s =
            lookup-asks_self mac now s k.entry k.found ∙ (ap some kept ∙ sym k.found) in
          let at' = subst (λ i. lookup mac (is_flagged i now s).1 ≡ lookup mac s) (sym same) at in
          run-Counts mac start n (is_flagged j now s).1 cs
            (Counts-other mac start n s (is_flagged j now s).1 k at') rest small
      | inr miss ↦
          run-Counts mac start n (is_flagged j now s).1 cs
            (Counts-other mac start n s (is_flagged j now s).1 k
              (lookup-asks_other mac j now s miss))
            rest small
    ]
run-Counts mac start n s (drops ∷ cs) k (_, rest) small =
    run-Counts mac start n (note_dropped s) cs (Counts-other mac start n s (note_dropped s) k refl)
      rest small

asks-Counts :
    (mac : List ℕ) (start n now : ℕ) (s : State)
    → Counts mac start n s
    → sub32 now start ≤ 200
    → (is_flagged mac now s).0 ≡ leb 4000 n
unfolding is_flagged flag_of
asks-Counts mac start n now s k near =
    ap (flag_of now) k.found
    ∙ (ap (λ (e : Entry). e.flagged) (expire_kept now start k.entry k.since near) ∙ k.flags)

opened-Counts :
    (mac : List ℕ) (t : Ticks) (s : State) (e : Entry)
    → lookup mac s ≡ none
    → find is_free s.entries ≡ some e
    → sub32 t.now t.start ≤ 200
    → Counts mac t.start 1 (strike mac t s).1
opened-Counts mac t s e new free near =
    let (w, c, f) =
      struck-Counts t.now t.start 0 (opened mac t.start) refl refl refl near (omega arith) in
    record {
      entry = struck t.now (opened mac t.start);
      found = lookup-strike_new mac t s e new free;
      since = w;
      count = c;
      flags = f;
    }

-- The flood limit counts the strikes of one sender, whatever the others do. Where a sender has no entry
-- and a slot is free, its first strike opens the window; then, among calls of which those that concern
-- it come 200 ticks or less after that, `watchlist_is_flagged` says within these 200 ticks that it is
-- flagged exactly when it has struck 4000 times, fewer than 2 ^ 32.
pub is_flagged-run :
    (mac : List ℕ) (t : Ticks) (s : State) (e : Entry) (calls : List Call) (now : ℕ)
    → lookup mac s ≡ none
    → find is_free s.entries ≡ some e
    → sub32 t.now t.start ≤ 200
    → All (InWindow mac t.start) calls
    → sub32 now t.start ≤ 200
    → 1 + strikes_of mac calls < 2 ^ 32
    → (is_flagged mac now (run (strike mac t s).1 calls)).0 ≡ leb 4000 (1 + strikes_of mac calls)
is_flagged-run mac t s e calls now new free near all last small =
    asks-Counts mac t.start (1 + strikes_of mac calls) now (run (strike mac t s).1 calls)
      (run-Counts mac t.start 1 (strike mac t s).1 calls (opened-Counts mac t s e new free near) all
        small)
      last
