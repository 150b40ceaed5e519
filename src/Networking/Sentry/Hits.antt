-- ===== src/Networking/Sentry/Hits.antt =====
-- The live hits of an entry: a new port takes the place of one that is still live.
use aevros.Base.{
  ℕ, zero, suc, ◌+◌, ◌≤◌, ◌≡◌, refl, sym, ap, ◌∙◌, inl, inr, Bool, true, false, Option, none, some,
  List, [], ◌∷◌, map, arith, find, find_index, update_first, update_at, count_if, Option-cases,
  Bool-cases, is_some-find_index, find_none→count, count-map-le, count-update_same, subst,
}
use aevros.Networking.Sentry.{Hit, expire, is_hit, target_from, target_of, place, note, distinct}

abbrev pub live : Hit → Bool
live h = h.in_use

target_from-live :
    (i k oldest : ℕ) (t : Option ℕ) (hs : List Hit)
    → find_index live hs ≡ some k
    → target_from i oldest t hs ≡ some (i + k)
unfolding target_from find_index
target_from-live i k oldest t [] h = absurd (ground arith)
target_from-live i k oldest t (x ∷ hs) h = elim (Bool-cases x.in_use) [
  | inl hit ↦ rw hit (ap some (ground (arith, h, hit)))
  | inr miss ↦ elim (Option-cases (find_index live hs)) [
    | inl nowhere ↦ absurd (ground (arith, h, miss, nowhere))
    | inr (j, found) ↦
        let at : some (i + 1 + j) ≡ some (i + k) = ap some (ground (arith, h, miss, found)) in
        ground (
          arith,
          miss,
          target_from-live (i + 1) j x.tick (some i) hs found ∙ at,
          target_from-live (i + 1) j oldest t hs found ∙ at,
        )
  ]
]

count-write :
    (i : ℕ) (n : Hit) (hs : List Hit)
    → count_if live (update_at i (λ _. n) hs) ≤ suc (count_if live hs)
unfolding count_if
count-write zero n [] = omega arith
count-write (suc i) n [] = omega arith
count-write zero n (x ∷ hs) = ground arith
count-write (suc i) n (x ∷ hs) = ground (arith, count-write i n hs)

count-overwrite :
    (k : ℕ) (n : Hit) (hs : List Hit)
    → find_index live hs ≡ some k
    → n.in_use ≡ true
    → count_if live (update_at k (λ _. n) hs) ≡ count_if live hs
unfolding count_if find_index
count-overwrite k n [] h e = absurd (ground arith)
count-overwrite zero n (x ∷ hs) h e = ground (arith, h, e)
count-overwrite (suc k) n (x ∷ hs) h e = ground (arith, h, e, count-overwrite k n hs)

place_at : Option ℕ → Hit → List Hit → List Hit
place_at none n hs = hs
place_at (some i) n hs = update_at i (λ _. n) hs

place_shape :
    (now port : ℕ) (hs : List Hit)
    → place now port hs
      ≡ place_at (target_of hs) (record { port = port; tick = now; in_use = true }) hs
unfolding place place_at
place_shape now port hs = ground arith

count-place_at :
    (t : Option ℕ) (n : Hit) (hs : List Hit)
    → count_if live hs ≡ 0
    → count_if live (place_at t n hs) ≤ 1
unfolding place_at
count-place_at none n hs h = omega (arith, h)
count-place_at (some i) n hs h = omega (arith, h, count-write i n hs)

count-place :
    (now port : ℕ) (hs : List Hit) → count_if live hs ≤ 1 → count_if live (place now port hs) ≤ 1
unfolding count_if place_at
count-place now port hs h = elim (Option-cases (find_index live hs)) [
  | inl nowhere ↦
      let missing : find live hs ≡ none = ground (arith, is_some-find_index live hs, nowhere) in
      rw (place_shape now port hs) (count-place_at _ _ hs (find_none→count live hs missing))
  | inr (k, found) ↦
      let n : Hit = record { port = port; tick = now; in_use = true } in
      let at : target_of hs ≡ some k =
        target_from-live 0 k 4294967295 none hs found ∙ ap some (omega arith) in
      let same : count_if live (place_at (some k) n hs) ≤ 1 =
        omega (arith, h, count-overwrite k n hs found refl) in
      rw (place_shape now port hs) (subst (λ t. count_if live (place_at t n hs) ≤ 1) (sym at) same)
]

expire-drops : (now : ℕ) (h : Hit) → live h ≡ false → live (expire now h) ≡ false
expire-drops now h e = ground arith

pub count-note :
    (now port : ℕ) (hs : List Hit) → distinct hs ≤ 1 → distinct (note now port hs).0 ≤ 1
unfolding note
count-note now port hs h =
    let after : List Hit = map (expire now) hs in
    let few : count_if live after ≤ 1 =
      omega (arith, h, count-map-le live (expire now) (expire-drops now) hs) in
    let refreshed : count_if live (update_first (is_hit port) (λ x. record x { tick = now }) after)
        ≤ 1 =
      omega (
        arith,
        few,
        count-update_same (is_hit port) live (λ x. record x { tick = now }) after (λ x e. refl),
      ) in
    ground (arith, refreshed, count-place now port after few)
