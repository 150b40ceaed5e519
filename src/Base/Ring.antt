-- ===== src/Base/Ring.antt =====
-- A circular array: `n` entries from index `h` on, going round at `size`.
use Prim.Native.Nat.{ℕ, zero, suc, ◌+◌, ◌-◌, ◌%◌, ◌≤◌, ◌<◌}
use mathlib.Core.Path.{◌≡◌, refl, sym, ◌∙◌, ap, ap₂, subst}
use mathlib.Core.Logic.{◌≢◌}
use mathlib.Core.List.{List, [], ◌∷◌, ◌++◌}
use native.Mathlib.Nat.{mod-add-mod, mod-eq_of_lt, mod-eq-sub-mod, add-zero, zero-add}
use native.Mathlib.Decide.{dec_lt}
use native.Mathlib.Omega.{arith}
use aevros.Base.Lists.{length, get_or, set, take, drop, get_or-set_self, get_or-set_ne}

-- Going on by less than a full turn ends elsewhere.
pub turn_ne : (size h k : ℕ) → h < size → suc k < size → (h + suc k) % size ≢ h
turn_ne size h k hh hk = elim (dec_lt (h + suc k) size) [
  | yes below ↦ omega (arith, mod-eq_of_lt below)
  | no above ↦
      let wrapped : (h + suc k) % size ≡ (h + suc k - size) % size =
        mod-eq-sub-mod {n = h + suc k} {m = size} (omega arith) in
      let small : (h + suc k - size) % size ≡ h + suc k - size =
        mod-eq_of_lt {n = h + suc k - size} {m = size} (omega arith) in
      omega arith
]

turn_next : (size h n : ℕ) → (h + suc n) % size ≡ ((h + 1) % size + n) % size
turn_next size h n = rw mod-add-mod (ap (λ k. k % size) (omega arith))

-- Stepping back to the start after a full turn.
turn_full : (size h : ℕ) → h < size → h ≡ ((h + 1) % size + (size - 1)) % size
turn_full size h hh =
    let whole : (h + size) % size ≡ h =
      mod-eq-sub-mod {n = h + size} {m = size} (omega arith)
      ∙ ap (λ k. k % size) (omega arith)
      ∙ mod-eq_of_lt hh in
    sym whole ∙ ap (λ k. k % size) (omega arith) ∙ sym (mod-add-mod _ _ _)

module _ {ℓ} {A : Type ℓ} (size : ℕ) (d : A) where
  abbrev pub window : List A → ℕ → ℕ → List A
  window buf h zero = []
  window buf h (suc n) = get_or buf h d ∷ window buf ((h + 1) % size) n

  pub length-window : (buf : List A) (h n : ℕ) → length (window buf h n) ≡ n
  length-window buf h zero = refl
  length-window buf h (suc n) = ap suc (length-window buf ((h + 1) % size) n)

  -- A write just past the entries adds one at the end.
  pub window-set_end :
      (buf : List A) (v : A) (n h i : ℕ)
      → size ≤ length buf
      → h < size
      → n < size
      → i ≡ (h + n) % size
      → window (set buf i v) h (suc n) ≡ window buf h n ++ (v ∷ [])
  window-set_end buf v zero h i room hh hn e =
      rw (e, add-zero, mod-eq_of_lt hh, get_or-set_self buf h v d (omega arith))
  window-set_end buf v (suc n) h i room hh hn e =
      ap₂ ◌∷◌ (get_or-set_ne buf i h v d (rw e (turn_ne size h n hh hn))) (
        window-set_end buf v n ((h + 1) % size) i room (omega arith) (omega arith)
          (e ∙ turn_next size h n))

  -- A write over the oldest entry of a full array drops it and adds one at the end.
  pub window-set_oldest :
      (buf : List A) (v : A) (h : ℕ)
      → size ≤ length buf
      → h < size
      → window (set buf h v) ((h + 1) % size) size ≡ drop 1 (window buf h size) ++ (v ∷ [])
  window-set_oldest buf v h room hh =
      let full : size ≡ suc (size - 1) = omega arith in
      let end : window (set buf h v) ((h + 1) % size) (suc (size - 1))
          ≡ drop 1 (window buf h (suc (size - 1))) ++ (v ∷ []) =
        window-set_end buf v (size - 1) ((h + 1) % size) h room (omega arith) (omega arith)
          (turn_full size h hh) in
      subst (λ n. window (set buf h v) ((h + 1) % size) n ≡ drop 1 (window buf h n) ++ (v ∷ []))
        (sym full) end

  -- The entries after the first `k` are a window of their own.
  pub window-drop :
      (buf : List A) (k n h j : ℕ)
      → h < size
      → j ≡ (h + k) % size
      → window buf j n ≡ drop k (window buf h (k + n))
  window-drop buf zero n h j hh e =
      let start : j ≡ h = e ∙ ap (λ i. i % size) (omega arith) ∙ mod-eq_of_lt hh in
      rw (start, zero-add)
  window-drop buf (suc k) n h j hh e =
      let more : suc k + n ≡ suc (k + n) = omega arith in
      rw more (window-drop buf k n ((h + 1) % size) j (omega arith) (e ∙ turn_next size h k))

  pub window-take : (buf : List A) (k n h : ℕ) → window buf h k ≡ take k (window buf h (k + n))
  window-take buf zero n h = refl
  window-take buf (suc k) n h =
      let more : suc k + n ≡ suc (k + n) = omega arith in
      rw more (ap (◌∷◌ (get_or buf h d)) (window-take buf k n ((h + 1) % size)))
