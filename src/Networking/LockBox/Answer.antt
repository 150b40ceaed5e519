-- ===== src/Networking/LockBox/Answer.antt =====
-- What `lockbox_claim` is to answer, said of the slots and not of the scans.
use aevros.Base.{
  ℕ, suc, ◌≤◌, ◌<◌, ◌≡◌, subst, ◌∙◌, inl, inr, Bool, true, false, none, some, List, [], ◌∷◌, arith,
  All, Bool-cases, Option-cases, bytes_eq, bytes_eq→eq, bytes_eq_refl, find, find_index,
  find_index-find, find-passes, count_if, get_elem?, length,
}
use aevros.Networking.LockBox.{
  capacity, Entry, LockBox, Result, ok, reject_table_full, reject_ip_quota, reject_already_exists,
  is_free, held_by, connects, find_connection,
}
use aevros.Networking.LockBox.Valid.{find_connection-none}

-- The slot is in use for this connection.
pub record IsConnection (lp : ℕ) (ip : List ℕ) (rp pr : ℕ) (e : Entry) : Type 0 where
  pub used : e.in_use ≡ true
  pub local_port : e.local_port ≡ lp
  pub remote_ip : e.remote_ip ≡ ip
  pub remote_port : e.remote_port ≡ rp
  pub protocol : e.protocol ≡ pr

-- The slot is in use for this remote address.
pub record IsHeld (ip : List ℕ) (e : Entry) : Type 0 where
  pub used : e.in_use ≡ true
  pub remote_ip : e.remote_ip ≡ ip

-- `n` of the slots are held by the address.
pub data Holds (ip : List ℕ) : ℕ → List Entry → Type 0 where
  nothing : Holds ip 0 []
  one_more :
      {n : ℕ} (e : Entry) (es : List Entry)
      → IsHeld ip e
      → Holds ip n es
      → Holds ip (suc n) (e ∷ es)
  no_more :
      {n : ℕ} (e : Entry) (es : List Entry) → ¬ IsHeld ip e → Holds ip n es → Holds ip n (e ∷ es)

-- The answer to a claim of the connection.
pub data Answer (lp : ℕ) (ip : List ℕ) (rp pr : ℕ) (table : List Entry) : Result → Type 0 where
  already :
      (i : ℕ) (e : Entry)
      → get_elem? table i ≡ some e
      → IsConnection lp ip rp pr e
      → Answer lp ip rp pr table reject_already_exists
  over_quota :
      (n : ℕ)
      → All (λ e. ¬ IsConnection lp ip rp pr e) table
      → Holds ip n table
      → 8 ≤ n
      → Answer lp ip rp pr table reject_ip_quota
  full :
      (n : ℕ)
      → All (λ e. ¬ IsConnection lp ip rp pr e) table
      → Holds ip n table
      → n < 8
      → All (λ e. e.in_use ≡ true) table
      → Answer lp ip rp pr table reject_table_full
  granted :
      (n i : ℕ) (e : Entry)
      → All (λ e. ¬ IsConnection lp ip rp pr e) table
      → Holds ip n table
      → n < 8
      → get_elem? table i ≡ some e
      → e.in_use ≡ false
      → Answer lp ip rp pr table ok

pub held_by-Holds : (ip : List ℕ) (es : List Entry) → Holds ip (count_if (held_by ip) es) es
unfolding count_if
held_by-Holds ip [] = nothing
held_by-Holds ip (e ∷ es) = elim (Bool-cases (held_by ip e)) [
  | inl passed ↦
      let h : IsHeld ip e = record {
        used = ground (arith, passed);
        remote_ip = bytes_eq→eq e.remote_ip ip (ground (arith, passed));
      } in
      rw (count_if, passed) (one_more e es h (held_by-Holds ip es))
  | inr not_held ↦
      rw (count_if, not_held)
        (no_more e es
          (λ h. ground (
            arith,
            not_held,
            h.used,
            subst (λ j. bytes_eq e.remote_ip j ≡ true) h.remote_ip (bytes_eq_refl e.remote_ip),
          ))
          (held_by-Holds ip es))
]

connects-IsConnection :
    (lp : ℕ) (ip : List ℕ) (rp pr : ℕ) (e : Entry)
    → connects lp ip rp pr e ≡ true
    → IsConnection lp ip rp pr e
connects-IsConnection lp ip rp pr e h = record {
  used = ground (arith, h);
  local_port = ground (arith, h);
  remote_ip = bytes_eq→eq e.remote_ip ip (ground (arith, h));
  remote_port = ground (arith, h);
  protocol = ground (arith, h);
}

connects-other :
    (lp : ℕ) (ip : List ℕ) (rp pr : ℕ) (e : Entry)
    → connects lp ip rp pr e ≡ false
    → ¬ IsConnection lp ip rp pr e
connects-other lp ip rp pr e h c =
    let same : bytes_eq e.remote_ip ip ≡ true =
      subst (λ j. bytes_eq e.remote_ip j ≡ true) c.remote_ip (bytes_eq_refl e.remote_ip) in
    ground (arith, h, same, c.used, c.local_port, c.remote_port, c.protocol)

none-All :
    (lp : ℕ) (ip : List ℕ) (rp pr : ℕ) (es : List Entry)
    → find (connects lp ip rp pr) es ≡ none
    → All (λ e. ¬ IsConnection lp ip rp pr e) es
unfolding find
none-All lp ip rp pr [] h = tt
none-All lp ip rp pr (e ∷ es) h = elim (Bool-cases (connects lp ip rp pr e)) [
  | inl hit ↦ absurd (ground (arith, h, hit))
  | inr miss ↦
      (connects-other lp ip rp pr e miss, none-All lp ip rp pr es (ground (arith, h, miss)))
]

pub absent :
    (lp : ℕ) (ip : List ℕ) (rp pr : ℕ) (s : LockBox)
    → length s.table ≡ capacity
    → find_connection lp ip rp pr s ≡ capacity
    → All (λ e. ¬ IsConnection lp ip rp pr e) s.table
absent lp ip rp pr s sized h =
    none-All lp ip rp pr s.table (find_connection-none lp ip rp pr s sized h)

-- The slot that a scan finds.
index_passes :
    (p : Entry → Bool) (es : List Entry) (i : ℕ)
    → find_index p es ≡ some i
    → (e : Entry) × (get_elem? es i ≡ some e) × (p e ≡ true)
index_passes p es i h =
    let (low, same, hit) = find_index-find p es i h in
    elim (Option-cases (find p es)) [
      | inl lost ↦ absurd (ground (arith, lost, hit))
      | inr (e, at) ↦ (e, same ∙ at, find-passes p es at)
    ]

pub there_is :
    (lp : ℕ) (ip : List ℕ) (rp pr i : ℕ) (es : List Entry)
    → find_index (connects lp ip rp pr) es ≡ some i
    → Answer lp ip rp pr es reject_already_exists
there_is lp ip rp pr i es h =
    let (e, at, passed) = index_passes (connects lp ip rp pr) es i h in
    already i e at (connects-IsConnection lp ip rp pr e passed)

pub room :
    (es : List Entry) (i : ℕ)
    → find_index is_free es ≡ some i
    → (e : Entry) × (get_elem? es i ≡ some e) × (e.in_use ≡ false)
room es i h = let (e, at, passed) = index_passes is_free es i h in (e, at, ground (arith, passed))

pub no_room : (es : List Entry) → find_index is_free es ≡ none → All (λ e. e.in_use ≡ true) es
unfolding find_index
no_room [] h = tt
no_room (e ∷ es) h = (ground (arith, h), no_room es (ground (arith, h)))
