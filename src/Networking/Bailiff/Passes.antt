-- ===== src/Networking/Bailiff/Passes.antt =====
-- Which frames leave.
use aevros.Base.{
  ℕ, ◌≤◌, ◌≡◌, sym, ap, ◌∙◌, ◌⊎◌, inl, inr, Bool, true, false, ◌&&◌, some, List, [], ◌∷◌, map,
  arith, ◌==◌, add32, sub32, find, length, Option-cases, Bool-cases,
}
use aevros.Networking.Bailiff.{
  Pass, State, checksum, reclaim, reclaim_expired, holds, honor, present_found, present_pass,
}

-- A pass of the state for this frame, not expired.
pub record Authorises (now id : ℕ) (frame : List ℕ) (p : Pass) : Type 0 where
  pub used : p.in_use ≡ true
  pub named : p.pass_id ≡ id
  pub len : p.declared_len ≡ length frame
  pub content : p.content_checksum ≡ checksum frame
  pub timely : sub32 now p.issued_at ≤ 500

-- The pass is in the table.
abbrev pub HasPass : (Pass → Type 0) → List Pass → Type 0
HasPass P [] = ⊥
HasPass P (p ∷ ps) = P p ⊎ HasPass P ps

find-reclaimed :
    (now id : ℕ) (frame : List ℕ) (ps : List Pass) (q : Pass)
    → find (holds id) (map (reclaim now) ps) ≡ some q
    → q.declared_len ≡ length frame
    → q.content_checksum ≡ checksum frame
    → HasPass (Authorises now id frame) ps
unfolding find
find-reclaimed now id frame [] q h e c = absurd (ground arith)
find-reclaimed now id frame (p ∷ ps) q h e c = elim (Bool-cases (holds id (reclaim now p))) [
  | inl hit ↦
      let same : reclaim now p ≡ q = ground (arith, h, hit) in
      let alive : reclaim now p ≡ p = ground (arith, hit) in
      let is_q : p ≡ q = sym alive ∙ same in
      inl (record {
        used = ground (arith, hit);
        named = ground (arith, hit, alive);
        len = ap (λ x. x.declared_len) is_q ∙ e;
        content = ap (λ x. x.content_checksum) is_q ∙ c;
        timely = ground (arith, hit);
      })
  | inr miss ↦ inr (find-reclaimed now id frame ps q (ground (arith, h, miss)) e c)
]

-- A frame leaves only with a pass that was issued for its length and checksum 500 ticks ago or
-- less; a frame that leaves is counted as transmitted, and any other as denied.
pub present_pass-Authorises :
    (now id : ℕ) (frame : List ℕ) (sent : Bool) (s : State)
    → (present_pass now id frame sent s).0 ≡ true
        × HasPass (Authorises now id frame) s.passes
        × ((present_pass now id frame sent s).1.transmitted_total ≡ add32 s.transmitted_total 1)
        × ((present_pass now id frame sent s).1.denied_total ≡ s.denied_total)
      ⊎ ((present_pass now id frame sent s).0 ≡ false)
        × ((present_pass now id frame sent s).1.transmitted_total ≡ s.transmitted_total)
        × ((present_pass now id frame sent s).1.denied_total ≡ add32 s.denied_total 1)
unfolding present_pass present_found honor
present_pass-Authorises now id frame sent s =
    elim (Option-cases (find (holds id) (reclaim_expired now s).passes)) [
      | inl e ↦ inr (ground (arith, e), ground (arith, e), ground (arith, e))
      | inr (q, e) ↦
          elim (Bool-cases
            (q.declared_len == length frame && q.content_checksum == checksum frame && sent)) [
              | inl good ↦ inl (
                ground (arith, e, good),
                find-reclaimed now id frame s.passes q e (ground (arith, good))
                    (ground (arith, good)),
                ground (arith, e, good),
                ground (arith, e, good),
              )
              | inr bad ↦
                  inr (ground (arith, e, bad), ground (arith, e, bad), ground (arith, e, bad))
            ]
    ]
