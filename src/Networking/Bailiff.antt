-- ===== src/Networking/Bailiff.antt =====
-- Networking/Bailiff/bailiff.c: the passes that a frame needs to leave. The driver is outside: an
-- argument says whether `frontdesk_send` takes the frame. The tick count is read by the reclaiming
-- (`now`) and for a new pass (`issued`). The length of a frame is the number of its bytes, and the
-- log lines are not modelled.
pub mod Passes
mod Examples
use aevros.Base.{
  ℕ, zero, suc, ◌+◌, ◌*◌, ◌-◌, ◌%◌, ◌^◌, ◌<◌, Bool, true, false, not, ◌&&◌, ◌||◌, Option, none,
  some, List, [], ◌∷◌, map, ltb, ◌==◌, if◌then◌else◌, is_some, add32, sub32, find, update_first,
  replicate, length, bit_xor,
}

abbrev pub max_passes : ℕ
max_passes = 32

abbrev pub timeout_ticks : ℕ
timeout_ticks = 500

abbrev pub max_frame : ℕ
max_frame = 1600

-- `hall_pass_t`
pub record Pass : Type 0 where
  pub pass_id : ℕ
  pub declared_len : ℕ
  pub content_checksum : ℕ
  pub issued_at : ℕ
  pub in_use : Bool

pub record State : Type 0 where
  pub passes : List Pass
  pub next_pass_id : ℕ
  pub denied_total : ℕ
  pub transmitted_total : ℕ

abbrev pub blank : Pass
blank = record {
  pass_id = 0;
  declared_len = 0;
  content_checksum = 0;
  issued_at = 0;
  in_use = false;
}

abbrev pub initial : State
initial = record {
  passes = replicate max_passes blank;
  next_pass_id = 1;
  denied_total = 0;
  transmitted_total = 0;
}

-- The `for` of `checksum`: `sum` is a `uint32_t`.
pub mix : List ℕ → ℕ → ℕ
mix [] sum = sum
mix (b ∷ rest) sum = mix rest (bit_xor sum b * 16777619 % 2 ^ 32)

abbrev pub checksum : List ℕ → ℕ
checksum frame = mix frame 2166136261

-- One round of the loop of `reclaim_expired`.
abbrev pub reclaim : ℕ → Pass → Pass
reclaim now p =
    if p.in_use && ltb timeout_ticks (sub32 now p.issued_at) then record p { in_use = false } else p

abbrev pub reclaim_expired : ℕ → State → State
reclaim_expired now s = record s { passes = map (reclaim now) s.passes }

abbrev pub deny : State → State
deny s = record s { denied_total = add32 s.denied_total 1 }

abbrev pub is_free : Pass → Bool
is_free p = not p.in_use

abbrev pub issue : ℕ → ℕ → List ℕ → Pass → Pass
issue id issued frame p = record {
  pass_id = id;
  declared_len = length frame;
  content_checksum = checksum frame;
  issued_at = issued;
  in_use = true;
}

-- The search of a slot, and the pass.
unfoldable pub grant : ℕ → List ℕ → State → Option ℕ × State
grant issued frame s =
    if is_some (find is_free s.passes)
    then (
      some s.next_pass_id,
      record s {
        passes = update_first is_free (issue s.next_pass_id issued frame) s.passes;
        next_pass_id = add32 s.next_pass_id 1;
      },
    )
    else (none, deny s)

unfoldable pub request_pass : ℕ → ℕ → List ℕ → State → Option ℕ × State
request_pass now issued frame s =
    if length frame == 0 || ltb max_frame (length frame)
    then (none, deny s)
    else grant issued frame (reclaim_expired now s)

abbrev pub holds : ℕ → Pass → Bool
holds id p = p.in_use && p.pass_id == id

abbrev pub end_pass : ℕ → State → State
end_pass id s = record s {
  passes = update_first (holds id) (λ p. record p { in_use = false }) s.passes;
}

-- The body of the loop for the pass that is found.
unfoldable pub honor : ℕ → List ℕ → Bool → Pass → State → Bool × State
honor id frame sent p s =
    if not (p.declared_len == length frame)
    then (false, deny s)
    else if not (p.content_checksum == checksum frame)
    then (false, deny s)
    else if not sent
    then (false, end_pass id (deny s))
    else (true, end_pass id (record s { transmitted_total = add32 s.transmitted_total 1 }))

unfoldable pub present_found : ℕ → List ℕ → Bool → Option Pass → State → Bool × State
present_found id frame sent none s = (false, deny s)
present_found id frame sent (some p) s = honor id frame sent p s

unfoldable pub present_pass : ℕ → ℕ → List ℕ → Bool → State → Bool × State
present_pass now id frame sent s =
    present_found id frame sent (find (holds id) (reclaim_expired now s).passes)
      (reclaim_expired now s)
