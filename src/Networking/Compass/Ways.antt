-- ===== src/Networking/Compass/Ways.antt =====
-- The tests of `compass_handle`, and the ways through it.
use aevros.Base.{
  ℕ, ◌≡◌, refl, ◌⊎◌, inl, inr, Bool, not, ◌&&◌, List, [], ◌∷◌, arith, if◌then◌else◌, ◌∙◌, ap, true,
  false, Option, none, some, leb, ◌==◌, length, take, is_some,
}
use aevros.Networking.GuestList
use aevros.Networking.GuestList.{no_rule, allowed, denied}
use aevros.Networking.Rolodex
use aevros.Networking.Curfew
use aevros.Networking.Compass.{
  State, Clock, Event, Delivery, version, header_len, total_len, is_fragment, checksum_ok,
  guestlist_deny, curfew_reject, rolodex_disputed, check, src_ip, is_accept, is_denied, ask_curfew,
  admit, reject, notify, refuse, handle,
}

-- A good header, in one condition.
abbrev pub good_header : List ℕ → Bool
good_header payload =
    version payload == 4
    && leb 20 (header_len payload)
    && leb (header_len payload) (total_len payload)
    && leb (total_len payload) (length payload)
    && not (is_fragment payload)
    && checksum_ok (take (header_len payload) payload)

-- What GuestList, Curfew and Rolodex say of the sender.
abbrev pub rule : List ℕ → State → GuestList.Verdict
rule payload s = GuestList.check (src_ip payload) s.guests

abbrev pub in_time : Clock → List ℕ → State → Bool
in_time t payload s = (Curfew.check (src_ip payload) t.curfew s.curfew).0

abbrev pub disputed : List ℕ → State → Bool
disputed payload s = Rolodex.is_disputed (src_ip payload) s.rolodex

-- Why a sender is refused: a rule against it; else a limit, which a rule for it lifts; else a dispute.
abbrev pub objection : GuestList.Verdict → Bool → Bool → Option Event
objection denied in_time disputed = some guestlist_deny
objection allowed in_time disputed = if disputed then some rolodex_disputed else none
objection no_rule true disputed = if disputed then some rolodex_disputed else none
objection no_rule false disputed = some curfew_reject

abbrev pub objection_of : Clock → List ℕ → State → Option Event
objection_of t payload s = objection (rule payload s) (in_time t payload s) (disputed payload s)

-- The packets that are accepted.
abbrev pub passes : Clock → List ℕ → State → Bool
passes t payload s = good_header payload && not (is_some (objection_of t payload s))

abbrev pub reported : List ℕ → Option Event → List (Event × List ℕ)
reported ip none = []
reported ip (some event) = (event, ip) ∷ []

-- The event of a packet.
abbrev pub event_of : Clock → List ℕ → State → List (Event × List ℕ)
event_of t payload s =
    if good_header payload then reported (src_ip payload) (objection_of t payload s) else []

-- The state of Curfew after a packet: a bad one with an address in it is a strike, and only a sender
-- without a rule is checked.
abbrev pub curfew_of : Clock → List ℕ → State → Curfew.State
curfew_of t payload s =
    if not (good_header payload)
    then (if leb 20 (length payload)
        then Curfew.strike (src_ip payload) t.curfew s.curfew
        else s.curfew)
    else elim (rule payload s) [
      | no_rule ↦ (Curfew.check (src_ip payload) t.curfew s.curfew).1
      | allowed ↦ s.curfew
      | denied ↦ s.curfew
    ]

-- `compass_check` accepts the good headers.
pub check-good_header : (payload : List ℕ) → is_accept (check payload) ≡ good_header payload
unfolding check
check-good_header payload = ground arith

pub verdict-cases : (v : GuestList.Verdict) → (v ≡ no_rule) ⊎ (v ≡ allowed) ⊎ (v ≡ denied)
verdict-cases no_rule = inl refl
verdict-cases allowed = inr (inl refl)
verdict-cases denied = inr (inr refl)

module _ (directory : List ℕ) (t : Clock) (payload src_mac : List ℕ) (s : State) where
  -- The state after `curfew_check`.
  abbrev pub checked : State
  checked = record s { curfew = (Curfew.check (src_ip payload) t.curfew s.curfew).1 }

  -- What the tests on the rule answer.
  denies : GuestList.Verdict → Bool
  denies v = elim v [ denied ↦ true | allowed ↦ false | no_rule ↦ false ]

  asks : GuestList.Verdict → Bool × State
  asks v = elim v [
    | allowed ↦ (true, s)
    | denied ↦ (true, s)
    | no_rule ↦ (in_time t payload s, checked)
  ]

  is_denied-denies : (v : GuestList.Verdict) → rule payload s ≡ v → is_denied payload s ≡ denies v
  unfolding is_denied denies
  is_denied-denies v e = ap denies e

  ask_curfew-asks : (v : GuestList.Verdict) → rule payload s ≡ v → ask_curfew t payload s ≡ asks v
  unfolding ask_curfew asks
  ask_curfew-asks v e = ap asks e

  -- The ways through `compass_handle`.
  pub handle-bad :
      good_header payload ≡ false
      → handle directory t payload src_mac s ≡ (none, refuse t payload s)
  unfolding handle
  handle-bad bad = let e = check-good_header payload ∙ bad in rw e refl

  pub handle-banned :
      good_header payload ≡ true
      → rule payload s ≡ denied
      → handle directory t payload src_mac s
        ≡ (none, reject (notify guestlist_deny (src_ip payload) s))
  unfolding handle denies
  handle-banned good d =
      let e = check-good_header payload ∙ good in rw (e, is_denied-denies denied d) refl

  pub handle-favoured :
      good_header payload ≡ true
      → rule payload s ≡ allowed
      → handle directory t payload src_mac s ≡ admit directory t payload src_mac s
  unfolding handle denies asks
  handle-favoured good d =
      let e = check-good_header payload ∙ good in
      rw (e, is_denied-denies allowed d, ask_curfew-asks allowed d) refl

  pub handle-asked :
      good_header payload ≡ true
      → rule payload s ≡ no_rule
      → handle directory t payload src_mac s ≡ (
          if not (in_time t payload s)
          then (none, reject (notify curfew_reject (src_ip payload) checked))
          else admit directory t payload src_mac checked)
  unfolding handle denies asks
  handle-asked good d =
      let e = check-good_header payload ∙ good in
      rw (e, is_denied-denies no_rule d, ask_curfew-asks no_rule d) refl

  -- The call of a sender without a rule, after `curfew_check`.
  abbrev pub after_asked : Bool → Option Delivery × State
  after_asked b =
      if not b
      then (none, reject (notify curfew_reject (src_ip payload) checked))
      else admit directory t payload src_mac checked
