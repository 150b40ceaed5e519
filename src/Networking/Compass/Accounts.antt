-- ===== src/Networking/Compass/Accounts.antt =====
-- What `compass_handle` counts, reports and leaves of a packet.
use aevros.Base.{
  ℕ, ◌+◌, ◌^◌, ◌<◌, ◌≡◌, refl, inl, inr, List, ◌++◌, arith, if◌then◌else◌, append-nil, ◌∙◌, ap, sym,
  subst, true, false, Option, Bool-cases,
}
use aevros.Networking.GuestList.{no_rule, allowed, denied}
use aevros.Networking.Rolodex
use aevros.Networking.Compass.{
  State, Clock, Delivery, guestlist_deny, curfew_reject, src_ip, admit, deliver, reject, notify,
  refuse, handle,
}
use aevros.Networking.Compass.Ways.{
  good_header, rule, in_time, passes, event_of, curfew_of, verdict-cases, checked, handle-bad,
  handle-banned, handle-favoured, handle-asked, after_asked,
}

-- What a call leaves.
pub record IsAccount (t : Clock) (payload src_mac : List ℕ) (s s' : State) : Type 0 where
  pub accepted : s'.accepted ≡ (if passes t payload s then s.accepted + 1 else s.accepted)
  pub rejected : s'.rejected ≡ (if passes t payload s then s.rejected else s.rejected + 1)
  pub events : s'.events ≡ s.events ++ event_of t payload s
  pub guests : s'.guests ≡ s.guests
  pub curfew : s'.curfew ≡ curfew_of t payload s
  pub rolodex : s'.rolodex ≡ (
      if passes t payload s
      then Rolodex.learn (src_ip payload) src_mac t.now t.seen s.rolodex
      else s.rolodex)

module _ (directory : List ℕ) (t : Clock) (payload src_mac : List ℕ) (s : State)
    (ha : s.accepted + 1 < 2 ^ 32) (hr : s.rejected + 1 < 2 ^ 32) where
  bad_header : good_header payload ≡ false → IsAccount t payload src_mac s (refuse t payload s)
  unfolding refuse
  bad_header bad =
      let same = append-nil s.events in
      record {
        accepted = ground (arith, bad);
        rejected = ground (arith, bad, hr);
        events = ground (arith, bad, same);
        guests = ground (arith, bad);
        curfew = ground (arith, bad);
        rolodex = ground (arith, bad);
      }

  banned :
      good_header payload ≡ true
      → rule payload s ≡ denied
      → IsAccount t payload src_mac s (reject (notify guestlist_deny (src_ip payload) s))
  banned good e = record {
    accepted = ground (arith, good, e);
    rejected = ground (arith, good, e, hr);
    events = ground (arith, good, e);
    guests = refl;
    curfew = ground (arith, good, e);
    rolodex = ground (arith, good, e);
  }

  favoured :
      good_header payload ≡ true
      → rule payload s ≡ allowed
      → IsAccount t payload src_mac s (admit directory t payload src_mac s).1
  unfolding admit deliver
  favoured good e =
      let same = append-nil s.events in
      record {
        accepted = ground (arith, good, e, ha);
        rejected = ground (arith, good, e, hr);
        events = ground (arith, good, e, same);
        guests = ground (arith, good, e);
        curfew = ground (arith, good, e);
        rolodex = ground (arith, good, e);
      }

  late :
      good_header payload ≡ true
      → rule payload s ≡ no_rule
      → in_time t payload s ≡ false
      → IsAccount t payload src_mac s
          (reject (notify curfew_reject (src_ip payload) (checked directory t payload src_mac s)))
  late good e l = record {
    accepted = ground (arith, good, e, l);
    rejected = ground (arith, good, e, l, hr);
    events = ground (arith, good, e, l);
    guests = refl;
    curfew = ground (arith, good, e, l);
    rolodex = ground (arith, good, e, l);
  }

  timely :
      good_header payload ≡ true
      → rule payload s ≡ no_rule
      → in_time t payload s ≡ true
      → IsAccount t payload src_mac s
          (admit directory t payload src_mac (checked directory t payload src_mac s)).1
  unfolding admit deliver
  timely good e l =
      let same = append-nil s.events in
      record {
        accepted = ground (arith, good, e, l, ha);
        rejected = ground (arith, good, e, l, hr);
        events = ground (arith, good, e, l, same);
        guests = ground (arith, good, e, l);
        curfew = ground (arith, good, e, l);
        rolodex = ground (arith, good, e, l);
      }

  -- A packet is counted once, as accepted or as rejected, and reported by at most one event. It is
  -- accepted exactly when its header is good and there is no objection to its sender: a rule against
  -- it, else the limit of Curfew, which a rule for it lifts, else a dispute in Rolodex. Curfew takes a
  -- strike for a bad header with an address in it, and is asked only of a sender without a rule;
  -- Rolodex learns the address of an accepted packet only; the rules stay. The counters must not wrap
  -- round.
  pub handle-accounts : IsAccount t payload src_mac s (handle directory t payload src_mac s).1
  handle-accounts = elim (Bool-cases (good_header payload)) [
    | inr bad ↦ subst Account (sym (handle-bad directory t payload src_mac s bad)) (bad_header bad)
    | inl good ↦ elim (verdict-cases (rule payload s)) [
      | inr (inr d) ↦
          subst Account (sym (handle-banned directory t payload src_mac s good d)) (banned good d)
      | inr (inl d) ↦
          subst Account (sym (handle-favoured directory t payload src_mac s good d))
            (favoured good d)
      | inl d ↦ elim (Bool-cases (in_time t payload s)) [
        | inr l ↦
            subst Account
              (sym (
                handle-asked directory t payload src_mac s good d
                ∙ ap (after_asked directory t payload src_mac s) l))
              (late good d l)
        | inl l ↦
            subst Account
              (sym (
                handle-asked directory t payload src_mac s good d
                ∙ ap (after_asked directory t payload src_mac s) l))
              (timely good d l)
      ]
    ]
  ]
    where
      Account : Option Delivery × State → Type 0
      Account r = IsAccount t payload src_mac s r.1
