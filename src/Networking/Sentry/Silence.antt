-- ===== src/Networking/Sentry/Silence.antt =====
-- The detector never bans: a new port takes the place of one that is still live.
use aevros.Base.{
  ℕ, zero, suc, ◌≤◌, ◌≡◌, refl, Bool, false, Option, none, some, List, [], ◌∷◌, arith, find_index,
  update_at, count_if, get_or, All, All-update_at, All-replicate,
}
use aevros.Networking.GuestList
use aevros.Networking.Sentry.{
  Entry, State, blank, zeroed, opened, matches, is_free, find_or_create, note, distinct, observe_at,
  observe,
}
use aevros.Networking.Sentry.Hits.{count-note}

-- At most one port of the entry is live.
abbrev pub IsSingle : Entry → Type 0
IsSingle e = distinct e.hits ≤ 1

get-IsSingle : (i : ℕ) (es : List Entry) → All IsSingle es → distinct (get_or es i blank).hits ≤ 1
unfolding count_if
get-IsSingle i [] a = omega arith
get-IsSingle zero (e ∷ es) a = a.0
get-IsSingle (suc i) (e ∷ es) a = get-IsSingle i es a.1

opened-IsSingle : (ip : List ℕ) → IsSingle (opened ip)
unfolding count_if
opened-IsSingle ip = omega arith

taken : List ℕ → List Entry → Option ℕ → Option ℕ × List Entry
taken ip es none = (none, es)
taken ip es (some i) = (some i, update_at i (λ _. opened ip) es)

found : List ℕ → List Entry → Option ℕ → Option ℕ × List Entry
found ip es none = taken ip es (find_index is_free es)
found ip es (some i) = (some i, es)

find_or_create_shape :
    (ip : List ℕ) (es : List Entry)
    → find_or_create ip es ≡ found ip es (find_index (matches ip) es)
unfolding find_or_create found taken
find_or_create_shape ip es = ground arith

taken-IsSingle :
    (ip : List ℕ) (es : List Entry) (o : Option ℕ)
    → All IsSingle es
    → All IsSingle (taken ip es o).1
unfolding taken
taken-IsSingle ip es none a = a
taken-IsSingle ip es (some i) a =
    All-update_at IsSingle i (λ _. opened ip) es (λ e h k. opened-IsSingle ip) a

found-IsSingle :
    (ip : List ℕ) (es : List Entry) (o : Option ℕ)
    → All IsSingle es
    → All IsSingle (found ip es o).1
unfolding found
found-IsSingle ip es none a = taken-IsSingle ip es (find_index is_free es) a
found-IsSingle ip es (some i) a = a

find_or_create-IsSingle :
    (ip : List ℕ) (es : List Entry) → All IsSingle es → All IsSingle (find_or_create ip es).1
find_or_create-IsSingle ip es a =
    rw (find_or_create_shape ip es) (found-IsSingle ip es (find_index (matches ip) es) a)

-- No address is flagged, and no ban is in the record.
pub record IsSilent (s : State) : Type 0 where
  pub single : All IsSingle s.entries
  pub no_flags : s.flagged_total ≡ 0
  pub no_bans : s.bans ≡ []

abbrev noted : ℕ → ℕ → ℕ → State → State
noted i port now s = record s {
  entries =
      update_at i (λ e. record e { hits = (note now port (get_or s.entries i blank).hits).0 })
        s.entries;
}

observe_at_shape :
    (i : ℕ) (ip : List ℕ) (port now ban_now : ℕ) (s : State)
    → distinct (note now port (get_or s.entries i blank).hits).0 ≤ 1
    → observe_at i ip port now ban_now s ≡ (false, noted i port now s)
unfolding observe_at
observe_at_shape i ip port now ban_now s few = ground (arith, few)

noted-IsSilent :
    (i port now : ℕ) (s : State)
    → IsSilent s
    → distinct (note now port (get_or s.entries i blank).hits).0 ≤ 1
    → IsSilent (noted i port now s)
noted-IsSilent i port now s h few = record {
  single = All-update_at IsSingle i _ s.entries (λ e at k. few) h.single;
  no_flags = h.no_flags;
  no_bans = h.no_bans;
}

-- What a silent call does: it answers 0, and leaves GuestList alone.
pub record IsQuiet (s : State) (r : Bool × State) : Type 0 where
  pub silent : IsSilent r.1
  pub answers_0 : r.0 ≡ false
  pub same_guests : r.1.guests ≡ s.guests

observe_at-IsQuiet :
    (i : ℕ) (ip : List ℕ) (port now ban_now : ℕ) (s : State)
    → IsSilent s
    → IsQuiet s (observe_at i ip port now ban_now s)
observe_at-IsQuiet i ip port now ban_now s h =
    let few =
      count-note now port (get_or s.entries i blank).hits (get-IsSingle i s.entries h.single) in
    rw (observe_at_shape i ip port now ban_now s few)
      (record { silent = noted-IsSilent i port now s h few; answers_0 = refl; same_guests = refl })

observed : List ℕ → ℕ → ℕ → ℕ → State → Option ℕ × List Entry → Bool × State
observed ip port now ban_now s (none, es) = (false, s)
observed ip port now ban_now s (some i, es) =
    observe_at i ip port now ban_now (record s { entries = es })

observe_shape :
    (ip : List ℕ) (port now ban_now : ℕ) (s : State)
    → observe ip port now ban_now s ≡ observed ip port now ban_now s (find_or_create ip s.entries)
unfolding observe observed
observe_shape ip port now ban_now s = ground arith

observed-IsQuiet :
    (ip : List ℕ) (port now ban_now : ℕ) (s : State) (slot : Option ℕ × List Entry)
    → IsSilent s
    → All IsSingle slot.1
    → IsQuiet s (observed ip port now ban_now s slot)
unfolding observed
observed-IsQuiet ip port now ban_now s (none, es) h a = record {
  silent = h;
  answers_0 = refl;
  same_guests = refl;
}
observed-IsQuiet ip port now ban_now s (some i, es) h a =
    let q =
      observe_at-IsQuiet i ip port now ban_now (record s { entries = es })
        (record { single = a; no_flags = h.no_flags; no_bans = h.no_bans }) in
    record { silent = q.silent; answers_0 = q.answers_0; same_guests = q.same_guests }

observe-IsQuiet :
    (ip : List ℕ) (port now ban_now : ℕ) (s : State)
    → IsSilent s
    → IsQuiet s (observe ip port now ban_now s)
observe-IsQuiet ip port now ban_now s h = rw (observe_shape ip port now ban_now s) (
    observed-IsQuiet ip port now ban_now s (find_or_create ip s.entries) h
      (find_or_create-IsSingle ip s.entries h.single))

-- A packet for a port of ours, at a tick count, or a change of GuestList by another part.
pub data Event : Type 0 where
  asks : List ℕ → ℕ → ℕ → ℕ → Event
  guests_become : List GuestList.Entry → Event

unfoldable pub watch : State → List Event → State
watch s [] = s
watch s (asks ip port now ban_now ∷ es) = watch (observe ip port now ban_now s).1 es
watch s (guests_become g ∷ es) = watch (record s { guests = g }) es

watch-IsSilent : (s : State) (events : List Event) → IsSilent s → IsSilent (watch s events)
unfolding watch
watch-IsSilent s [] h = h
watch-IsSilent s (asks ip port now ban_now ∷ es) h =
    watch-IsSilent (observe ip port now ban_now s).1 es
      (observe-IsQuiet ip port now ban_now s h).silent
watch-IsSilent s (guests_become g ∷ es) h =
    watch-IsSilent (record s { guests = g }) es
      (record { single = h.single; no_flags = h.no_flags; no_bans = h.no_bans })

zeroed-IsSilent : IsSilent zeroed
unfolding count_if
zeroed-IsSilent = record {
  single = All-replicate IsSingle 16 blank (omega arith);
  no_flags = refl;
  no_bans = refl;
}

-- From the zeroed state, after any packets at any ticks and any changes of GuestList, whatever port
-- an address asks for next: the detector answers 0, leaves GuestList as it is, has flagged no
-- address and reported no ban. So an address that asks for many ports is never banned.
pub watch-observe_silent :
    (events : List Event) (ip : List ℕ) (port now ban_now : ℕ)
    → IsQuiet (watch zeroed events) (observe ip port now ban_now (watch zeroed events))
watch-observe_silent events ip port now ban_now =
    observe-IsQuiet ip port now ban_now _ (watch-IsSilent zeroed events zeroed-IsSilent)
