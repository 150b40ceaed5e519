-- ===== src/Networking/Sentry.antt =====
-- Networking/Sentry/sentry.c: the port scan detector. It keeps the last ports that each address
-- asked for, and is to ban an address in GuestList that asks for many. `now` is the tick count that
-- it reads, `ban_now` the one that GuestList reads. The log line is not modelled.
pub mod Silence
mod Hits
mod Examples
use aevros.Base.{
  ℕ, zero, suc, ◌+◌, ◌-◌, ◌%◌, ◌<◌, Bool, true, false, not, ◌&&◌, Option, none, some, List, [], ◌∷◌,
  ◌++◌, map, ltb, leb, ◌==◌, if◌then◌else◌, is_some, bytes_eq, add32, sub32, find, find_index,
  update_first, update_at, count_if, get_or, replicate,
}
use aevros.Networking.GuestList
use aevros.Networking.GuestList.{denied}

abbrev pub capacity : ℕ
capacity = 16

abbrev pub port_history : ℕ
port_history = 8

abbrev pub window_ticks : ℕ
window_ticks = 200

abbrev pub distinct_port_threshold : ℕ
distinct_port_threshold = 6

abbrev pub ban_ticks : ℕ
ban_ticks = 3000

-- `port_hit_t`
pub record Hit : Type 0 where
  pub port : ℕ
  pub tick : ℕ
  pub in_use : Bool

-- `sentry_entry_t`
pub record Entry : Type 0 where
  pub ip : List ℕ
  pub hits : List Hit
  pub in_use : Bool

-- `bans` are the addresses of the `IDS_EVENT_PORT_SCAN_BAN` events, in order.
pub record State : Type 0 where
  pub entries : List Entry
  pub flagged_total : ℕ
  pub guests : List GuestList.Entry
  pub bans : List (List ℕ)

abbrev pub no_hits : List Hit
no_hits = replicate port_history (record { port = 0; tick = 0; in_use = false })

abbrev pub blank : Entry
blank = record { ip = replicate 4 0; hits = no_hits; in_use = false }

abbrev pub zeroed : State
zeroed = record {
  entries = replicate capacity blank;
  flagged_total = 0;
  guests = GuestList.empty;
  bans = [];
}

abbrev pub matches : List ℕ → Entry → Bool
matches ip e = e.in_use && bytes_eq e.ip ip

abbrev pub is_free : Entry → Bool
is_free e = not e.in_use

abbrev pub opened : List ℕ → Entry
opened ip = record { ip = ip; hits = no_hits; in_use = true }

-- The index of the entry of the address, and the table with it.
pub find_or_create : List ℕ → List Entry → Option ℕ × List Entry
find_or_create ip entries = elim (find_index (matches ip) entries) [
  | some i ↦ (some i, entries)
  | none ↦ elim (find_index is_free entries) [
    | some i ↦ (some i, update_at i (λ _. opened ip) entries)
    | none ↦ (none, entries)
  ]
]

-- The first loop of `sentry_observe`.
abbrev pub expire : ℕ → Hit → Hit
expire now h =
    if h.in_use && leb window_ticks (sub32 now h.tick) then record h { in_use = false } else h

abbrev pub is_hit : ℕ → Hit → Bool
is_hit port h = h.in_use && h.port == port

-- The loop that sets `target`, from the slot `i` on.
pub target_from : ℕ → ℕ → Option ℕ → List Hit → Option ℕ
target_from i oldest_tick target [] = target
target_from i oldest_tick target (h ∷ hs) =
    let older = target_from (i + 1) h.tick (some i) hs in
    let past = target_from (i + 1) oldest_tick target hs in
    if h.in_use then some i else if ltb h.tick oldest_tick then older else past

abbrev pub target_of : List Hit → Option ℕ
target_of hits = target_from 0 4294967295 none hits

-- Where all slots have the tick 2 ^ 32 - 1, `target` stays -1 and the code writes before the array:
-- the model has no such slot and leaves the hits.
pub place : ℕ → ℕ → List Hit → List Hit
place now port hits = elim (target_of hits) [
  | none ↦ hits
  | some i ↦ update_at i (λ _. record { port = port; tick = now; in_use = true }) hits
]

-- The hits of an entry after a call, and whether the port is a new one.
pub note : ℕ → ℕ → List Hit → List Hit × Bool
note now port hits =
    let live = map (expire now) hits in
    if is_some (find (is_hit port) live)
    then (update_first (is_hit port) (λ h. record h { tick = now }) live, false)
    else (place now port live, true)

abbrev pub distinct : List Hit → ℕ
distinct hits = count_if (λ h. h.in_use) hits

pub ban : List ℕ → ℕ → State → State
ban ip ban_now s = record s {
  guests = (GuestList.set_timed ban_now ip denied ban_ticks s.guests).0;
  bans = s.bans ++ (ip ∷ []);
  flagged_total = add32 s.flagged_total 1;
}

pub observe_at : ℕ → List ℕ → ℕ → ℕ → ℕ → State → Bool × State
observe_at i ip port now ban_now s =
    let (hits, is_new) = note now port (get_or s.entries i blank).hits in
    let s' = record s { entries = update_at i (λ e. record e { hits = hits }) s.entries } in
    if is_new && leb distinct_port_threshold (distinct hits)
    then (true, ban ip ban_now s')
    else (false, s')

pub observe : List ℕ → ℕ → ℕ → ℕ → State → Bool × State
observe ip port now ban_now s =
    let (slot, entries) = find_or_create ip s.entries in
    elim slot [
      | none ↦ (false, s)
      | some i ↦ observe_at i ip port now ban_now (record s { entries = entries })
    ]
