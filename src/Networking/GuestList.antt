-- ===== src/Networking/GuestList.antt =====
-- Networking/GuestList/guestlist.c: the allow and deny rules by source address. The static array
-- `entries` is the argument and result of each operation; `get_ticks()` is the argument `now`.
-- An address is the list of its bytes.
pub mod Lookup
pub mod Unique
pub mod Expiry
mod Examples
use aevros.Base.{
  ℕ, ◌≡◌, Bool, true, false, not, ◌&&◌, ◌||◌, Option, none, some, List, [], ◌∷◌, map, leb, ◌==◌,
  if◌then◌else◌, is_some, bytes_eq, add32, find, update_first, count_if, replicate,
}

-- `guestlist_verdict_t`
pub data Verdict : Type 0 where
  no_rule allowed denied : Verdict

-- `guestlist_entry_t`; `expires_at_tick` 0 is "never".
pub record Entry : Type 0 where
  pub ip : List ℕ
  pub action : Verdict
  pub expires_at_tick : ℕ
  pub in_use : Bool

abbrev pub capacity : ℕ
capacity = 32

-- The zeroed static array.
abbrev pub blank : Entry
blank = record { ip = 0 ∷ 0 ∷ 0 ∷ 0 ∷ []; action = no_rule; expires_at_tick = 0; in_use = false }

abbrev pub empty : List Entry
empty = replicate capacity blank

abbrev pub matches : List ℕ → Entry → Bool
matches ip e = e.in_use && bytes_eq e.ip ip

abbrev pub is_free : Entry → Bool
is_free e = not e.in_use

unfoldable pub find_entry : List ℕ → List Entry → Option Entry
find_entry ip entries = find (matches ip) entries

-- The result of `guestlist_set` is the new array and the `int` that it returns.
pub set : List ℕ → Verdict → List Entry → List Entry × Bool
unfolding find_entry
set ip action entries =
    if is_some (find_entry ip entries)
    then (update_first (matches ip) (λ e. record e { action = action }) entries, true)
    else if is_some (find is_free entries)
    then (
      update_first is_free (λ e. record e { ip = ip; action = action; in_use = true }) entries,
      true,
    )
    else (entries, false)

pub clear : List ℕ → List Entry → List Entry
clear ip entries = update_first (matches ip) (λ e. record e { in_use = false }) entries

abbrev pub verdict_of : Option Entry → Verdict
verdict_of none = no_rule
verdict_of (some e) = e.action

unfoldable pub check : List ℕ → List Entry → Verdict
unfolding find_entry
check ip entries = verdict_of (find_entry ip entries)

-- `e->expires_at_tick = ...` writes through the pointer that the second scan returns.
pub set_timed : ℕ → List ℕ → Verdict → ℕ → List Entry → List Entry × Bool
set_timed now ip action duration_ticks entries =
    let (entries', done) = set ip action entries in
    if done
    then (
      update_first (matches ip) (λ e. record e { expires_at_tick = add32 now duration_ticks })
          entries',
      true,
    )
    else (entries', false)

-- One round of the loop of `guestlist_tick`.
abbrev pub expire : ℕ → Entry → Entry
expire now e =
    if not e.in_use || e.expires_at_tick == 0
    then e
    else if leb e.expires_at_tick now
    then record e { in_use = false }
    else e

pub tick : ℕ → List Entry → List Entry
tick now entries = map (expire now) entries

pub count : List Entry → ℕ
count entries = count_if (λ e. e.in_use) entries
