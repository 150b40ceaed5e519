-- ===== src/Networking/Menu.antt =====
-- Networking/Menu/menu.c: the set of open ports. The static array `entries` is the argument and
-- result of each operation.
pub mod Ports
mod Examples
use aevros.Base.{
  ℕ, Bool, true, false, not, ◌&&◌, List, ◌==◌, if◌then◌else◌, is_some, find, update_first, count_if,
  replicate,
}

-- `menu_entry_t`
pub record Entry : Type 0 where
  pub port : ℕ
  pub protocol : ℕ
  pub in_use : Bool

abbrev pub capacity : ℕ
capacity = 32

abbrev pub blank : Entry
blank = record { port = 0; protocol = 0; in_use = false }

-- The zeroed static array.
abbrev pub empty : List Entry
empty = replicate capacity blank

-- The test of `menu_find_entry`.
abbrev pub serves : ℕ → ℕ → Entry → Bool
serves port protocol e = e.in_use && (e.protocol == protocol && e.port == port)

abbrev pub is_free : Entry → Bool
is_free e = not e.in_use

pub is_open : ℕ → ℕ → List Entry → Bool
is_open port protocol entries = is_some (find (serves port protocol) entries)

-- The new array and the `int` returned.
pub open_port : ℕ → ℕ → List Entry → List Entry × Bool
open_port port protocol entries =
    if is_some (find (serves port protocol) entries)
    then (entries, true)
    else if is_some (find is_free entries)
    then (
      update_first is_free (λ e. record e { port = port; protocol = protocol; in_use = true })
          entries,
      true,
    )
    else (entries, false)

pub close_port : ℕ → ℕ → List Entry → List Entry
close_port port protocol entries =
    update_first (serves port protocol) (λ e. record e { in_use = false }) entries

pub count : List Entry → ℕ
count entries = count_if (λ e. e.in_use) entries
