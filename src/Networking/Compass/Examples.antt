-- ===== src/Networking/Compass/Examples.antt =====
-- A packet through Compass.
use aevros.Base.{ℕ, ◌%◌, ◌≡◌, refl, not, ◌&&◌, List, [], ◌∷◌, arith, ◌==◌, take, find, bytes_eq}
use aevros.Networking.GuestList
use aevros.Networking.Curfew
use aevros.Networking.Rolodex
use aevros.Networking.Compass.{
  State, Clock, Delivery, check, handle, refuse, deliver, admit, ask_curfew, is_denied, dispatch,
  checksum_ok, sum_words, fold,
}
use aevros.Networking.Compass.Checksum.{total, checksum_ok-total, are_bytes, are_bytes-AreBytes}
use aevros.Networking.Compass.Accounts.{IsAccount, handle-accounts}
use aevros.Networking.Compass.Safety.{IsDelivery, handle-IsDelivery}

-- One byte of UDP data from 10.0.2.2 to 10.0.2.15.
abbrev packet : List ℕ
packet =
    69 ∷ 0 ∷ 0 ∷ 21 ∷ 0 ∷ 1 ∷ 0 ∷ 0 ∷ 64 ∷ 17 ∷ 98 ∷ 199 ∷ 10 ∷ 0 ∷ 2 ∷ 2 ∷ 10 ∷ 0 ∷ 2 ∷ 15 ∷ 99
    ∷ []

abbrev mac : List ℕ
mac = 82 ∷ 85 ∷ 10 ∷ 0 ∷ 2 ∷ 2 ∷ []

abbrev started : State
started = record {
  guests = GuestList.empty;
  curfew = Curfew.zeroed;
  rolodex = Rolodex.zeroed;
  events = [];
  accepted = 0;
  rejected = 0;
}

abbrev clock : Clock
clock = record { curfew = record { start = 5; seen = 5; now = 5 }; now = 5; seen = 6 }

abbrev protocols : List ℕ
protocols = 1 ∷ 6 ∷ 17 ∷ []

checksum_ok-total_example :
    checksum_ok (take 20 packet)
    ≡ (total (take 20 packet) % 65535 == 0 && not (total (take 20 packet) == 0))
unfolding are_bytes
checksum_ok-total_example =
    checksum_ok-total (take 20 packet) (are_bytes-AreBytes (take 20 packet) refl) (omega arith)

handle-accounts_example :
    IsAccount clock packet mac started (handle protocols clock packet mac started).1
handle-accounts_example =
    handle-accounts protocols clock packet mac started (omega arith) (omega arith)

abbrev sent : Delivery
sent = record {
  protocol = 17;
  payload = 99 ∷ [];
  src_ip = 10 ∷ 0 ∷ 2 ∷ 2 ∷ [];
  dst_ip = 10 ∷ 0 ∷ 2 ∷ 15 ∷ [];
}

handle-IsDelivery_example : IsDelivery clock packet started sent
unfolding handle refuse deliver admit ask_curfew is_denied dispatch check checksum_ok sum_words fold
    find bytes_eq GuestList.check GuestList.find_entry Curfew.check Curfew.find_or_create
    Curfew.scan Curfew.check_at Curfew.target Curfew.next_free Curfew.next_oldest Curfew.roll_window
    Rolodex.is_disputed Rolodex.find_entry
handle-IsDelivery_example = handle-IsDelivery protocols clock packet mac started sent refl
