-- ===== src/Networking/Compass.antt =====
-- Networking/IPv4/Compass/compass.c: the IPv4 input. The modules that it calls are GuestList,
-- Curfew and Rolodex; `State` holds their states with its own counters, and the events that
-- `ids_notify` hands to the hooks, in order. The linker collects the protocol handlers, so the
-- table of their protocols is an argument `directory`; the call of a handler is the result.
-- A byte is below 256, so `(a << 8) | b` is `a * 256 + b`. `length` is the number of bytes received.
pub mod Checksum
pub mod Ways
pub mod Accounts
pub mod Safety
mod Examples
use aevros.Base.{
  ℕ, zero, suc, ◌+◌, ◌*◌, ◌-◌, ◌/◌, ◌%◌, ◌^◌, ◌<◌, Bool, true, false, not, ◌&&◌, ◌||◌, Option, none,
  some, List, [], ◌∷◌, ◌++◌, ltb, leb, ◌==◌, if◌then◌else◌, is_some, bytes_eq, add32, length,
  get_or, take, drop, find,
}
use aevros.Networking.GuestList
use aevros.Networking.GuestList.{no_rule, allowed, denied}
use aevros.Networking.Curfew
use aevros.Networking.Rolodex

-- `ip_verdict_t`
pub data Verdict : Type 0 where
  accept too_short bad_version bad_header_len length_mismatch fragmented bad_checksum : Verdict

-- The `ids_event_type_t` that Compass reports.
pub data Event : Type 0 where
  guestlist_deny curfew_reject rolodex_disputed : Event

-- The call of a protocol handler.
pub record Delivery : Type 0 where
  pub protocol : ℕ
  pub payload : List ℕ
  pub src_ip : List ℕ
  pub dst_ip : List ℕ

pub record State : Type 0 where
  pub guests : List GuestList.Entry
  pub curfew : Curfew.State
  pub rolodex : Rolodex.State
  pub events : List (Event × List ℕ)
  pub accepted : ℕ
  pub rejected : ℕ

-- The tick counts that a call reads.
pub record Clock : Type 0 where
  pub curfew : Curfew.Ticks
  pub now : ℕ
  pub seen : ℕ

abbrev pub min_header : ℕ
min_header = 20

-- The `for` of `checksum_ok`, on what is left of the header; a last odd byte counts as a high one.
-- `sum` is a `uint32_t`.
pub sum_words : List ℕ → ℕ → ℕ
sum_words [] sum = sum
sum_words (a ∷ []) sum = add32 sum (a * 256)
sum_words (a ∷ b ∷ rest) sum = sum_words rest (add32 sum (a * 256 + b))

-- The `while (sum >> 16)`, with `fuel` rounds left.
pub fold : ℕ → ℕ → ℕ
fold zero sum = sum
fold (suc fuel) sum =
    let next = fold fuel (sum % 65536 + sum / 65536) in if sum / 65536 == 0 then sum else next

-- Two rounds fold the sum of a header; 32 bits never take more than three.
pub checksum_ok : List ℕ → Bool
checksum_ok header = fold 3 (sum_words header 0) == 65535

abbrev pub byte : ℕ → List ℕ → ℕ
byte i payload = get_or payload i 0

abbrev pub version : List ℕ → ℕ
version payload = byte 0 payload / 16

abbrev pub header_len : List ℕ → ℕ
header_len payload = byte 0 payload % 16 * 4

abbrev pub total_len : List ℕ → ℕ
total_len payload = byte 2 payload * 256 + byte 3 payload

abbrev pub flags_frag : List ℕ → ℕ
flags_frag payload = byte 6 payload * 256 + byte 7 payload

abbrev pub is_fragment : List ℕ → Bool
is_fragment payload =
    not (flags_frag payload % 8192 == 0) || not (flags_frag payload / 8192 % 2 == 0)

pub check : List ℕ → Verdict
check payload =
    if ltb (length payload) min_header
    then too_short
    else if not (version payload == 4)
    then bad_version
    else if ltb (byte 0 payload % 16) 5
    then bad_header_len
    else if ltb (length payload) (header_len payload)
    then bad_header_len
    else if ltb (length payload) (total_len payload)
    then length_mismatch
    else if ltb (total_len payload) (header_len payload)
    then length_mismatch
    else if is_fragment payload
    then fragmented
    else if not (checksum_ok (take (header_len payload) payload))
    then bad_checksum
    else accept

abbrev pub src_ip : List ℕ → List ℕ
src_ip payload = take 4 (drop 12 payload)

abbrev pub dst_ip : List ℕ → List ℕ
dst_ip payload = take 4 (drop 16 payload)

abbrev pub reject : State → State
reject s = record s { rejected = add32 s.rejected 1 }

abbrev pub notify : Event → List ℕ → State → State
notify event ip s = record s { events = s.events ++ ((event, ip) ∷ []) }

-- What `compass_handle` does with a packet that `compass_check` rejects.
pub refuse : Clock → List ℕ → State → State
refuse t payload s = reject (
    if leb 20 (length payload)
    then record s { curfew = Curfew.strike (src_ip payload) t.curfew s.curfew }
    else s)

-- The search of the handler, and the arguments of its call.
pub dispatch : List ℕ → List ℕ → Option Delivery
dispatch directory payload =
    if is_some (find (λ p. p == byte 9 payload) directory)
    then some (record {
      protocol = byte 9 payload;
      payload = take (total_len payload - header_len payload) (drop (header_len payload) payload);
      src_ip = src_ip payload;
      dst_ip = dst_ip payload;
    })
    else none

-- From `rolodex_learn` on.
pub deliver : List ℕ → Clock → List ℕ → List ℕ → State → Option Delivery × State
deliver directory t payload src_mac s = (
  dispatch directory payload,
  record s {
    rolodex = Rolodex.learn (src_ip payload) src_mac t.now t.seen s.rolodex;
    accepted = add32 s.accepted 1;
  },
)

-- From `rolodex_disputed` on.
pub admit : List ℕ → Clock → List ℕ → List ℕ → State → Option Delivery × State
admit directory t payload src_mac s =
    if Rolodex.is_disputed (src_ip payload) s.rolodex
    then (none, reject (notify rolodex_disputed (src_ip payload) s))
    else deliver directory t payload src_mac s

-- The verdict of `curfew_check`, which an allowed source does not ask for.
pub ask_curfew : Clock → List ℕ → State → Bool × State
ask_curfew t payload s = elim (GuestList.check (src_ip payload) s.guests) [
  | allowed ↦ (true, s)
  | denied ↦ (true, s)
  | no_rule ↦ (
    (Curfew.check (src_ip payload) t.curfew s.curfew).0,
    record s { curfew = (Curfew.check (src_ip payload) t.curfew s.curfew).1 },
  )
]

pub is_denied : List ℕ → State → Bool
is_denied payload s = elim (GuestList.check (src_ip payload) s.guests) [
  | denied ↦ true
  | allowed ↦ false
  | no_rule ↦ false
]

abbrev pub is_accept : Verdict → Bool
is_accept accept = true
is_accept too_short = false
is_accept bad_version = false
is_accept bad_header_len = false
is_accept length_mismatch = false
is_accept fragmented = false
is_accept bad_checksum = false

pub handle : List ℕ → Clock → List ℕ → List ℕ → State → Option Delivery × State
handle directory t payload src_mac s =
    let (in_time, s') = ask_curfew t payload s in
    if not (is_accept (check payload))
    then (none, refuse t payload s)
    else if is_denied payload s
    then (none, reject (notify guestlist_deny (src_ip payload) s))
    else if not in_time
    then (none, reject (notify curfew_reject (src_ip payload) s'))
    else admit directory t payload src_mac s'
