-- ===== src/Networking/Rolodex.antt =====
-- Networking/IPv4/Rolodex/rolodex.c: the ARP cache. The static variables are the record `State`;
-- the tick count is read once by the expiry (`now`) and once for `last_seen` (`seen`). The flags are
-- Booleans, and the log lines are not modelled.
pub mod Learn
mod Examples
use aevros.Base.{
  ℕ, zero, suc, ◌+◌, ◌*◌, ◌-◌, ◌%◌, ◌<◌, Bool, true, false, not, ◌&&◌, ◌||◌, Option, none, some,
  List, [], ◌∷◌, ◌++◌, map, ltb, leb, ◌==◌, if◌then◌else◌, is_some, bytes_eq, add32, sub32, find,
  update_first, count_if, replicate, length, get_or, take, drop,
}

abbrev pub capacity : ℕ
capacity = 32

abbrev pub packet_size : ℕ
packet_size = 28

abbrev pub request : ℕ
request = 1

abbrev pub reply : ℕ
reply = 2

abbrev pub timeout_ticks : ℕ
timeout_ticks = 6000

pub record Entry : Type 0 where
  pub ip : List ℕ
  pub mac : List ℕ
  pub last_seen : ℕ
  pub in_use : Bool
  pub disputed : Bool

pub record State : Type 0 where
  pub book : List Entry
  pub contradictions : ℕ
  pub our_ip : List ℕ
  pub have_our_ip : Bool
  pub pending_reply : Bool
  pub pending_requester_mac : List ℕ
  pub pending_requester_ip : List ℕ

abbrev pub blank : Entry
blank = record {
  ip = replicate 4 0;
  mac = replicate 6 0;
  last_seen = 0;
  in_use = false;
  disputed = false;
}

abbrev pub zeroed : State
zeroed = record {
  book = replicate capacity blank;
  contradictions = 0;
  our_ip = replicate 4 0;
  have_our_ip = false;
  pending_reply = false;
  pending_requester_mac = replicate 6 0;
  pending_requester_ip = replicate 4 0;
}

abbrev pub matches : List ℕ → Entry → Bool
matches ip e = e.in_use && bytes_eq e.ip ip

abbrev pub is_free : Entry → Bool
is_free e = not e.in_use

unfoldable pub find_entry : List ℕ → List Entry → Option Entry
find_entry ip book = find (matches ip) book

-- One round of the loop of `expire_stale_entries`.
abbrev pub forget : ℕ → Entry → Entry
forget now e =
    if e.in_use && ltb timeout_ticks (sub32 now e.last_seen)
    then record e { in_use = false; disputed = false }
    else e

abbrev pub expire_stale_entries : ℕ → List Entry → List Entry
expire_stale_entries now book = map (forget now) book

pub set_ip : List ℕ → State → State
set_ip ip s = record s { our_ip = ip; have_our_ip = true }

abbrev pub dispute : Entry → Entry
dispute e = record e { disputed = true }

abbrev pub refresh : ℕ → Entry → Entry
refresh seen e = record e { last_seen = seen }

abbrev pub fill : List ℕ → List ℕ → ℕ → Entry → Entry
fill ip mac seen e = record {
  ip = ip;
  mac = mac;
  last_seen = seen;
  in_use = true;
  disputed = false;
}

unfoldable pub learn_or_dispute : List ℕ → List ℕ → ℕ → ℕ → State → State
learn_or_dispute ip mac now seen s =
    let book = expire_stale_entries now s.book in
    elim (find_entry ip book) [
      | none ↦ record s { book = update_first is_free (fill ip mac seen) book }
      | some existing ↦
          if not (bytes_eq existing.mac mac)
          then record s {
            book = update_first (matches ip) dispute book;
            contradictions = add32 s.contradictions 1;
          }
          else record s { book = update_first (matches ip) (refresh seen) book }
    ]

abbrev pub learn : List ℕ → List ℕ → ℕ → ℕ → State → State
learn ip mac now seen s = learn_or_dispute ip mac now seen s

-- `n` bytes of the packet from `at` on.
abbrev pub field : ℕ → ℕ → List ℕ → List ℕ
field at n payload = take n (drop at payload)

abbrev pub opcode : List ℕ → ℕ
opcode payload = get_or payload 6 0 * 256 + get_or payload 7 0

-- The end of `rolodex_handle`: a request for our address leaves a reply to build.
pub note_request : List ℕ → State → State
note_request payload s =
    if opcode payload == request && s.have_our_ip && bytes_eq (field 24 4 payload) s.our_ip
    then record s {
      pending_reply = true;
      pending_requester_ip = field 14 4 payload;
      pending_requester_mac = field 8 6 payload;
    }
    else s

pub handle : List ℕ → List ℕ → ℕ → ℕ → State → State
handle payload src_mac now seen s =
    if not (length payload == packet_size)
    then s
    else if not (bytes_eq (field 8 6 payload) src_mac)
    then s
    else note_request payload (learn_or_dispute (field 14 4 payload) (field 8 6 payload) now seen s)

-- The bytes before the four addresses.
abbrev pub arp_head : ℕ → List ℕ
arp_head op = 0 ∷ 1 ∷ 8 ∷ 0 ∷ 6 ∷ 4 ∷ 0 ∷ op ∷ []

pub build_reply : List ℕ → State → Option (List ℕ) × State
build_reply our_mac s = if not s.pending_reply then (none, s) else (
  some (arp_head reply ++ our_mac ++ s.our_ip ++ s.pending_requester_mac ++ s.pending_requester_ip),
  record s { pending_reply = false },
)

unfoldable pub is_disputed : List ℕ → State → Bool
is_disputed ip s = elim (find_entry ip s.book) [ none ↦ false | some e ↦ e.disputed ]

unfoldable pub lookup : List ℕ → State → Option (List ℕ)
lookup ip s = elim (find_entry ip s.book) [ none ↦ none | some e ↦ some e.mac ]

-- The frame of `rolodex_dispatch_request`, which goes to the Bailiff.
pub request_frame : List ℕ → List ℕ → State → Option (List ℕ)
request_frame target_ip our_mac s =
    if not s.have_our_ip
    then none
    else some (
        replicate 6 255
        ++ our_mac
        ++ (8 ∷ 6 ∷ [])
        ++ arp_head request
        ++ our_mac
        ++ s.our_ip
        ++ replicate 6 0
        ++ target_ip)

abbrev pub count : State → ℕ
count s = count_if (λ e. e.in_use) s.book
