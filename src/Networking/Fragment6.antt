-- ===== src/Networking/Fragment6.antt =====
-- Networking/IPv6/Fragment6/fragment6.c: the reassembly of IPv6 packets from fragments. The bitmap
-- of the units of 8 bytes is the list of its 256 bits. A fragment is the list of its bytes from the
-- fragment header on, `now` the tick count. The log lines are not modelled.
pub mod Step
pub mod Good
pub mod Whole
pub mod Packet
pub mod Two
mod Examples
use aevros.Base.{
  ℕ, zero, suc, ◌+◌, ◌-◌, ◌*◌, ◌/◌, ◌%◌, ◌^◌, Bool, true, false, not, ◌&&◌, ◌||◌, Option, none,
  some, List, [], ◌∷◌, ◌++◌, map, ltb, leb, ◌==◌, if◌then◌else◌, is_some, bytes_eq, add32, sub32,
  find_index, update_at, get_or, set, take, drop, length, replicate,
}

abbrev pub max_reassemblies : ℕ
max_reassemblies = 4

abbrev pub max_total_bytes : ℕ
max_total_bytes = 2048

abbrev pub timeout_ticks : ℕ
timeout_ticks = 500

abbrev pub units : ℕ
units = 256

-- `reassembly_t`
pub record Slot : Type 0 where
  pub src_ip : List ℕ
  pub dst_ip : List ℕ
  pub id : ℕ
  pub next_header : ℕ
  pub buf : List ℕ
  pub unit_bitmap : List Bool
  pub total_len : ℕ
  pub have_last : Bool
  pub created_tick : ℕ
  pub in_use : Bool

pub record State : Type 0 where
  pub slots : List Slot
  pub completed_count : ℕ
  pub overlap_count : ℕ
  pub timeout_count : ℕ

abbrev pub no_units : List Bool
no_units = replicate units false

abbrev pub blank : Slot
blank = record {
  src_ip = replicate 16 0;
  dst_ip = replicate 16 0;
  id = 0;
  next_header = 0;
  buf = replicate max_total_bytes 0;
  unit_bitmap = no_units;
  total_len = 0;
  have_last = false;
  created_tick = 0;
  in_use = false;
}

abbrev pub zeroed : State
zeroed = record {
  slots = replicate max_reassemblies blank;
  completed_count = 0;
  overlap_count = 0;
  timeout_count = 0;
}

abbrev pub bit_test : List Bool → ℕ → Bool
bit_test bitmap unit = get_or bitmap unit false

-- `for (i = start; ...)` with `n` rounds.
unfoldable pub range_overlaps : List Bool → ℕ → ℕ → Bool
range_overlaps bitmap start zero = false
range_overlaps bitmap start (suc n) =
    let rest = range_overlaps bitmap (start + 1) n in if bit_test bitmap start then true else rest

unfoldable pub set_range : List Bool → ℕ → ℕ → List Bool
set_range bitmap start zero = bitmap
set_range bitmap start (suc n) = set_range (set bitmap start true) (start + 1) n

-- The `n` units from `start` on are there.
unfoldable pub all_set : List Bool → ℕ → ℕ → Bool
all_set bitmap start zero = true
all_set bitmap start (suc n) =
    let rest = all_set bitmap (start + 1) n in if not (bit_test bitmap start) then false else rest

-- What a fragment belongs to.
pub record Key : Type 0 where
  pub src_ip : List ℕ
  pub dst_ip : List ℕ
  pub id : ℕ

abbrev pub matches : Key → Slot → Bool
matches k s = s.in_use && s.id == k.id && bytes_eq s.src_ip k.src_ip && bytes_eq s.dst_ip k.dst_ip

abbrev pub is_free : Slot → Bool
is_free s = not s.in_use

abbrev pub abort_slot : Slot → Slot
abort_slot s = record s { in_use = false }

-- A fragment after its header is read.
pub record Fragment : Type 0 where
  pub next_header : ℕ
  pub offset_units : ℕ
  pub more : Bool
  pub bytes : List ℕ

abbrev pub offset_bytes : Fragment → ℕ
offset_bytes f = f.offset_units * 8 % 2 ^ 16

abbrev pub byte : ℕ → List ℕ → ℕ
byte i bs = get_or bs i 0

abbrev pub parse : List ℕ → Fragment
parse header = record {
  next_header = byte 0 header;
  offset_units = (byte 2 header * 256 + byte 3 header) / 8;
  more = (byte 2 header * 256 + byte 3 header) % 2 == 1;
  bytes = drop 8 header;
}

abbrev pub id_of : List ℕ → ℕ
id_of header =
    byte 4 header * 2 ^ 24 + byte 5 header * 2 ^ 16 + byte 6 header * 2 ^ 8 + byte 7 header

abbrev pub opened : Key → ℕ → ℕ → Slot → Slot
opened k next_header now s = record s {
  src_ip = k.src_ip;
  dst_ip = k.dst_ip;
  id = k.id;
  next_header = next_header;
  unit_bitmap = no_units;
  total_len = 0;
  have_last = false;
  created_tick = now;
  in_use = true;
}

-- The first unit after the fragment.
abbrev pub end_unit : Fragment → ℕ
end_unit f =
    let end = (offset_bytes f + length f.bytes + 7) / 8 in if ltb units end then units else end

-- `memcpy(buf + offset, data, len)`
abbrev pub overwrite : ℕ → List ℕ → List ℕ → List ℕ
overwrite o bytes buf = take o buf ++ (bytes ++ drop (o + length bytes) buf)

abbrev pub filled : Fragment → Slot → Slot
filled f s = record s {
  buf = overwrite (offset_bytes f) f.bytes s.buf;
  unit_bitmap = set_range s.unit_bitmap f.offset_units (end_unit f - f.offset_units);
}

-- What is delivered: the next header and the bytes.
abbrev pub Delivery : Type 0
Delivery = Option (ℕ × List ℕ)

-- A slot after a fragment: what it delivers, whether an overlap was counted, and the slot.
pub record Taken : Type 0 where
  pub delivery : Delivery
  pub overlap : Bool
  pub slot : Slot

-- From `if (!s->have_last)` on.
unfoldable pub finish : Slot → Taken
finish s =
    if not s.have_last
    then record { delivery = none; overlap = false; slot = s }
    else if not (all_set s.unit_bitmap 0 ((s.total_len + 7) / 8))
    then record { delivery = none; overlap = false; slot = s }
    else record {
      delivery = some (s.next_header, take s.total_len s.buf);
      overlap = false;
      slot = abort_slot s;
    }

-- From `if (!more_fragments)` on.
unfoldable pub conclude : Fragment → Slot → Taken
conclude f s =
    let last = record s {
      have_last = true;
      total_len = (offset_bytes f + length f.bytes) % 2 ^ 16;
    } in
    if f.more
    then finish s
    else if s.have_last
    then record { delivery = none; overlap = false; slot = abort_slot s }
    else finish last

-- From the overlap check on.
unfoldable pub add : Fragment → Slot → Taken
add f s =
    if range_overlaps s.unit_bitmap f.offset_units (end_unit f - f.offset_units)
    then record { delivery = none; overlap = true; slot = abort_slot s }
    else conclude f (filled f s)

abbrev pub put : ℕ → Slot → State → State
put i s st = record st { slots = update_at i (λ _. s) st.slots }

unfoldable pub settle : ℕ → Taken → State → Delivery × State
settle i t st = (
  t.delivery,
  record (put i t.slot st) {
    overlap_count = if t.overlap then add32 st.overlap_count 1 else st.overlap_count;
    completed_count = if is_some t.delivery then add32 st.completed_count 1 else st.completed_count;
  },
)

-- A fragment of a packet whose slot is `i`.
unfoldable pub join : ℕ → Fragment → Slot → State → Delivery × State
join i f s st =
    if not (s.next_header == f.next_header)
    then (none, put i (abort_slot s) st)
    else settle i (add f s) st

-- A fragment of a new packet.
unfoldable pub begin : Key → Fragment → ℕ → Option ℕ → State → Delivery × State
begin k f now none st = (none, st)
begin k f now (some i) st =
    settle i (add f (opened k f.next_header now (get_or st.slots i blank))) st

unfoldable pub place : Key → Fragment → ℕ → Option ℕ → State → Delivery × State
place k f now none st = begin k f now (find_index is_free st.slots) st
place k f now (some i) st = join i f (get_or st.slots i blank) st

pub drop_existing : Option ℕ → State → State
drop_existing none st = st
drop_existing (some i) st = put i (abort_slot (get_or st.slots i blank)) st

unfoldable pub accept : Key → Fragment → ℕ → State → Delivery × State
accept k f now st =
    let slot = find_index (matches k) st.slots in
    if f.more && not (length f.bytes % 8 == 0)
    then (none, st)
    else if ltb max_total_bytes (offset_bytes f + length f.bytes)
    then (none, drop_existing slot st)
    else place k f now slot st

-- `fragment6_receive`
unfoldable pub receive : List ℕ → List ℕ → List ℕ → ℕ → State → Delivery × State
receive src_ip dst_ip header now st =
    if ltb (length header) 8
    then (none, st)
    else accept (record { src_ip = src_ip; dst_ip = dst_ip; id = id_of header }) (parse header) now
        st

abbrev pub is_old : ℕ → Slot → Bool
is_old now s = s.in_use && ltb timeout_ticks (sub32 now s.created_tick)

pub count_old : ℕ → List Slot → ℕ
count_old now [] = 0
count_old now (s ∷ slots) =
    let rest = count_old now slots in if is_old now s then rest + 1 else rest

pub tick : ℕ → State → State
tick now st = record st {
  slots = map (λ s. if is_old now s then abort_slot s else s) st.slots;
  timeout_count = add32 st.timeout_count (count_old now st.slots);
}
