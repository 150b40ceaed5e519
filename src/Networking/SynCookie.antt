-- ===== src/Networking/SynCookie.antt =====
-- Networking/SynCookie/syncookie.c and Networking/Lottery/lottery.c: the numbers that stand for a
-- connection that is not kept yet, and the initial sequence numbers. A reading of `get_ticks` is an
-- argument. An address is its four bytes, and an exclusive or is `bit_xor`.
pub mod Window
mod Examples
use aevros.Base.{
  ℕ, ◌+◌, ◌*◌, ◌/◌, ◌%◌, ◌^◌, ◌-◌, Bool, true, false, not, List, [], ◌∷◌, ltb, leb, ◌==◌,
  if◌then◌else◌, add32, sub32, get_or, bit_xor,
}
use aevros.Networking.LockBox

-- `boot_secret` and `call_counter`.
pub record Lottery : Type 0 where
  pub boot_secret : ℕ
  pub call_counter : ℕ

pub record State : Type 0 where
  pub secret : ℕ
  pub secret_ready : Bool
  pub lottery : Lottery

abbrev pub mul32 : ℕ → ℕ → ℕ
mul32 a b = a * b % 2 ^ 32

abbrev pub shifted : ℕ → ℕ → ℕ
shifted x k = bit_xor x (x / 2 ^ k)

pub mix32 : ℕ → ℕ
mix32 x = shifted (mul32 (shifted (mul32 (shifted x 16) 0x85ebca6b) 13) 0xc2b2ae35) 16

pub lottery_init : ℕ → Lottery
lottery_init ticks = record { boot_secret = mix32 (bit_xor ticks 0x9E3779B9); call_counter = 0 }

-- `(ip[0] << 24) | (ip[1] << 16) | (ip[2] << 8) | ip[3]`
abbrev pub ip_word : List ℕ → ℕ
ip_word ip = get_or ip 0 0 * 2 ^ 24 + get_or ip 1 0 * 2 ^ 16 + get_or ip 2 0 * 2 ^ 8 + get_or ip 3 0

abbrev pub ports_word : ℕ → ℕ → ℕ
ports_word a b = a * 2 ^ 16 + b

abbrev pub absorb : ℕ → ℕ → ℕ
absorb h x = mix32 (bit_xor h (mix32 x))

pub draw_isn : ℕ → List ℕ → ℕ → List ℕ → ℕ → Lottery → ℕ × Lottery
draw_isn ticks local_ip local_port remote_ip remote_port l =
    let h = absorb l.boot_secret (ip_word local_ip) in
    let h' = absorb h (ip_word remote_ip) in
    let h'' = absorb h' (ports_word local_port remote_port) in
    (absorb (absorb h'' ticks) l.call_counter, record l { call_counter = add32 l.call_counter 1 })

abbrev pub address_a : List ℕ
address_a = 10 ∷ 0 ∷ 2 ∷ 15 ∷ []

abbrev pub address_b : List ℕ
address_b = 1 ∷ 2 ∷ 3 ∷ 4 ∷ []

-- The ticks that `ensure_secret` reads, in the draw and after it.
pub ensure_secret : ℕ → ℕ → State → State
ensure_secret drawn ticks s =
    let (isn, l) = draw_isn drawn address_a 12345 address_b 54321 s.lottery in
    if s.secret_ready
    then s
    else record { secret = bit_xor isn ticks; secret_ready = true; lottery = l }

abbrev pub mixed : ℕ → ℕ → ℕ → ℕ
mixed h x factor = mul32 (bit_xor h x) factor

pub mix : ℕ → ℕ → ℕ → ℕ → ℕ → ℕ
mix secret a b c d =
    let h =
      mixed (mixed (mixed (mixed secret a 0x9E3779B1) b 0x85EBCA77) c 0xC2B2AE3D) d 0x27D4EB2F in
    shifted h 15

-- What a cookie is of.
pub record Tuple : Type 0 where
  pub src_ip : List ℕ
  pub src_port : ℕ
  pub dst_ip : List ℕ
  pub dst_port : ℕ

pub cookie : ℕ → Tuple → ℕ → ℕ
cookie secret t time_bucket =
    mix secret (ip_word t.src_ip) (ip_word t.dst_ip) (ports_word t.src_port t.dst_port) time_bucket

-- What the calls read of the clock: the bucket first, then the two of `ensure_secret`.
pub record Clock : Type 0 where
  pub now : ℕ
  pub drawn : ℕ
  pub noted : ℕ

abbrev pub bucket_of : ℕ → ℕ
bucket_of ticks = ticks / 2 ^ 5

pub compute : Clock → Tuple → ℕ → State → ℕ × State
compute c t time_bucket s =
    let s' = ensure_secret c.drawn c.noted s in (cookie s'.secret t time_bucket, s')

pub should_activate : LockBox.LockBox → Bool
should_activate b = leb (LockBox.capacity * 3) (LockBox.active_count b * 4)

pub generate : Clock → Tuple → State → ℕ × State
generate c t s = compute c t (bucket_of c.now) s

-- `ack_num - 1` is one of the last two cookies.
pub validate : Clock → Tuple → ℕ → State → Bool × State
validate c t ack_num s =
    let bucket = bucket_of c.now in
    let expected_seq = sub32 ack_num 1 in
    let (here, s') = compute c t bucket s in
    let (before, s'') = compute c t (bucket - 1) s' in
    if expected_seq == here
    then (true, s')
    else if ltb 0 bucket
    then (if expected_seq == before then (true, s'') else (false, s''))
    else (false, s')
