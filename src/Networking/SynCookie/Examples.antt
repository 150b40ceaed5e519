-- ===== src/Networking/SynCookie/Examples.antt =====
-- A cookie that comes back half a bucket later.
use aevros.Base.{◌≡◌, true, false, [], ◌∷◌, add32, arith}
use aevros.Networking.SynCookie.{State, Tuple, Clock, lottery_init, generate, validate}
use aevros.Networking.SynCookie.Window.{validate-generate}

abbrev tuple : Tuple
tuple = record {
  src_ip = 10 ∷ 0 ∷ 0 ∷ 7 ∷ [];
  src_port = 40000;
  dst_ip = 10 ∷ 0 ∷ 2 ∷ 15 ∷ [];
  dst_port = 80;
}

abbrev start : State
start = record { secret = 0; secret_ready = false; lottery = lottery_init 12 }

abbrev early : Clock
early = record { now = 60; drawn = 60; noted = 60 }

abbrev late : Clock
late = record { now = 70; drawn = 70; noted = 70 }

validate-generate_example :
    (validate late tuple (add32 (generate early tuple start).0 1) (generate early tuple start).1).0
    ≡ true
validate-generate_example = validate-generate early late tuple start (omega arith) (omega arith)
