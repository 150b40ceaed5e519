-- ===== src/Networking/Menu/Examples.antt =====
-- The menu run on small inputs, and its theorems at them.
use aevros.Base.{◌≡◌, refl, true, List, [], ◌∷◌, find, update_first, count_if}
use aevros.Networking.Menu.{Entry, empty, is_open, open_port, count}
use aevros.Networking.Menu.Ports.{is_open-open_port, Call, opens, run, step}

abbrev calls : List Call
calls = opens 7 6 ∷ opens 53 17 ∷ opens 7 6 ∷ []

ports : List Entry
ports = run empty calls

two_ports : count ports ≡ 2
unfolding ports run step open_port count count_if find update_first
two_ports = refl

is_open-open_port_example : is_open 80 6 (open_port 80 6 empty).0 ≡ true
unfolding open_port is_open find update_first
is_open-open_port_example = (is_open-open_port 80 6 80 6 empty refl).1
