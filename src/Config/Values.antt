-- ===== src/Config/Values.antt =====
-- The values that the configuration ends with.
use hermit_caves.Base.{
  ℕ, ◌-◌, ◌*◌, ◌^◌, ◌<◌, ◌==◌, ◌||◌, if◌then◌else◌, Option, none, some, min, ◌≡◌, arith,
}
use hermit_caves.Config.{memparse, max_argc_envc, limit_arguments, env_port}

-- The binary unit that a suffix stands for.
abbrev pub unit_of : ℕ → ℕ
unit_of c =
    if c == b'E' || c == b'e'
    then 2 ^ 60
    else if c == b'P' || c == b'p'
    then 2 ^ 50
    else if c == b'T' || c == b't'
    then 2 ^ 40
    else if c == b'G' || c == b'g'
    then 2 ^ 30
    else if c == b'M' || c == b'm'
    then 2 ^ 20
    else if c == b'K' || c == b'k'
    then 2 ^ 10
    else 1

-- A size with a suffix is the number times the unit of the suffix, whenever that is below 2 ^ 64.
pub memparse-unit_of : (size c : ℕ) → size * unit_of c < 2 ^ 64 → memparse size c ≡ size * unit_of c
unfolding memparse
memparse-unit_of size c h = ground arith

-- The limits on arguments and environment never make the start fail: the numbers are cut down to 128
-- and 127 (the name of the program is not counted), and so are at most 128.
pub limit_arguments_lem :
    (argc envc : ℕ)
    → limit_arguments argc envc ≡ some (min (argc - 1) max_argc_envc, min envc (max_argc_envc - 1))
unfolding limit_arguments
limit_arguments_lem argc envc = ground arith

env_port_bounds : (o : Option ℕ) → (0 < env_port o) × (env_port o < 2 ^ 16 - 1)
unfolding env_port
env_port_bounds none = (omega arith, omega arith)
env_port_bounds (some port) = (ground arith, ground arith)

env_port_kept : (port : ℕ) → 0 < port → port < 2 ^ 16 - 1 → env_port (some port) ≡ port
unfolding env_port
env_port_kept port h k = ground arith

-- The port is never 0 and always below 65535, whatever the environment says; it is what the
-- environment says if that is such a port.
pub env_port_lem :
    ((o : Option ℕ) → (0 < env_port o) × (env_port o < 2 ^ 16 - 1))
    × ((port : ℕ) → 0 < port → port < 2 ^ 16 - 1 → env_port (some port) ≡ port)
env_port_lem = (env_port_bounds, env_port_kept)
