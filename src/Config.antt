-- ===== src/Config.antt =====
-- The configuration: uhyve.c (`memparse`, the limits on arguments in `uhyve_loop`) and main.c (the port
-- in `env_init`). What `strtoull` and `atoi` return is given.
pub mod Values
mod Tests
use hermit_caves.Base.{
  ℕ, ◌+◌, ◌-◌, ◌*◌, ◌%◌, ◌^◌, Bool, true, false, ltb, leb, ◌==◌, ◌||◌, if◌then◌else◌, Option, none,
  some,
}

-- `size <<= 10`.
abbrev pub shift10 : ℕ → ℕ
shift10 size = size * 2 ^ 10 % 2 ^ 64

-- The labels of the switch; each falls through to the next.
abbrev pub from_k : ℕ → ℕ
from_k size = shift10 size

abbrev pub from_m : ℕ → ℕ
from_m size = from_k (shift10 size)

abbrev pub from_g : ℕ → ℕ
from_g size = from_m (shift10 size)

abbrev pub from_t : ℕ → ℕ
from_t size = from_g (shift10 size)

abbrev pub from_p : ℕ → ℕ
from_p size = from_t (shift10 size)

abbrev pub from_e : ℕ → ℕ
from_e size = from_p (shift10 size)

-- `memparse` for the number and the character behind it.
unfoldable pub memparse : ℕ → ℕ → ℕ
memparse size endc =
    if endc == b'E' || endc == b'e'
    then from_e size
    else if endc == b'P' || endc == b'p'
    then from_p size
    else if endc == b'T' || endc == b't'
    then from_t size
    else if endc == b'G' || endc == b'g'
    then from_g size
    else if endc == b'M' || endc == b'm'
    then from_m size
    else if endc == b'K' || endc == b'k'
    then from_k size
    else size

abbrev pub max_argc_envc : ℕ
max_argc_envc = 128

-- `uhyve_argc` and `uhyve_envc` behind the two reductions; the result of `uhyve_loop` is -1 (`none`)
-- if one is still too large. There is a program name in `argv`.
abbrev pub reduced_argc : ℕ → ℕ
reduced_argc argc = if ltb max_argc_envc (argc - 1) then max_argc_envc else argc - 1

abbrev pub reduced_envc : ℕ → ℕ
reduced_envc envc = if ltb (max_argc_envc - 1) envc then max_argc_envc - 1 else envc

unfoldable pub limit_arguments : ℕ → ℕ → Option (ℕ × ℕ)
limit_arguments argc envc =
    if ltb max_argc_envc (reduced_argc argc) || ltb max_argc_envc (reduced_envc envc)
    then none
    else some (reduced_argc argc, reduced_envc envc)

abbrev pub hermit_port : ℕ
hermit_port = 0x494e

-- The port of `env_init`, for an unset HERMIT_PORT or what `atoi` makes of it.
unfoldable pub env_port : Option ℕ → ℕ
env_port none = hermit_port
env_port (some port) = if port == 0 || leb (2 ^ 16 - 1) port then hermit_port else port
