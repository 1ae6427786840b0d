-- ===== src/Config/Tests.antt =====
-- Instances of the theorems on the configuration.
use hermit_caves.Base.{◌*◌, ◌≡◌, arith}
use hermit_caves.Config.{memparse}
use hermit_caves.Config.Values.{unit_of, memparse-unit_of}

memparse-unit_of_example : memparse 512 b'M' ≡ 512 * unit_of b'M'
memparse-unit_of_example = memparse-unit_of 512 b'M' (omega arith)
