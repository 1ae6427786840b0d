-- ===== src/Checkpoint/Complete.antt =====
-- A full checkpoint has every page that is in use.
use hermit_caves.Base.Memory.{Memory}
