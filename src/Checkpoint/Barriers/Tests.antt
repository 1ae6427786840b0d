-- ===== src/Checkpoint/Barriers/Tests.antt =====
-- A checkpoint with two CPUs.
use hermit_caves.Base.{ℕ, true, false, List, [], ◌∷◌}
use hermit_caves.Checkpoint.Barriers.{
  dumping, running, finished, Thread, Action, run, alarm, enter, begin_writing, write_cpu,
}

abbrev two_cpus : List (Thread ℕ)
two_cpus =
    record { place = running; leads = false; cpu = 10; file = 0 }
    ∷ record { place = running; leads = false; cpu = 20; file = 0 }
    ∷ []

-- The second CPU still changes after the alarm of the first one.
abbrev late_change : List (Action ℕ)
late_change = alarm 0 ∷ run 1 21 ∷ enter 1 ∷ begin_writing ∷ write_cpu 1 ∷ write_cpu 0 ∷ []

abbrev two_written : List (Thread ℕ)
two_written =
    record { place = dumping; leads = true; cpu = 10; file = 10 }
    ∷ record { place = finished; leads = false; cpu = 21; file = 21 }
    ∷ []
