-- ===== src/Checkpoint/Barriers/Consistent.antt =====
-- The files with the states of the CPUs are of one moment, at which no CPU runs.
use hermit_caves.Base.{Bool, true, false, ◌≡◌}
use hermit_caves.Checkpoint.Barriers.{saving, dumping, finished, Thread, in_guest}

module _ {C : Type 0} where
  -- Between the barriers, a file is written when the thread is behind its `write_cpu_state`.
  abbrev pub between_barriers : Thread C → Bool
  between_barriers t = elim t.place [ saving ↦ true | dumping ↦ true | finished ↦ true | _ ↦ false ]

  abbrev pub has_written : Thread C → Bool
  has_written t = elim t.place [ dumping ↦ true | finished ↦ true | _ ↦ false ]

  -- All threads are between the barriers, and none runs its guest.
  abbrev pub IsStopped : Thread C → Type 0
  IsStopped t = (in_guest t.place ≡ false) × (has_written t ≡ true → t.file ≡ t.cpu)
