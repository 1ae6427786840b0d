-- ===== src/Checkpoint/Tests.antt =====
-- Instances of the theorems on the pages of a checkpoint.
use hermit_caves.Base.{true, ◌^◌, bit_and, false}
use hermit_caves.Base.Memory.{Memory}
use hermit_caves.Vcpu.Transfer.{bytes_at}
use hermit_caves.Checkpoint.Used.{pgd_entry}
use hermit_caves.Checkpoint.{Saved, page_2m_mask, Mode}

-- The first checkpoint of an incremental series.
abbrev incremental : Mode
incremental = record { full_checkpoint = false; no_checkpoint = 0 }

-- Every byte is 0xe3: a present, accessed and large page at each level.
abbrev busy : Memory
busy = λ x. 0xe3

abbrev blank : Memory
blank = λ x. 0

abbrev whole : Mode
whole = record { full_checkpoint = true; no_checkpoint = 0 }

-- The page of the first large entry of the third level.
abbrev first_large : Saved
first_large = record {
  entry = pgd_entry busy 0 0 0;
  page = bytes_at busy (bit_and (pgd_entry busy 0 0 0) page_2m_mask) (2 ^ 21);
}
