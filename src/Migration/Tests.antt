-- ===== src/Migration/Tests.antt =====
-- Instances of the theorems on a migration.
use hermit_caves.Base.{ℕ, some, ◌^◌, ◌%◌, inl, inr, List, [], ◌∷◌, ◌++◌, ◌≡◌, refl, arith}
use hermit_caves.Base.Memory.{Memory}
use hermit_caves.Regions.{MemChunk}
use hermit_caves.Regions.Slots.{Covers}
use hermit_caves.Migration.{
  default_params, regions_sent, send_mem_regions, precopy_phase, stop_and_copy_phase,
  recv_mem_regions, recv_guest_mem,
}
use hermit_caves.Migration.Socket.{transfer, transfer_all}
use hermit_caves.Migration.Transferred.{recv_guest_mem-send_mem_regions}

abbrev whole : List MemChunk
whole = record { size = 2 ^ 20; ptr = 0 } ∷ []

abbrev used : List MemChunk
used = record { size = 3; ptr = 8 } ∷ record { size = 2; ptr = 40 } ∷ []

abbrev source : Memory
source = λ x. x

abbrev target : Memory
target = λ x. 0

recv_guest_mem-send_mem_regions_example :
    let sent = stop_and_copy_phase (precopy_phase default_params whole used) source in
    let received = recv_mem_regions (send_mem_regions default_params whole used ++ (sent ++ [])) in
    (received.0 ≡ regions_sent default_params whole used)
    × (((x : ℕ)
          → Covers (regions_sent default_params whole used) x
          → (recv_guest_mem received.0 received.1 target).0 x ≡ source x)
        × ((x : ℕ)
            → (Covers (regions_sent default_params whole used) x → ⊥)
            → (recv_guest_mem received.0 received.1 target).0 x ≡ target x)
        × ((recv_guest_mem received.0 received.1 target).1 ≡ []))
recv_guest_mem-send_mem_regions_example =
    recv_guest_mem-send_mem_regions default_params whole used source target []
      ((omega arith, omega arith), ((omega arith, omega arith), tt)) (omega arith) refl

transfer_all_example : transfer 3 0 (2 ∷ 1 ∷ 7 ∷ []) ≡ some (3 % 2 ^ 32)
transfer_all_example =
    transfer_all (2 ∷ 1 ∷ 7 ∷ []) 3 0 (omega arith) (omega arith)
      (inl (omega arith, (omega arith, inl (omega arith, (omega arith, inr refl))))) (omega arith)
