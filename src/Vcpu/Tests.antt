-- ===== src/Vcpu/Tests.antt =====
-- Runs of the loop of a CPU, and instances of its theorems.
use hermit_caves.Base.{
  true, ℕ, ◌+◌, false, some, List, [], ◌∷◌, ◌++◌, length, ◌≡◌, ◌≢◌, refl, arith,
}
use hermit_caves.Base.Memory.{Memory}
use hermit_caves.Paging.{Sregs, setup_system_page_tables}
use hermit_caves.Paging.Identity.{virt_to_phys_unmapped}
use hermit_caves.Vcpu.Transfer.{Linux, bytes_at, moved, moving, write_loop}
use hermit_caves.Vcpu.Written.{
  StayInPages, joined, mapped, write_all, write_loop-mapped, write_loop_unmapped,
}
use hermit_caves.Vcpu.Ports.{Settings, Guest, dev_kvm}
use hermit_caves.Vcpu.{hlt, io, vcpu_loop}
use hermit_caves.Syscalls.{above_stderr}
use hermit_caves.Vcpu.Kept.{AreKept}
use hermit_caves.Vcpu.Guarded.{InLoop, vcpu_loop-keeps}

-- A Linux that keeps what is written.
abbrev recorder : Linux (List ℕ)
recorder = record {
  host_write = λ fd bs h. (length bs, h ++ bs);
  host_read = λ fd n h. (some [], h);
  host_open = λ name flags mode h. (3, h);
  host_close = λ fd h. (0, h);
  host_lseek = λ fd offset whence h. (offset, h);
  host_unlink = λ name h. (0, h);
  realpath = λ name h. name;
}

abbrev settings : Settings
settings = record {
  verbose = false;
  gdb_enabled = false;
  mac = [];
  argv = [];
  envp = [];
  cpuid = 0;
  rounds = 100;
}

abbrev reset : Sregs
reset = record { cr0 = 0x6000_0010; cr3 = 0; cr4 = 0; efer = 0 }

abbrev blank : Memory
blank = λ x. 0

-- A buffer over the end of a page.
write_loop-mapped_example :
    (chunks : List (List ℕ)) × (StayInPages recorder (0x1f_fffe + 0) chunks)
    × (joined recorder chunks ≡ bytes_at (mapped recorder reset blank) (0x1f_fffe + 0) 5)
    × (write_loop recorder 5 1 0x1f_fffe 5 0 (mapped recorder reset blank) []
        ≡ moved (0 + 5) (mapped recorder reset blank) (write_all recorder 1 chunks []))
write_loop-mapped_example =
    write_loop-mapped recorder reset blank 5 1 0x1f_fffe 5 0 [] (omega arith) (omega arith)
      (λ bs h. refl)

write_loop_unmapped_example :
    write_loop recorder 1000 1 0x1_0000_0000 5 0 (setup_system_page_tables reset blank).1 []
    ≡ moving
write_loop_unmapped_example =
    write_loop_unmapped recorder 1 0x1_0000_0000 (setup_system_page_tables reset blank).1 1000 5 0
      [] (omega arith) (omega arith)
      (virt_to_phys_unmapped reset blank 0x1_0000_0000 (omega arith) (omega arith)) (λ h. refl)

abbrev guest : Guest (List ℕ)
guest = record { memory = blank; host = []; events = [] }

-- A Linux that notes the names that are opened and the descriptors that are closed.
abbrev noting : Linux (List (List ℕ) × List ℕ)
noting = record {
  host_write = λ fd bs h. (length bs, h);
  host_read = λ fd n h. (some [], h);
  host_open = λ name flags mode h. (3, (name ∷ h.0, h.1));
  host_close = λ fd h. (0, (h.0, fd ∷ h.1));
  host_lseek = λ fd offset whence h. (offset, h);
  host_unlink = λ name h. (0, h);
  realpath = λ name h. name;
}

abbrev AreOpened : List (List ℕ) → Type 0
AreOpened [] = Unit {0}
AreOpened (name ∷ names) = (name ≢ dev_kvm) × AreOpened names

abbrev AreClosed : List ℕ → Type 0
AreClosed [] = Unit {0}
AreClosed (fd ∷ fds) = (above_stderr fd ≡ true) × AreClosed fds

abbrev AreNoted : List (List ℕ) × List ℕ → Type 0
AreNoted h = AreOpened h.0 × AreClosed h.1

noting-AreKept : AreKept noting AreNoted
noting-AreKept = record {
  by_write = λ fd bs h i. i;
  by_read = λ fd n h i. i;
  by_lseek = λ fd offset whence h i. i;
  by_unlink = λ name h i. i;
  by_open = λ name flags mode h other i. ((other, i.0), i.1);
  by_close = λ fd h above i. (i.0, (above, i.1));
}

abbrev unheard : Guest (List (List ℕ) × List ℕ)
unheard = record { memory = blank; host = ([], []); events = [] }

vcpu_loop-keeps_example :
    InLoop AreNoted (vcpu_loop settings noting unheard (io 0x440 64 ∷ io 0x480 96 ∷ hlt ∷ []))
vcpu_loop-keeps_example =
    vcpu_loop-keeps settings noting AreNoted noting-AreKept (io 0x440 64 ∷ io 0x480 96 ∷ hlt ∷ [])
      unheard (tt, tt)
