-- ===== src/Lib.antt =====
-- uhyve, the hypervisor of the HermitCore unikernel (hermit-caves), on x86-64.
--
-- The program: `main` (main.c) reads the configuration and calls `uhyve_init` and `uhyve_loop`
-- (uhyve.c). `init_kvm_arch` (uhyve-x86_64.c) gives the guest its memory, around a gap below 4 GiB;
-- `setup_system` writes the boot page tables. Each CPU of the guest is a thread in `vcpu_loop`, which
-- serves the requests that the guest makes by port accesses; buffers of the guest are found by a walk
-- over its page tables. Two more threads move packets between the network and two queues in the
-- guest's memory. A GDB stub (uhyve-gdb.c) serves a debugger over a socket. Checkpoints
-- (uhyve-x86_64.c) and migrations (uhyve-migration.c, uhyve-migration-tcp.c) save, send and load the
-- guest's memory. `handle_syscalls` (main.c) serves system calls of a guest behind a socket.
--
-- Files and code:
--   Base        no program code: tests, lists, bit masks, bytes and 64-bit words of memory
--   Paging      uhyve-x86_64.c: setup_system_64bit, setup_system_page_tables,
--               virt_to_phys_for_table, virt_to_phys
--   Regions     uhyve-x86_64.c: the memory part of init_kvm_arch,
--               determine_guest_physical_memory_regions, check_for_io_gap, determine_mem_mappings
--   Checkpoint  uhyve-x86_64.c: scan_page_tables, write_mem_page_to_chk_file,
--               determine_dest_offset, load_checkpoint; Checkpoint/Barriers timer_handler and uhyve.c:
--               sigusr_handler, as steps of the threads, with the states of the CPUs
--   Vcpu        uhyve.c: vcpu_loop; Vcpu/Transfer has the loops of the ports for writing and reading,
--               Vcpu/Ports all other ports
--   Network     Network/Queue uhyve.c: recieve_packets, transfer_packets, uhyve-net.h:
--               shared_queue_t; Network/Mac uhyve-net.c: uhyve_set_mac
--   Cpu         uhyve-x86_64.c: filter_cpuid, setup_system_gdt, setup_system, init_cpu_state,
--               save_cpu_state, restore_cpu_state; uhyve-x86_64.h: the GDT macros
--   Kernel      uhyve-x86_64.c: load_kernel; Kernel/Elf has the parts of the file, Kernel/Header the
--               kernel_header_t of uhyve-x86_64.h
--   Start       uhyve.c: uhyve_init up to init_kvm_arch; uhyve-x86_64.c: the configuration that
--               timer_handler writes, the metadata that migration_handler sends; Start/Format has the
--               conversions of fprintf and fscanf
--   Config      uhyve.c: memparse, the limits of uhyve_loop; main.c: the port of env_init
--   Syscalls    main.c: handle_syscalls; Syscalls/Wire has its loops over read and write
--   Migration   uhyve-migration.c, uhyve-migration.h, uhyve-migration-tcp.c; Migration/Socket has
--               recv_data and send_data
--   Gdb         uhyve-gdb.c: Gdb/Hex hex, mem2hex, hex2mem; Gdb/Packet send_char to send_response;
--               Gdb/Breakpoints bp_list_find to uhyve_gdb_disable_ss; Gdb/Registers
--               uhyve_gdb_read_registers, uhyve_gdb_write_registers; Gdb/Scan the numbers of packets;
--               Gdb/Commands gdb_handle_query and the commands of gdb_handle_exception, with memory and
--               registers in Gdb/Commands/Access, and Gdb/Commands/Loop its loop and
--               uhyve_gdb_handle_term
--   Utils       utils.c: Utils/Pread pread_in_full; Utils/Frequency get_cpufreq and
--               get_frequency_from_brand
-- A definition has the name of the C function, type or variable; helpers name the part of a function
-- that they are. A static or global variable is a field of the state record of its component. Tests
-- modules hold runs and instances of the theorems.
--
-- Choices: C integers are natural numbers below 2 ^ w, with the wrap-around written out; a signed
-- result is its bit pattern, so that -1 of `read` is 2 ^ 64 - 1. Memory is a function from offsets to
-- bytes, and 64-bit words are stored in it little-endian. Linux and KVM are parameters: a record of
-- functions over a state of the host, or the list of the results of the calls to come. `err`, `exit`
-- and a failed assertion are results of their own.
--
-- Bounds and fuel: loops over a given list end with it. `handle_syscalls` takes a number of rounds, and
-- its theorem says that one for each request and one for `exit` are enough. The loops of a write and
-- a read take a number of rounds; for a write to mapped memory as many as there are bytes are
-- enough, and for unmapped memory none are. The loading of a checkpoint takes as many rounds as its
-- file has bytes, which its theorem shows to be enough. The loop over the commands of a debugger
-- takes a number of commands, and its theorem says that one more than there are characters are
-- enough. A page walk goes down its four levels. The threads of a checkpoint take a list of steps, in
-- any order; a step that cannot happen has no result.
--
-- Not modelled: the opening of KVM and of its machine, threads, signals and timers
-- (`uhyve_loop`, `vcpu_init`, `uhyve_thread` and the migration handlers of uhyve.c, and what is left of
-- `uhyve_init` and `init_kvm_arch`), because they are mostly calls of the system; the sockets
-- that the debugger and a migration connect to; the states of CPUs in the files of a checkpoint
-- and in a migration, which are the bytes of a structure; the set-up of the network interface
-- (uhyve-net.c); the migration over RDMA (uhyve-migration-rdma.c); uhyve-aarch64.c and
-- uhyve-gdb-aarch64.c; and queue.h, a copy of BSD's lists.
pub mod Base
pub mod Paging
pub mod Gdb
pub mod Syscalls
pub mod Utils
pub mod Network
pub mod Vcpu
pub mod Regions
pub mod Checkpoint
pub mod Migration
pub mod Config
pub mod Cpu
pub mod Kernel
pub mod Start
