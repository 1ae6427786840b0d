-- ===== src/Gdb/Commands/Tests.antt =====
-- Runs of the commands, and instances of their theorems.
use hermit_caves.Base.{
  ℕ, ◌+◌, ◌≤◌, ◌<◌, ◌⊎◌, true, false, some, [], ◌∷◌, ◌++◌, ◌≡◌, refl, arith, length, replicate,
}
use hermit_caves.Base.Digits.{scan_digits}
use hermit_caves.Gdb.Hex.{hex, mem2hex}
use hermit_caves.Gdb.Scan.{
  skip_space, scan_sign, skip_prefix, scan_magnitude, scan_hex, literal, scan_pair, print_hex,
}
use hermit_caves.Gdb.Packet.{byte, Conn, response}
use hermit_caves.Gdb.Packet.Framing.{encode, arriving}
use hermit_caves.Gdb.Registers.{KvmRegs}
use hermit_caves.Gdb.Commands.State.{Machine, Target, answer, crash, okay_msg}
use hermit_caves.Gdb.Commands.Access.{read_memory}
use hermit_caves.Gdb.Commands.{
  handle_command, switch, gdb_handle_query, next_thread, same_text, qf_thread_info, qs_thread_info,
}
use hermit_caves.Gdb.Commands.Loop.{resumed, gdb_handle_exception}
use hermit_caves.Gdb.Commands.Ends.{HasEnded, gdb_handle_exception-HasEnded}
use hermit_caves.Gdb.Commands.Session.{converse, gdb_handle_exception-converse}
use hermit_caves.Gdb.Commands.Memory.{
  write_command, read_command, stored_at, read_command-write_command,
}
use hermit_caves.Gdb.Commands.Threads.{answers, threads_from, answers_threads}

abbrev fresh : Conn
fresh = record { sends = λ n. true; sent = 0; output = []; in_buffer = λ i. 0 }

abbrev machine : Machine
machine = record {
  ncores = 2;
  guest_size = 0x10000;
  translate = λ addr. (addr, true);
  malloc_works = λ n. true;
}

abbrev kregs : KvmRegs
kregs = record {
  rax = 0;
  rbx = 0;
  rcx = 0;
  rdx = 0;
  rsi = 0;
  rdi = 0;
  rbp = 0;
  rsp = 0;
  r8 = 0;
  r9 = 0;
  r10 = 0;
  r11 = 0;
  r12 = 0;
  r13 = 0;
  r14 = 0;
  r15 = 0;
  rip = 0;
  rflags = 0;
}

abbrev target : Target
target = record {
  debugger = record {
    sw_breakpoints = [];
    hw_breakpoints = [];
    nr_hw_breakpoints = 0;
    stepping = false;
    memory = λ a. 0;
    guest_debug = record { control = 0; addresses = []; dr7 = 0 };
  };
  registers = replicate 4096 0;
  kregs = kregs;
  sregs = record { cs = 0; ss = 0; ds = 0; es = 0; fs = 0; gs = 0 };
  thread_counter = 0;
  requests = 0;
}

-- `m0,800`: the text of 2048 bytes and its NUL do not fit into the buffer.
reads_too_much :
    handle_command machine 5 (b'm' ∷ b'0' ∷ b',' ∷ b'8' ∷ b'0' ∷ b'0' ∷ []) target ≡ crash
unfolding handle_command switch read_memory scan_pair scan_hex skip_space scan_sign skip_prefix
    scan_magnitude scan_digits literal hex
reads_too_much = refl

listed : Target
listed = record target { thread_counter = 1 }

converse-listed :
    converse machine 5 target (qf_thread_info ∷ (b'D' ∷ []) ∷ [])
    ≡ some (
      encode qf_thread_info ++ (b'+' ∷ (encode (b'D' ∷ []) ++ (b'+' ∷ []))),
      b'+' ∷ (encode (b'm' ∷ print_hex 1) ++ (b'+' ∷ encode okay_msg)),
      listed,
    )
unfolding handle_command switch gdb_handle_query next_thread same_text listed
converse-listed = refl

gdb_handle_exception-converse_example :
    (buffer : ℕ → ℕ) × (gdb_handle_exception machine 5 2 target fresh (
        arriving
          (b'+' ∷ (encode qf_thread_info ++ (b'+' ∷ (encode (b'D' ∷ []) ++ (b'+' ∷ [])))))
          [])
      ≡ resumed listed
          (record fresh {
            sent =
                0
                + length (
                    encode (response b'S' 5)
                    ++ (b'+' ∷ (encode (b'm' ∷ print_hex 1) ++ (b'+' ∷ encode okay_msg))));
            output =
                []
                ++ (encode (response b'S' 5)
                    ++ (b'+' ∷ (encode (b'm' ∷ print_hex 1) ++ (b'+' ∷ encode okay_msg))));
            in_buffer = buffer;
          })
          [])
gdb_handle_exception-converse_example =
    gdb_handle_exception-converse machine 5 (qf_thread_info ∷ (b'D' ∷ []) ∷ []) 2 target fresh _ []
      (omega arith) (ground arith) ((λ n. refl), λ e. cc) converse-listed

gdb_handle_exception-HasEnded_example :
    HasEnded (gdb_handle_exception machine 5 2 target fresh (byte b'+' ∷ []))
gdb_handle_exception-HasEnded_example =
    gdb_handle_exception-HasEnded machine 5 target fresh (byte b'+' ∷ [])

read_command-write_command_example :
    let t' = stored_at 0x100 (0xab ∷ 7 ∷ []) target in
    (handle_command machine 5 (write_command 0x100 (0xab ∷ 7 ∷ [])) target ≡ answer okay_msg t')
    × (handle_command machine 5 (read_command 0x100 2) t' ≡ answer (mem2hex (0xab ∷ 7 ∷ [])) t')
    × ((x : ℕ) → (x < 0x100) ⊎ (0x100 + 2 ≤ x) → t'.debugger.memory x ≡ target.debugger.memory x)
read_command-write_command_example =
    read_command-write_command machine 5 target 0x100 0xab (7 ∷ []) (omega arith) (omega arith)
      (omega arith) (omega arith)

answers_threads_example :
    answers machine 5 target (qf_thread_info ∷ replicate 2 qs_thread_info)
    ≡ (threads_from 0 2 ++ ((b'l' ∷ []) ∷ []), target)
answers_threads_example = answers_threads 0 machine 5 target refl (omega arith) refl
