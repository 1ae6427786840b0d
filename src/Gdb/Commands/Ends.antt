-- ===== src/Gdb/Commands/Ends.antt =====
-- The loop over the commands ends.
use hermit_caves.Base.{ℕ, zero, suc, ◌+◌, ◌≤◌, ◌<◌, true, List, arith, length}
use hermit_caves.Gdb.Packet.{
  Recv, Conn, Received, packet, null, exited, recv_packet, Sent, returned, aborted, send_packet,
  send_response,
}
use hermit_caves.Gdb.Packet.Consumed.{
  Shorter, recv_packet-Shorter, NoLonger, send_packet-NoLonger, send_response-NoLonger,
}
use hermit_caves.Gdb.Commands.State.{Machine, Target, Step, answer, silent, resume, leave, crash}
use hermit_caves.Gdb.Commands.{handle_command}
use hermit_caves.Gdb.Commands.Loop.{
  Ended, resumed, died, unfinished, after_send, perform, command_loop, gdb_handle_exception,
}

abbrev pub HasEnded : Ended → Type 0
HasEnded unfinished = ⊥
HasEnded _ = Unit {0}

after_send-HasEnded :
    (n : ℕ) (s : Sent) (go_on : Conn → List Recv → Ended)
    → NoLonger n s
    → ((c : Conn) (rest : List Recv) → length rest ≤ n → HasEnded (go_on c rest))
    → HasEnded (after_send s go_on)
after_send-HasEnded n (returned c rest) go_on h ends = ends c rest h
after_send-HasEnded n (aborted c) go_on h ends = tt

perform-HasEnded :
    (step : Step) (next : Target → Conn → List Recv → Ended) (c : Conn) (input : List Recv)
    → ((t : Target) (c' : Conn) (rest : List Recv)
        → length rest ≤ length input
        → HasEnded (next t c' rest))
    → HasEnded (perform step next c input)
unfolding perform
perform-HasEnded (answer text t) next c input ends =
    after_send-HasEnded (length input) (send_packet text c input) (next t)
      (send_packet-NoLonger input text c) (ends t)
perform-HasEnded (silent t) next c input ends = ends t c input (omega arith)
perform-HasEnded (resume t) next c input ends = tt
perform-HasEnded (leave text t) next c input ends =
    after_send-HasEnded (length input) (send_packet text c input) (resumed t)
      (send_packet-NoLonger input text c) (λ c' rest h. tt)
perform-HasEnded crash next c input ends = tt

command_loop-HasEnded :
    (m : Machine) (sigval fuel : ℕ) (t : Target) (c : Conn) (input : List Recv)
    → length input < fuel
    → HasEnded (command_loop m sigval fuel t c input)
unfolding command_loop
command_loop-HasEnded m sigval zero t c input h = absurd (omega arith)
command_loop-HasEnded m sigval (suc fuel) t c input h =
    on_received (recv_packet c input) (recv_packet-Shorter input c)
      (λ t' c' rest l. command_loop-HasEnded m sigval fuel t' c' rest l)
  where
    on_received :
        (r : Received)
        → Shorter (length input) r
        → ((t' : Target) (c' : Conn) (rest : List Recv)
            → length rest < fuel
            → HasEnded (command_loop m sigval fuel t' c' rest))
        → HasEnded (elim r [
          | packet text c' rest ↦
              perform (handle_command m sigval text t) (command_loop m sigval fuel) c' rest
          | null c' rest ↦ died t c'
          | exited c' ↦ died t c'
        ])
    on_received (packet text c' rest) k again =
        perform-HasEnded (handle_command m sigval text t) (command_loop m sigval fuel) c' rest
          (λ t' c'' rest' l. again t' c'' rest' (omega arith))
    on_received (null c' rest) k again = tt
    on_received (exited c') k again = tt

-- Whatever the debugger sends, and whether or not `send` works: the handling of an exception ends, by a
-- return, the end of the process or a failed assertion or bad access, in at most one command more than
-- the socket still delivers characters.
pub gdb_handle_exception-HasEnded :
    (m : Machine) (sigval : ℕ) (t : Target) (c : Conn) (input : List Recv)
    → HasEnded (gdb_handle_exception m sigval (length input + 1) t c input)
unfolding gdb_handle_exception
gdb_handle_exception-HasEnded m sigval t c input =
    after_send-HasEnded (length input) (send_response b'S' sigval true c input)
      (command_loop m sigval (length input + 1) t) (send_response-NoLonger b'S' sigval true c input)
      (λ c' rest h. command_loop-HasEnded m sigval (length input + 1) t c' rest (omega arith))
