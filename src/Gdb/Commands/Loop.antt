-- ===== src/Gdb/Commands/Loop.antt =====
-- uhyve-gdb.c: the loop of `gdb_handle_exception` over the packets that arrive, and
-- `uhyve_gdb_handle_term`.
use hermit_caves.Base.{ℕ, zero, suc, true, List}
use hermit_caves.Gdb.Packet.{
  Recv, Conn, recv_packet, packet, null, exited, Sent, returned, aborted, send_packet,
  send_response,
}
use hermit_caves.Gdb.Commands.State.{Machine, Target, Step, answer, silent, resume, leave, crash}
use hermit_caves.Gdb.Commands.{handle_command}

-- How the loop ends: a return to the guest, the end of the process by `err` or `errx`, a failed
-- assertion or an access outside of an array or the guest; or it still runs.
pub data Ended : Type 0 where
  resumed : Target → Conn → List Recv → Ended
  died : Target → Conn → Ended
  crashed : Ended
  unfinished : Ended

-- The loop goes on from the end of `send_packet`.
abbrev pub after_send : Sent → (Conn → List Recv → Ended) → Ended
after_send (returned c rest) go_on = go_on c rest
after_send (aborted c) go_on = crashed

-- What follows a command, where `next` is the loop.
unfoldable pub perform : Step → (Target → Conn → List Recv → Ended) → Conn → List Recv → Ended
perform (answer text t) next c rest = after_send (send_packet text c rest) (next t)
perform (silent t) next c rest = next t c rest
perform (resume t) next c rest = resumed t c rest
perform (leave text t) next c rest = after_send (send_packet text c rest) (resumed t)
perform crash next c rest = crashed

-- `fuel` commands at most.
unfoldable pub command_loop : Machine → ℕ → ℕ → Target → Conn → List Recv → Ended
command_loop m sigval zero t c input = unfinished
command_loop m sigval (suc fuel) t c input = elim (recv_packet c input) [
  | packet text c' rest ↦
      perform (handle_command m sigval text t) (command_loop m sigval fuel) c' rest
  | null c' rest ↦ died t c'
  | exited c' ↦ died t c'
]

unfoldable pub gdb_handle_exception : Machine → ℕ → ℕ → Target → Conn → List Recv → Ended
gdb_handle_exception m sigval fuel t c input =
    after_send (send_response b'S' sigval true c input) (command_loop m sigval fuel t)

-- `uhyve_gdb_handle_term`, the last packet when the process ends.
unfoldable pub uhyve_gdb_handle_term : Conn → List Recv → Sent
uhyve_gdb_handle_term c input = send_response b'W' 0 true c input
