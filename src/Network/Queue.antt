-- ===== src/Network/Queue.antt =====
-- uhyve.c and uhyve-net.h: the queues of packets that uhyve shares with the guest, and the two threads
-- that serve them. The counters wrap at 2 ^ 64.
pub mod Contents
pub mod Runs
mod Tests
use hermit_caves.Base.{
  ℕ, zero, suc, ◌+◌, ◌-◌, ◌*◌, ◌%◌, ◌^◌, Bool, true, false, ltb, leb, ◌==◌, if◌then◌else◌, List, [],
  ◌∷◌, ◌++◌, Option, none, some, length, take, drop,
}

abbrev pub queue_size : ℕ
queue_size = 8

abbrev pub net_mtu : ℕ
net_mtu = 1500

-- `queue_inner_t`.
pub record QueueInner : Type 0 where
  pub len : ℕ
  pub payload : List ℕ

-- `shared_queue_t`.
pub record SharedQueue : Type 0 where
  pub read : ℕ
  pub written : ℕ
  pub inner : ℕ → QueueInner

-- `written_counter - read_counter`.
abbrev pub distance : ℕ → ℕ → ℕ
distance written_counter read_counter = (written_counter + 2 ^ 64 - read_counter) % 2 ^ 64

-- `atomic_uint64_inc`.
abbrev pub atomic_inc : ℕ → ℕ
atomic_inc counter = (counter + 1) % 2 ^ 64

abbrev pub put : (ℕ → QueueInner) → ℕ → QueueInner → ℕ → QueueInner
put inner idx slot i = if i == idx then slot else inner i

-- The slot after `read(netfd, inner[idx].data, UHYVE_NET_MTU)` returned these bytes.
abbrev pub fill_slot : QueueInner → List ℕ → QueueInner
fill_slot slot packet = record {
  len = length packet % 2 ^ 16;
  payload = packet ++ drop (length packet) slot.payload;
}

-- The rest of a round of `recieve_packets` once `read_counter` is read: `none` if the queue looks full
-- and the thread yields. No packet is a result of `read` that is not positive. The second component
-- says if the guest is told by `write(efd, ...)`.
unfoldable pub receive_packet : ℕ → List ℕ → SharedQueue → Option (Bool × SharedQueue)
receive_packet read_counter packet q =
    if ltb (distance q.written read_counter) queue_size
    then if ltb 0 (length packet)
      then some (
        true,
        record q {
          written = atomic_inc q.written;
          inner =
              put q.inner (q.written % queue_size)
                (fill_slot (q.inner (q.written % queue_size)) packet);
        },
      )
      else some (false, q)
    else none

-- What `transfer_packets` sends of a slot, if all `write`s of the loop go through.
abbrev pub sent_of : QueueInner → List ℕ
sent_of slot = if leb net_mtu slot.len then [] else take slot.len slot.payload

-- A round of `transfer_packets` behind `sem_wait`: the bytes that go to the network, and the queue.
unfoldable pub transfer_packet : SharedQueue → List ℕ × SharedQueue
transfer_packet q =
    if ltb 0 (distance q.written q.read)
    then (sent_of (q.inner (q.read % queue_size)), record q { read = atomic_inc q.read })
    else ([], q)
