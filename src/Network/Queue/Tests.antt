-- ===== src/Network/Queue/Tests.antt =====
-- A run of the receiving queue across the end of its counters, and instances of the theorems.
use hermit_caves.Base.{
  ℕ, ◌-◌, ◌%◌, ◌^◌, true, some, none, List, [], ◌∷◌, ◌++◌, ◌≡◌, ◌⊎◌, refl, arith,
}
use hermit_caves.Network.Queue.{SharedQueue, queue_size, receive_packet, transfer_packet, sent_of}
use hermit_caves.Network.Queue.Contents.{
  contents, packets, packet_of, tail, IsQueue, stored, receive_packet_room, receive_packet-contents,
  transfer_packet-contents,
}
use hermit_caves.Network.Queue.Runs.{Link, Run, stay, then, look, deliver, take_out, no_packet_lost}

-- The counters stand at the end of their range.
abbrev empty : SharedQueue
empty = record {
  read = 2 ^ 64 - 1;
  written = 2 ^ 64 - 1;
  inner = λ i. record { len = 0; payload = [] };
}

abbrev frame : List ℕ
frame = 1 ∷ 2 ∷ 3 ∷ []

empty-IsQueue : IsQueue empty
empty-IsQueue = ((omega arith, omega arith), omega arith)

empty-contents : contents empty ≡ []
unfolding packets
empty-contents = refl

receive_packet-contents_example :
    (q : SharedQueue) × (receive_packet (2 ^ 64 - 1) frame empty ≡ some (true, q))
    × IsQueue q
    × (contents q ≡ contents empty ++ (frame ∷ []))
receive_packet-contents_example =
    receive_packet-contents (2 ^ 64 - 1) frame empty empty-IsQueue (omega arith) (omega arith)
      (omega arith) (omega arith)

full-IsQueue : IsQueue (stored empty frame)
full-IsQueue = ((omega arith, omega arith), omega arith)

transfer_packet-contents_example :
    ((contents (stored empty frame) ≡ [])
      × (transfer_packet (stored empty frame) ≡ ([], stored empty frame)))
    ⊎ ((transfer_packet (stored empty frame) ≡ (
      sent_of ((stored empty frame).inner ((stored empty frame).read % queue_size)),
      tail (stored empty frame),
    ))
        × (IsQueue (tail (stored empty frame))
            × (contents (stored empty frame)
                ≡ packet_of ((stored empty frame).inner ((stored empty frame).read % queue_size))
                  ∷ contents (tail (stored empty frame)))))
transfer_packet-contents_example = transfer_packet-contents (stored empty frame) full-IsQueue

abbrev idle : Link
idle = record { queue = empty; seen = none; arrived = []; taken = [] }

abbrev looked : Link
looked = record idle { seen = some (2 ^ 64 - 1) }

abbrev delivered : Link
delivered = record { queue = stored empty frame; seen = none; arrived = frame ∷ []; taken = [] }

abbrev emptied : Link
emptied = record {
  queue = tail (stored empty frame);
  seen = none;
  arrived = frame ∷ [];
  taken = frame ∷ [];
}

one_packet : Run idle emptied
one_packet =
    then
      (then (then (stay idle) (look idle (omega arith))) (
        deliver looked (2 ^ 64 - 1) frame (stored empty frame) refl (omega arith) (omega arith)
          (receive_packet_room (2 ^ 64 - 1) frame empty (omega arith) (omega arith))))
      (take_out delivered (omega arith))

no_packet_lost_example :
    IsQueue emptied.queue × (emptied.arrived ≡ emptied.taken ++ contents emptied.queue)
no_packet_lost_example = no_packet_lost one_packet empty-IsQueue empty-contents refl refl refl
