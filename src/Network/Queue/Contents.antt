-- ===== src/Network/Queue/Contents.antt =====
-- The shared queue as a list of packets, and the two operations on it.
use hermit_caves.Base.{
  ℕ, zero, suc, ◌+◌, ◌%◌, ◌^◌, ◌≤◌, ◌<◌, ◌==◌, true, false, List, [], ◌∷◌, ◌++◌, some, length, take,
  drop, ◌≡◌, ◌≢◌, ◌⊎◌, inl, inr, refl, ap, ◌∙◌, sym, arith, take-append_exact, ne→==, lt→ltb,
}
use hermit_caves.Network.Queue.{
  queue_size, net_mtu, QueueInner, SharedQueue, distance, atomic_inc, put, fill_slot,
  receive_packet, sent_of, transfer_packet,
}

-- The packets in `n` slots from a counter on.
abbrev pub packet_of : QueueInner → List ℕ
packet_of slot = take slot.len slot.payload

unfoldable pub packets : (ℕ → QueueInner) → ℕ → ℕ → List (List ℕ)
packets inner zero counter = []
packets inner (suc n) counter =
    packet_of (inner (counter % queue_size)) ∷ packets inner n (atomic_inc counter)

abbrev pub contents : SharedQueue → List (List ℕ)
contents q = packets q.inner (distance q.written q.read) q.read

-- At most eight packets are between the counters.
abbrev pub IsQueue : SharedQueue → Type 0
IsQueue q = ((q.read < 2 ^ 64) × (q.written < 2 ^ 64)) × (distance q.written q.read ≤ queue_size)

-- A slot outside of a window is not read in it.
packets-put :
    (inner : ℕ → QueueInner) (n counter idx : ℕ) (slot : QueueInner)
    → counter < 2 ^ 64
    → ((i : ℕ) → i < n → (counter + i) % queue_size ≢ idx)
    → packets (put inner idx slot) n counter ≡ packets inner n counter
unfolding packets
packets-put inner zero counter idx slot h out = refl
packets-put inner (suc n) counter idx slot h out =
    let other : (counter % queue_size == idx) ≡ false =
      ne→== (counter % queue_size) idx (λ e. out 0 (omega arith) (omega (arith, e))) in
    rw other (
      ap (λ l. packet_of (inner (counter % queue_size)) ∷ l)
        (packets-put inner n (atomic_inc counter) idx slot (omega arith)
          (λ i less e. out (suc i) (omega arith) (omega (arith, e)))))

packets-snoc :
    (inner : ℕ → QueueInner) (n counter : ℕ)
    → counter < 2 ^ 64
    → packets inner (suc n) counter
      ≡ packets inner n counter ++ (packet_of (inner ((counter + n) % queue_size)) ∷ [])
unfolding packets
packets-snoc inner zero counter h = let e : counter + 0 ≡ counter = omega arith in rw e
packets-snoc inner (suc n) counter h =
    let e : (atomic_inc counter + n) % queue_size ≡ (counter + suc n) % queue_size = omega arith in
    ap (λ l. packet_of (inner (counter % queue_size)) ∷ l)
      (packets-snoc inner n (atomic_inc counter) (omega arith)
        ∙ ap (λ i. packets inner n (atomic_inc counter) ++ (packet_of (inner i) ∷ [])) e)

filled :
    (slot : QueueInner) (packet : List ℕ)
    → length packet < 2 ^ 16
    → packet_of (fill_slot slot packet) ≡ packet
filled slot packet h =
    let e : length packet % 2 ^ 16 ≡ length packet = omega arith in
    rw e (take-append_exact packet (drop (length packet) slot.payload))

-- A packet that arrives while the counter that was read says that there is room.
abbrev pub stored : SharedQueue → List ℕ → SharedQueue
stored q packet = record q {
  written = atomic_inc q.written;
  inner =
      put q.inner (q.written % queue_size) (fill_slot (q.inner (q.written % queue_size)) packet);
}

pub receive_packet_room :
    (seen : ℕ) (packet : List ℕ) (q : SharedQueue)
    → distance q.written seen < queue_size
    → 0 < length packet
    → receive_packet seen packet q ≡ some (true, stored q packet)
unfolding receive_packet
receive_packet_room seen packet q h k = ground arith

-- Let fewer than eight packets be in the queue, as seen by a read counter that may be older than the
-- real one. Then a packet of 1 to 1500 bytes from the network becomes the last one of the queue,
-- byte for byte, and the packets that are there stay as they are, whatever the counters are and
-- where they wrap; the queue holds eight packets at most, and the guest is told.
pub receive_packet-contents :
    (seen : ℕ) (packet : List ℕ) (q : SharedQueue)
    → IsQueue q
    → distance q.written q.read ≤ distance q.written seen
    → distance q.written seen < queue_size
    → 0 < length packet
    → length packet ≤ net_mtu
    → (q' : SharedQueue) × (receive_packet seen packet q ≡ some (true, q'))
      × IsQueue q'
      × (contents q' ≡ contents q ++ (packet ∷ []))
receive_packet-contents seen packet q ((h1, h2), h3) old room some_bytes small =
    let idx = q.written % queue_size in
    let slot = fill_slot (q.inner idx) packet in
    let n = distance q.written q.read in
    let grown : distance (atomic_inc q.written) q.read ≡ suc n = omega arith in
    let last : (q.read + n) % queue_size ≡ idx = omega arith in
    (
      stored q packet,
      receive_packet_room seen packet q room some_bytes,
      ((h1, omega arith), omega arith),
      ap (λ k. packets (put q.inner idx slot) k q.read) grown
          ∙ packets-snoc (put q.inner idx slot) n q.read h1
          ∙ rw (packets-put q.inner n q.read idx slot h1 (λ i less e. omega (arith, e))) (
              ap (λ p. packets q.inner n q.read ++ (p ∷ []))
                (rw last (ground arith) ∙ filled (q.inner idx) packet (omega arith))),
    )

transfer_some :
    (q : SharedQueue)
    → 0 < distance q.written q.read
    → transfer_packet q
      ≡ (sent_of (q.inner (q.read % queue_size)), record q { read = atomic_inc q.read })
unfolding transfer_packet
transfer_some q h = rw (lt→ltb 0 (distance q.written q.read) h)

transfer_none : (q : SharedQueue) → distance q.written q.read ≡ 0 → transfer_packet q ≡ ([], q)
unfolding transfer_packet
transfer_none q h = rw h

zero-or-suc : (n : ℕ) → (n ≡ 0) ⊎ ((m : ℕ) × (n ≡ suc m))
zero-or-suc zero = inl refl
zero-or-suc (suc m) = inr (m, refl)

-- The queue without its first packet.
abbrev pub tail : SharedQueue → SharedQueue
tail q = record q { read = atomic_inc q.read }

pub contents-tail :
    (q : SharedQueue)
    → IsQueue q
    → 0 < distance q.written q.read
    → IsQueue (tail q)
      × (contents q ≡ packet_of (q.inner (q.read % queue_size)) ∷ contents (tail q))
unfolding packets
contents-tail q ((h1, h2), h3) some_there = elim (zero-or-suc (distance q.written q.read)) [
  | inl e ↦ absurd (lt_irrefl (omega (arith, e)))
  | inr (m, e) ↦
      let less : distance q.written (atomic_inc q.read) ≡ m = omega (arith, e) in
      (
        ((omega arith, h2), omega (arith, e)),
        ap (λ n. packets q.inner n q.read) e
            ∙ ap
                (λ n.
                  packet_of (q.inner (q.read % queue_size)) ∷ packets q.inner n (atomic_inc q.read))
                (sym less),
      )
]
  where
    lt_irrefl : 0 < 0 → ⊥
    lt_irrefl h = omega arith

-- A round of `transfer_packets` takes the first packet of the queue out of it and leaves the others
-- in their order, and sends the packet unless its length is 1500 bytes or more. With no packet in
-- the queue it changes and sends nothing.
pub transfer_packet-contents :
    (q : SharedQueue)
    → IsQueue q
    → ((contents q ≡ []) × (transfer_packet q ≡ ([], q)))
      ⊎ ((transfer_packet q ≡ (sent_of (q.inner (q.read % queue_size)), tail q))
          × (IsQueue (tail q)
              × (contents q ≡ packet_of (q.inner (q.read % queue_size)) ∷ contents (tail q))))
unfolding packets
transfer_packet-contents q ok = elim (zero-or-suc (distance q.written q.read)) [
  | inl e ↦ inl (ap (λ n. packets q.inner n q.read) e, transfer_none q e)
  | inr (m, e) ↦ inr (transfer_some q (omega (arith, e)), contents-tail q ok (omega (arith, e)))
]
