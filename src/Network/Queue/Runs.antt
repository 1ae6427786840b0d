-- ===== src/Network/Queue/Runs.antt =====
-- The two ends of the receiving queue as interleaved steps: the thread of `recieve_packets` reads the
-- guest's counter, waits for a packet and stores it; the guest takes packets out at any time.
use mathlib.Core.Path.{subst}
use hermit_caves.Base.{
  ℕ, ◌%◌, ◌≤◌, ◌<◌, Bool, List, [], ◌∷◌, ◌++◌, Option, none, some, length, ◌≡◌, ap, ◌∙◌, sym, true,
  arith, append_assoc,
}
use hermit_caves.Network.Queue.{queue_size, net_mtu, SharedQueue, distance, receive_packet}
use hermit_caves.Network.Queue.Contents.{
  packet_of, contents, tail, contents-tail, IsQueue, receive_packet-contents,
}

-- The queue, the counter that the thread has read (if it has passed its inner loop), what arrived from
-- the network and what the guest took out.
pub record Link : Type 0 where
  pub queue : SharedQueue
  pub seen : Option ℕ
  pub arrived : List (List ℕ)
  pub taken : List (List ℕ)

pub data Step : Link → Link → Type 0 where
  look :
      (l : Link)
      → distance l.queue.written l.queue.read < queue_size
      → Step l (record l { seen = some l.queue.read })
  deliver :
      (l : Link) (counter : ℕ) (packet : List ℕ) (q : SharedQueue)
      → l.seen ≡ some counter
      → 0 < length packet
      → length packet ≤ net_mtu
      → receive_packet counter packet l.queue ≡ some (true, q)
      → Step l (record l { queue = q; seen = none; arrived = l.arrived ++ (packet ∷ []) })
  take_out :
      (l : Link)
      → 0 < distance l.queue.written l.queue.read
      → Step l (record l {
        queue = tail l.queue;
        taken = l.taken ++ (packet_of (l.queue.inner (l.queue.read % queue_size)) ∷ []);
      })

-- What steps lead to.
pub data Run : Link → Link → Type 0 where
  stay : (l : Link) → Run l l
  then : {l m n : Link} → Run l m → Step m n → Run l n

-- The counter that the thread has read is not ahead of the guest's, and promises room.
abbrev pub IsSeen : Option ℕ → SharedQueue → Type 0
IsSeen none q = Unit {0}
IsSeen (some counter) q =
    (distance q.written q.read ≤ distance q.written counter)
    × (distance q.written counter < queue_size)

abbrev pub Keeps : Link → Type 0
Keeps l = (IsQueue l.queue × IsSeen l.seen l.queue) × (l.arrived ≡ l.taken ++ contents l.queue)

result : SharedQueue → Option (Bool × SharedQueue) → SharedQueue
result q none = q
result q (some (told, q')) = q'

IsSeen-tail :
    (o : Option ℕ) (q : SharedQueue)
    → IsQueue q
    → 0 < distance q.written q.read
    → IsSeen o q
    → IsSeen o (tail q)
IsSeen-tail none q ok some_there h = tt
IsSeen-tail (some counter) q ((h1, h2), h3) some_there (old, room) = (omega arith, room)

Step-Keeps : {l m : Link} → Step l m → Keeps l → Keeps m
unfolding result
Step-Keeps (look l room) ((ok, seen), e) = ((ok, (omega arith, room)), e)
Step-Keeps (deliver l counter packet q s some_bytes small received) ((ok, seen), e) =
    let (old, room) = subst (λ o. IsSeen o l.queue) s seen in
    let (q', r, ok', grown) =
      receive_packet-contents counter packet l.queue ok old room some_bytes small in
    let same : q' ≡ q = ap (result l.queue) (sym r ∙ received) in
    (
      (subst IsQueue same ok', tt),
      ap (λ p. p ++ (packet ∷ [])) e
          ∙ append_assoc l.taken (contents l.queue) (packet ∷ [])
          ∙ ap (λ c. l.taken ++ c) (sym grown ∙ ap contents same),
    )
Step-Keeps (take_out l some_there) ((ok, seen), e) =
    let (ok', head) = contents-tail l.queue ok some_there in
    (
      (ok', IsSeen-tail l.seen l.queue ok some_there seen),
      e
          ∙ ap (λ c. l.taken ++ c) head
          ∙ sym (
              append_assoc l.taken (packet_of (l.queue.inner (l.queue.read % queue_size)) ∷ [])
                (contents (tail l.queue))),
    )

Run-Keeps : {l m : Link} → Run l m → Keeps l → Keeps m
Run-Keeps (stay l) h = h
Run-Keeps (then run step) h = Step-Keeps step (Run-Keeps run h)

-- Whatever the interleaving of the thread and the guest, from a link with nothing under way: what
-- arrived from the network is what the guest took out followed by what is in the queue. No packet is
-- lost, doubled, changed or moved, and the queue never holds more than eight.
pub no_packet_lost :
    {l m : Link}
    → Run l m
    → IsQueue l.queue
    → contents l.queue ≡ []
    → l.seen ≡ none
    → l.arrived ≡ []
    → l.taken ≡ []
    → IsQueue m.queue × (m.arrived ≡ m.taken ++ contents m.queue)
no_packet_lost {l = l} run ok empty blind a t =
    let start : Keeps l = (
      (ok, subst (λ o. IsSeen o l.queue) (sym blind) tt),
      a ∙ sym (ap (λ x. x ++ contents l.queue) t ∙ empty),
    ) in
    let ((ok', seen), e) = Run-Keeps run start in (ok', e)
