-- ===== src/Migration/Transferred.antt =====
-- What the destination of a migration has received.
use hermit_caves.Base.{
  ℕ, ◌*◌, ◌^◌, ◌<◌, true, ◌||◌, not, List, [], ◌∷◌, ◌++◌, length, take, drop, ◌≡◌, inl, inr, refl,
  ap, ◌∙◌, sym, arith, append_assoc, length-append, take-append_exact, drop-append_exact,
}
use hermit_caves.Base.Memory.{Memory}
use hermit_caves.Regions.{MemChunk}
use hermit_caves.Regions.Slots.{Covers}
use hermit_caves.Syscalls.Wire.{bytes_of, word_of, word_of-bytes_of, length-bytes_of}
use hermit_caves.Vcpu.Transfer.{bytes_at, store_bytes}
use hermit_caves.Vcpu.Written.{length-bytes_at}
use hermit_caves.Vcpu.Bytes.{store_inside, store_outside, where-is}
use hermit_caves.Migration.{
  MigParams, chunk_bytes, read_chunks, regions_sent, send_mem_regions, precopy_phase,
  stop_and_copy_phase, recv_mem_regions, recv_guest_mem, is_live, is_none,
}

-- Sizes and pointers of 64 bits.
abbrev pub AreChunks : List MemChunk → Type 0
AreChunks [] = Unit {0}
AreChunks (c ∷ cs) = ((c.size < 2 ^ 64) × (c.ptr < 2 ^ 64)) × AreChunks cs

-- One chunk of the stream.
recv_chunk :
    (m m0 : Memory) (c : MemChunk) (cs : List MemChunk) (rest : List ℕ)
    → recv_guest_mem (c ∷ cs) (bytes_at m c.ptr c.size ++ rest) m0
      ≡ recv_guest_mem cs rest (store_bytes m0 c.ptr (bytes_at m c.ptr c.size))
unfolding recv_guest_mem
recv_chunk m m0 c cs rest =
    let size = length-bytes_at m c.ptr c.size in
    let kept : take c.size (bytes_at m c.ptr c.size ++ rest) ≡ bytes_at m c.ptr c.size =
      ap (λ n. take n (bytes_at m c.ptr c.size ++ rest)) (sym size)
      ∙ take-append_exact (bytes_at m c.ptr c.size) rest in
    let left : drop c.size (bytes_at m c.ptr c.size ++ rest) ≡ rest =
      ap (λ n. drop n (bytes_at m c.ptr c.size ++ rest)) (sym size)
      ∙ drop-append_exact (bytes_at m c.ptr c.size) rest in
    rw kept (rw left refl)

stays :
    (cs : List MemChunk) (m m0 : Memory) (x : ℕ) (rest : List ℕ)
    → m0 x ≡ m x
    → (recv_guest_mem cs (stop_and_copy_phase cs m ++ rest) m0).0 x ≡ m x
unfolding stop_and_copy_phase recv_guest_mem
stays [] m m0 x rest h = h
stays (c ∷ cs) m m0 x rest h =
    ap (λ s. (recv_guest_mem (c ∷ cs) s m0).0 x)
      (append_assoc (bytes_at m c.ptr c.size) (stop_and_copy_phase cs m) rest)
    ∙ ap (λ r. r.0 x) (recv_chunk m m0 c cs (stop_and_copy_phase cs m ++ rest))
    ∙ stays cs m (store_bytes m0 c.ptr (bytes_at m c.ptr c.size)) x rest
        (elim (where-is c.ptr c.size x) [
          | inl (low, high) ↦ store_inside m m0 c.ptr c.size x low high
          | inr out ↦ store_outside m m0 c.ptr c.size x out ∙ h
        ])

arrives :
    (cs : List MemChunk) (m m0 : Memory) (x : ℕ) (rest : List ℕ)
    → Covers cs x
    → (recv_guest_mem cs (stop_and_copy_phase cs m ++ rest) m0).0 x ≡ m x
unfolding stop_and_copy_phase recv_guest_mem
arrives [] m m0 x rest h = absurd h
arrives (c ∷ cs) m m0 x rest h =
    ap (λ s. (recv_guest_mem (c ∷ cs) s m0).0 x)
      (append_assoc (bytes_at m c.ptr c.size) (stop_and_copy_phase cs m) rest)
    ∙ ap (λ r. r.0 x) (recv_chunk m m0 c cs (stop_and_copy_phase cs m ++ rest))
    ∙ elim h [
      | inl (low, high) ↦
          stays cs m (store_bytes m0 c.ptr (bytes_at m c.ptr c.size)) x rest
            (store_inside m m0 c.ptr c.size x low high)
      | inr later ↦ arrives cs m (store_bytes m0 c.ptr (bytes_at m c.ptr c.size)) x rest later
    ]

spared :
    (cs : List MemChunk) (m m0 : Memory) (x : ℕ) (rest : List ℕ)
    → (Covers cs x → ⊥)
    → (recv_guest_mem cs (stop_and_copy_phase cs m ++ rest) m0).0 x ≡ m0 x
unfolding stop_and_copy_phase recv_guest_mem
spared [] m m0 x rest h = refl
spared (c ∷ cs) m m0 x rest h =
    ap (λ s. (recv_guest_mem (c ∷ cs) s m0).0 x)
      (append_assoc (bytes_at m c.ptr c.size) (stop_and_copy_phase cs m) rest)
    ∙ ap (λ r. r.0 x) (recv_chunk m m0 c cs (stop_and_copy_phase cs m ++ rest))
    ∙ spared cs m (store_bytes m0 c.ptr (bytes_at m c.ptr c.size)) x rest (λ k. h (inr k))
    ∙ elim (where-is c.ptr c.size x) [
      | inl inside ↦ absurd (h (inl inside))
      | inr out ↦ store_outside m m0 c.ptr c.size x out
    ]

leaves :
    (cs : List MemChunk) (m m0 : Memory) (rest : List ℕ)
    → (recv_guest_mem cs (stop_and_copy_phase cs m ++ rest) m0).1 ≡ rest
unfolding stop_and_copy_phase recv_guest_mem
leaves [] m m0 rest = refl
leaves (c ∷ cs) m m0 rest =
    ap (λ s. (recv_guest_mem (c ∷ cs) s m0).1)
      (append_assoc (bytes_at m c.ptr c.size) (stop_and_copy_phase cs m) rest)
    ∙ ap (λ r. r.1) (recv_chunk m m0 c cs (stop_and_copy_phase cs m ++ rest))
    ∙ leaves cs m (store_bytes m0 c.ptr (bytes_at m c.ptr c.size)) rest

word-first : (v : ℕ) (xs : List ℕ) → v < 2 ^ 64 → word_of (take 8 (bytes_of 8 v ++ xs)) ≡ v
word-first v xs h =
    ap (λ n. word_of (take n (bytes_of 8 v ++ xs))) (sym (length-bytes_of 8 v))
    ∙ ap word_of (take-append_exact (bytes_of 8 v) xs)
    ∙ word_of-bytes_of 8 v h

word-behind : (v : ℕ) (xs : List ℕ) → drop 8 (bytes_of 8 v ++ xs) ≡ xs
word-behind v xs =
    ap (λ n. drop n (bytes_of 8 v ++ xs)) (sym (length-bytes_of 8 v))
    ∙ drop-append_exact (bytes_of 8 v) xs

read_chunks-chunk_bytes :
    (cs : List MemChunk) (rest : List ℕ)
    → AreChunks cs
    → read_chunks (length cs) (chunk_bytes cs ++ rest) ≡ cs
unfolding read_chunks chunk_bytes
read_chunks-chunk_bytes [] rest h = refl
read_chunks-chunk_bytes (c ∷ cs) rest h =
    let tail = bytes_of 8 c.ptr ++ (chunk_bytes cs ++ rest) in
    let cut : (bytes_of 8 c.size ++ (bytes_of 8 c.ptr ++ chunk_bytes cs)) ++ rest
        ≡ bytes_of 8 c.size ++ tail =
      append_assoc (bytes_of 8 c.size) (bytes_of 8 c.ptr ++ chunk_bytes cs) rest
      ∙ ap (λ l. bytes_of 8 c.size ++ l) (append_assoc (bytes_of 8 c.ptr) (chunk_bytes cs) rest) in
    rw cut (
      rw (word-first c.size tail h.0.0) (
        rw (word-behind c.size tail) (
          rw (word-first c.ptr (chunk_bytes cs ++ rest) h.0.1) (
            rw (word-behind c.ptr (chunk_bytes cs ++ rest))
              (ap (λ l. c ∷ l) (read_chunks-chunk_bytes cs rest h.1))))))

length-chunk_bytes : (cs : List MemChunk) → length (chunk_bytes cs) ≡ length cs * 16
unfolding chunk_bytes
length-chunk_bytes [] = omega arith
length-chunk_bytes (c ∷ cs) = omega (
  arith,
  length-append {0} (bytes_of 8 c.size) (bytes_of 8 c.ptr ++ chunk_bytes cs),
  length-append {0} (bytes_of 8 c.ptr) (chunk_bytes cs),
  length-bytes_of 8 c.size,
  length-bytes_of 8 c.ptr,
  length-chunk_bytes cs,
)

drop-chunk_bytes :
    (cs : List MemChunk) (rest : List ℕ) → drop (length cs * 16) (chunk_bytes cs ++ rest) ≡ rest
drop-chunk_bytes cs rest =
    ap (λ n. drop n (chunk_bytes cs ++ rest)) (sym (length-chunk_bytes cs))
    ∙ drop-append_exact (chunk_bytes cs) rest

recv-send :
    (p : MigParams) (physical used : List MemChunk) (rest : List ℕ)
    → AreChunks (regions_sent p physical used)
    → length (regions_sent p physical used) < 2 ^ 60
    → recv_mem_regions (send_mem_regions p physical used ++ rest)
      ≡ (regions_sent p physical used, rest)
unfolding recv_mem_regions send_mem_regions
recv-send p physical used rest h small =
    let cs = regions_sent p physical used in
    let cut : (bytes_of 8 (length cs) ++ chunk_bytes cs) ++ rest
        ≡ bytes_of 8 (length cs) ++ (chunk_bytes cs ++ rest) =
      append_assoc (bytes_of 8 (length cs)) (chunk_bytes cs) rest in
    rw cut (
      rw (word-first (length cs) (chunk_bytes cs ++ rest) (omega arith)) (
        rw (word-behind (length cs) (chunk_bytes cs ++ rest))
          (rw (read_chunks-chunk_bytes cs rest h) (rw (drop-chunk_bytes cs rest) refl))))

-- Let the migration be live, or the guest have named memory in use. Then what the source sends, the
-- regions and behind them the memory, is received by the destination as it was meant: the regions are
-- those that were sent, every byte in one of them is as at the source, every other byte of the
-- destination is as before, and what follows in the stream is left.
pub recv_guest_mem-send_mem_regions :
    (p : MigParams) (physical used : List MemChunk) (m m0 : Memory) (rest : List ℕ)
    → AreChunks (regions_sent p physical used)
    → length (regions_sent p physical used) < 2 ^ 60
    → (is_live p.type || not (is_none used)) ≡ true
    → let sent = stop_and_copy_phase (precopy_phase p physical used) m in
      let received = recv_mem_regions (send_mem_regions p physical used ++ (sent ++ rest)) in
      (received.0 ≡ regions_sent p physical used)
      × (((x : ℕ)
            → Covers (regions_sent p physical used) x
            → (recv_guest_mem received.0 received.1 m0).0 x ≡ m x)
          × ((x : ℕ)
              → (Covers (regions_sent p physical used) x → ⊥)
              → (recv_guest_mem received.0 received.1 m0).0 x ≡ m0 x)
          × ((recv_guest_mem received.0 received.1 m0).1 ≡ rest))
unfolding precopy_phase
recv_guest_mem-send_mem_regions p physical used m m0 rest h small some_way =
    let same : precopy_phase p physical used ≡ regions_sent p physical used = ground arith in
    let cs = regions_sent p physical used in
    let sent = stop_and_copy_phase (precopy_phase p physical used) m in
    let all = recv-send p physical used (sent ++ rest) h small in
    let is_sent : sent ≡ stop_and_copy_phase cs m = ap (λ l. stop_and_copy_phase l m) same in
    (
      ap (λ r. r.0) all,
      (
        λ x k.
            ap (λ r. (recv_guest_mem r.0 r.1 m0).0 x) all
            ∙ ap (λ l. (recv_guest_mem cs (l ++ rest) m0).0 x) is_sent
            ∙ arrives cs m m0 x rest k,
        λ x k.
            ap (λ r. (recv_guest_mem r.0 r.1 m0).0 x) all
            ∙ ap (λ l. (recv_guest_mem cs (l ++ rest) m0).0 x) is_sent
            ∙ spared cs m m0 x rest k,
        ap (λ r. (recv_guest_mem r.0 r.1 m0).1) all
            ∙ ap (λ l. (recv_guest_mem cs (l ++ rest) m0).1) is_sent
            ∙ leaves cs m m0 rest,
      ),
    )
