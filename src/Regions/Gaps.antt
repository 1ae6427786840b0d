-- ===== src/Regions/Gaps.antt =====
-- What `determine_mem_mappings` takes for allocated, below the gap.
use hermit_caves.Base.{
  ℕ, zero, suc, ◌+◌, ◌-◌, ◌%◌, ◌^◌, ◌≤◌, ◌<◌, ltb, ◌==◌, true, false, List, [], ◌∷◌, length, ◌≡◌,
  ◌≢◌, refl, ap, ◌∙◌, sym, arith, ne→==,
}
use hermit_caves.Regions.{
  gap_start, gap_end, sub64, MemChunk, MemMappings, put_chunk, check_for_io_gap, FreeRegion,
  fill_chunks, first_chunk, determine_mem_mappings, behind_last,
}

-- The free regions lie in their order from an address on, and end below the gap.
abbrev pub AreSorted : ℕ → List FreeRegion → ℕ → Type 0
AreSorted from [] size = (from ≤ size) × (size < gap_start)
AreSorted from (r ∷ rs) size = ((from ≤ r.start) × (r.start ≤ r.end)) × AreSorted r.end rs size

sorted-below : (rs : List FreeRegion) (from size : ℕ) → AreSorted from rs size → from < gap_start
sorted-below [] from size h = omega (arith, h.0, h.1)
sorted-below (r ∷ rs) from size h = omega (arith, h.0.0, h.0.1, sorted-below rs r.end size h.1)

-- The chunks between the free regions.
abbrev pub between : ℕ → List FreeRegion → List MemChunk
between from [] = []
between from (r ∷ rs) = record { size = r.start - from; ptr = from } ∷ between r.end rs

abbrev pub last_region : FreeRegion → List FreeRegion → FreeRegion
last_region r [] = r
last_region r (next ∷ rest) = last_region next rest

-- The chunks of an array from an index on.
abbrev pub chunks_from : ℕ → ℕ → MemMappings → List MemChunk
chunks_from i zero mm = []
chunks_from i (suc n) mm = mm.mem_chunks i ∷ chunks_from (i + 1) n mm

-- A chunk that ends below the gap stays as it is.
check_below :
    (i : ℕ) (c : MemChunk) (mm : MemMappings)
    → c.ptr + c.size < gap_start
    → check_for_io_gap i (put_chunk i c mm) ≡ (i, put_chunk i c mm)
unfolding check_for_io_gap
check_below i c mm h =
    let self : (i == i) ≡ true = ground arith in
    let small : (c.ptr + c.size) % 2 ^ 64 ≡ c.ptr + c.size = omega arith in
    let starts : (c.ptr == gap_start) ≡ false = ground arith in
    let ends : (c.ptr + c.size == gap_end) ≡ false = ground arith in
    let over : ltb gap_end (c.ptr + c.size) ≡ false = ground arith in
    rw self (rw small (rw starts (rw ends (rw over (ground arith)))))

put_self : (i : ℕ) (c : MemChunk) (mm : MemMappings) → (put_chunk i c mm).mem_chunks i ≡ c
put_self i c mm = ground arith

put_other :
    (i j : ℕ) (c : MemChunk) (mm : MemMappings)
    → j ≢ i
    → (put_chunk i c mm).mem_chunks j ≡ mm.mem_chunks j
put_other i j c mm h = let e = ne→== j i h in rw e refl

lt_irrefl : {n : ℕ} → n < n → ⊥
lt_irrefl h = omega arith

fill_lem :
    (rest : List FreeRegion) (i : ℕ) (cur : FreeRegion) (mm : MemMappings) (size : ℕ)
    → i + length rest < 2 ^ 64
    → AreSorted cur.end rest size
    → (mm' : MemMappings) × (fill_chunks i cur mm rest
        ≡ record { cur_slot = i + length rest; cur = last_region cur rest; mappings = mm' })
      × (chunks_from i (length rest) mm' ≡ between cur.end rest)
      × ((mm'.count ≡ mm.count) × ((j : ℕ) → j < i → mm'.mem_chunks j ≡ mm.mem_chunks j))
unfolding fill_chunks
fill_lem [] i cur mm size h s =
    let e : i + 0 ≡ i = omega arith in (mm, rw e refl, refl, (refl, λ j k. refl))
fill_lem (next ∷ rest) i cur mm size h s =
    let c : MemChunk = record { size = sub64 next.start cur.end; ptr = cur.end } in
    let below = sorted-below rest next.end size s.1 in
    let exact : sub64 next.start cur.end ≡ next.start - cur.end =
      omega (arith, s.0.0, s.0.1, below) in
    let up : (i + 1) % 2 ^ 64 ≡ i + 1 = omega arith in
    let (mm', e, chunks, (count, kept)) =
      fill_lem rest (i + 1) next (put_chunk i c mm) size (omega arith) s.1 in
    let more : i + 1 + length rest ≡ i + suc (length rest) = omega arith in
    (
      mm',
      ap (λ r. fill_chunks ((r.0 + 1) % 2 ^ 64) next r.1 rest)
            (check_below i c mm (omega (arith, exact, s.0.0, s.0.1, below)))
          ∙ ap (λ k. fill_chunks k next (put_chunk i c mm) rest) up
          ∙ e
          ∙ ap (λ k. record { cur_slot = k; cur = last_region next rest; mappings = mm' }) more,
      ap (λ l. mm'.mem_chunks i ∷ l) chunks
          ∙ ap (λ x. x ∷ between next.end rest)
              (kept i (omega arith)
                ∙ put_self i c mm
                ∙ ap (λ n. record { size = n; ptr = cur.end }) exact),
      (
        count,
        λ j k.
            kept j (omega arith)
            ∙ put_other i j c mm (λ q. lt_irrefl {n = i} (omega (arith, k, q))),
      ),
    )

last-below :
    (rest : List FreeRegion) (cur : FreeRegion) (size : ℕ)
    → AreSorted cur.end rest size
    → ((last_region cur rest).end ≤ size) × (size < gap_start)
last-below [] cur size s = s
last-below (next ∷ rest) cur size s = last-below rest next size s.1

chunks-put :
    (n i k : ℕ) (c : MemChunk) (mm : MemMappings)
    → i + n ≤ k
    → chunks_from i n (put_chunk k c mm) ≡ chunks_from i n mm
chunks-put zero i k c mm h = refl
chunks-put (suc n) i k c mm h =
    ap (λ x. x ∷ chunks_from (i + 1) n (put_chunk k c mm))
      (put_other k i c mm (λ q. lt_irrefl {n = i} (omega (arith, h, q))))
    ∙ ap (λ l. mm.mem_chunks i ∷ l) (chunks-put n (i + 1) k c mm (omega arith))

behind_last_lem :
    (guest_size i : ℕ) (cur : FreeRegion) (mm : MemMappings)
    → cur.end ≤ guest_size
    → guest_size < gap_start
    → cur.end ≢ guest_size
    → behind_last guest_size (record { cur_slot = i; cur = cur; mappings = mm })
      ≡ put_chunk i (record { size = guest_size - cur.end; ptr = cur.end }) mm
unfolding behind_last
behind_last_lem guest_size i cur mm in_guest small behind =
    let open_end : (guest_size == cur.end) ≡ false =
      ne→== guest_size cur.end (λ q. behind (sym q)) in
    let exact : sub64 guest_size cur.end ≡ guest_size - cur.end = omega arith in
    rw open_end (
      rw exact (
        ap (λ r. r.1)
          (check_below i (record { size = guest_size - cur.end; ptr = cur.end }) mm (omega arith))))

-- Let the free regions be in their order, the first one behind 8 MiB, and let the guest end below the
-- gap, and not with the last free region. Then the chunks that `determine_mem_mappings` counts are
-- the memory from 8 MiB to the first free region and that between two of them, and the chunk of the
-- memory behind the last free region stands in the array right behind those that are counted.
pub determine_mem_mappings_below :
    (heap : ℕ → MemChunk) (guest_size : ℕ) (free_list : FreeRegion) (rest : List FreeRegion)
    → suc (length rest) < 2 ^ 64
    → AreSorted first_chunk (free_list ∷ rest) guest_size
    → (last_region free_list rest).end ≢ guest_size
    → let mm = determine_mem_mappings heap guest_size free_list rest in
      (mm.count ≡ suc (length rest))
      × ((chunks_from 0 mm.count mm ≡ between first_chunk (free_list ∷ rest))
          × (mm.mem_chunks mm.count ≡ record {
            size = guest_size - (last_region free_list rest).end;
            ptr = (last_region free_list rest).end;
          }))
unfolding determine_mem_mappings
determine_mem_mappings_below heap guest_size free_list rest h s behind =
    let n = length rest in
    let mm0 : MemMappings = record { mem_chunks = heap; count = suc n } in
    let c : MemChunk = record { size = sub64 free_list.start first_chunk; ptr = first_chunk } in
    let region = last_region free_list rest in
    let d : MemChunk = record { size = guest_size - region.end; ptr = region.end } in
    let below = sorted-below rest free_list.end guest_size s.1 in
    let (in_guest, small) = last-below rest free_list guest_size s.1 in
    let exact : sub64 free_list.start first_chunk ≡ free_list.start - first_chunk =
      omega (arith, s.0.0, s.0.1, below) in
    let one : (0 + 1) % 2 ^ 64 ≡ 1 = omega arith in
    let (mm', e, chunks, (count, kept)) =
      fill_lem rest 1 free_list (put_chunk 0 c mm0) guest_size (omega arith) s.1 in
    let slot : 1 + n ≡ suc n = omega arith in
    let result : determine_mem_mappings heap guest_size free_list rest ≡ put_chunk (suc n) d mm' =
      ap (λ r. behind_last guest_size (fill_chunks ((r.0 + 1) % 2 ^ 64) free_list r.1 rest))
        (check_below 0 c mm0 (omega (arith, exact, s.0.0, s.0.1, below)))
      ∙ ap (λ k. behind_last guest_size (fill_chunks k free_list (put_chunk 0 c mm0) rest)) one
      ∙ ap (behind_last guest_size) e
      ∙ behind_last_lem guest_size (1 + n) region mm' in_guest small behind
      ∙ ap (λ k. put_chunk k d mm') slot in
    let first : mm'.mem_chunks 0
        ≡ record { size = free_list.start - first_chunk; ptr = first_chunk } =
      kept 0 (omega arith)
      ∙ put_self 0 c mm0
      ∙ ap (λ k. record { size = k; ptr = first_chunk }) exact in
    let all = put_chunk (suc n) d mm' in
    rw result (
      count,
      (
        ap (λ k. chunks_from 0 k all) count
            ∙ chunks-put (suc n) 0 (suc n) d mm' (omega arith)
            ∙ ap (λ l. mm'.mem_chunks 0 ∷ l) chunks
            ∙ ap (λ x. x ∷ between free_list.end rest) first,
        ap (λ k. all.mem_chunks k) count ∙ put_self (suc n) d mm',
      ),
    )
