-- ===== src/Kernel/Image.antt =====
-- What stands in the guest's memory when the segments are loaded.
use hermit_caves.Base.{
  ℕ, zero, suc, ◌+◌, ◌-◌, ◌%◌, ◌^◌, ◌≤◌, ◌<◌, Bool, true, false, ltb, leb, ◌==◌, ◌&&◌, ◌||◌,
  if◌then◌else◌, some, List, [], ◌∷◌, ◌≡◌, refl, ap, ◌∙◌, arith, length, take, drop, length-take,
  length-drop, get_or, Bool-cases, inl, inr,
}
use hermit_caves.Base.Memory.{Memory}
use hermit_caves.Vcpu.Transfer.{store_bytes}
use hermit_caves.Kernel.Elf.{Phdr, pt_load, pt_tls}
use hermit_caves.Kernel.Header.{Platform, set_tls}
use hermit_caves.Kernel.Header.Frame.{
  Outside, set_tls_outside, describe_kernel_outside, set_image_size_outside,
}
use hermit_caves.Kernel.{
  Reader, Loading, loaded, is_negative, place_segment, read_segment, load_segment, load_segments,
}

-- Segments of both types are loaded.
abbrev pub is_loaded : Phdr → Bool
is_loaded ph = ph.type == pt_tls || ph.type == pt_load

abbrev pub covers : Phdr → ℕ → Bool
covers ph x = is_loaded ph && (leb ph.paddr x && ltb x (ph.paddr + ph.filesz))

-- The address gets its byte from one of the segments.
abbrev pub covered : List Phdr → ℕ → Bool
covered [] x = false
covered (ph ∷ phs) x = covers ph x || covered phs x

-- A segment that is loaded lies in the file, has less than 2 GiB there, and its bytes are those of the
-- image.
abbrev pub Fits : List ℕ → (ℕ → ℕ) → Phdr → Type 0
Fits file image ph =
    is_loaded ph ≡ true
    → (ph.offset + ph.filesz ≤ length file)
      × (ph.filesz < 2 ^ 31)
      × ((i : ℕ) → i < ph.filesz → get_or file (ph.offset + i) 0 ≡ image (ph.paddr + i))

abbrev pub AllFit : List ℕ → (ℕ → ℕ) → List Phdr → Type 0
AllFit file image [] = Unit {0}
AllFit file image (ph ∷ phs) = Fits file image ph × AllFit file image phs

-- What `pread_in_full` reads of a part that is in the file.
abbrev pub ReadsFile : Reader → List ℕ → Type 0
ReadsFile read file =
    (count offset : ℕ)
    → offset + count ≤ length file
    → read count offset ≡ some (take count (drop offset file))

-- The byte at an address after the segments were loaded.
abbrev pub expected : (ℕ → ℕ) → List Phdr → Memory → ℕ → ℕ
expected image phs m x = if covered phs x then image x else m x

get_or-take : (n i : ℕ) (xs : List ℕ) → i < n → get_or (take n xs) i 0 ≡ get_or xs i 0
get_or-take zero i xs h = absurd (omega arith)
get_or-take (suc n) i [] h = refl
get_or-take (suc n) zero (x ∷ xs) h = refl
get_or-take (suc n) (suc i) (x ∷ xs) h = get_or-take n i xs (omega arith)

get_or-drop : (n i : ℕ) (xs : List ℕ) → get_or (drop n xs) i 0 ≡ get_or xs (n + i) 0
get_or-drop zero i xs = let e : 0 + i ≡ i = omega arith in rw e refl
get_or-drop (suc n) i [] = refl
get_or-drop (suc n) i (x ∷ xs) =
    let e : suc n + i ≡ suc (n + i) = omega arith in rw e (get_or-drop n i xs)

-- The bytes of a segment that is stored.
store_segment :
    (file : List ℕ) (image : ℕ → ℕ) (ph : Phdr) (m : Memory) (x : ℕ)
    → is_loaded ph ≡ true
    → Fits file image ph
    → store_bytes m ph.paddr (take ph.filesz (drop ph.offset file)) x
      ≡ (if covers ph x then image x else m x)
unfolding store_bytes
store_segment file image ph m x h fits =
    let (inside, small, same) = fits h in
    let size : length (take ph.filesz (drop ph.offset file)) ≡ ph.filesz =
      omega (arith, length-take ph.filesz (drop ph.offset file), length-drop ph.offset file) in
    let byte : ph.paddr ≤ x
        → x < ph.paddr + ph.filesz
        → get_or (take ph.filesz (drop ph.offset file)) (x - ph.paddr) 0 ≡ image x =
      λ low high.
        get_or-take ph.filesz (x - ph.paddr) (drop ph.offset file) (omega arith)
        ∙ get_or-drop ph.offset (x - ph.paddr) file
        ∙ same (x - ph.paddr) (omega arith)
        ∙ ap image (omega arith) in
    rw size (
      rw h (elim (Bool-cases (leb ph.paddr x && ltb x (ph.paddr + ph.filesz))) [
        | inl t ↦ rw t (byte (ground arith) (ground arith))
        | inr f ↦ rw f refl
      ]))

module _ (p : Platform) (read : Reader) (file : List ℕ) (image : ℕ → ℕ) (kheader : ℕ)
    (reads : ReadsFile read file) where
  segment_bytes : Phdr → List ℕ
  segment_bytes ph = take ph.filesz (drop ph.offset file)

  read_segment_works :
      (ph : Phdr) (l : Loading)
      → is_loaded ph ≡ true
      → Fits file image ph
      → read_segment p read kheader ph l ≡ loaded (place_segment p kheader ph (segment_bytes ph) l)
  unfolding read_segment segment_bytes
  read_segment_works ph l h fits =
      let size : length (take ph.filesz (drop ph.offset file)) ≡ ph.filesz = omega (
        arith,
        length-take ph.filesz (drop ph.offset file),
        length-drop ph.offset file,
        (fits h).0,
      ) in
      let positive : is_negative (take ph.filesz (drop ph.offset file)) ≡ false =
        rw size (positive_size ph.filesz (fits h).1) in
      rw (reads ph.filesz ph.offset (fits h).0, read_segment) (rw positive refl)
    where
      positive_size : (n : ℕ) → n < 2 ^ 31 → leb (2 ^ 31) (n % 2 ^ 32) ≡ false
      positive_size n k = ground arith

  place_segment_image :
      (ph : Phdr) (l : Loading) (x : ℕ)
      → is_loaded ph ≡ true
      → Fits file image ph
      → Outside kheader x
      → (place_segment p kheader ph (segment_bytes ph) l).memory x
        ≡ (if covers ph x then image x else l.memory x)
  unfolding place_segment segment_bytes
  place_segment_image ph l x h fits out =
      set_image_size_outside kheader x out _ _
      ∙ elim (Bool-cases (l.pstart == 0)) [
        | inl t ↦ rw t (describe_kernel_outside kheader x out p ph.paddr m)
        | inr f ↦ rw f refl
      ]
      ∙ store_segment file image ph l.memory x h fits
    where
      m : Memory
      m = store_bytes l.memory ph.paddr (take ph.filesz (drop ph.offset file))

  -- A segment that is loaded, and what it leaves at the addresses outside of the header.
  load_segment_image :
      (ph : Phdr) (l : Loading)
      → Fits file image ph
      → (l' : Loading) × (load_segment p read kheader ph l ≡ loaded l')
        × ((x : ℕ)
            → Outside kheader x
            → l'.memory x ≡ (if covers ph x then image x else l.memory x))
  unfolding load_segment
  load_segment_image ph l fits = elim (Bool-cases (ph.type == pt_tls)) [
    | inl t ↦
        let h : is_loaded ph ≡ true = rw t refl in
        let told : Loading = record l {
          memory = set_tls kheader ph.paddr ph.filesz ph.memsz l.memory;
        } in
        (
          place_segment p kheader ph (segment_bytes ph) told,
          rw t (read_segment_works ph told h fits),
          λ x out.
              place_segment_image ph told x h fits out
              ∙ ap (λ v. if covers ph x then image x else v)
                  (set_tls_outside kheader x out ph.paddr ph.filesz ph.memsz l.memory),
        )
    | inr f ↦ elim (Bool-cases (ph.type == pt_load)) [
      | inl t ↦
          let h : is_loaded ph ≡ true = rw f (rw t refl) in
          (
            place_segment p kheader ph (segment_bytes ph) l,
            rw f (rw t (read_segment_works ph l h fits)),
            λ x out. place_segment_image ph l x h fits out,
          )
      | inr g ↦ (l, rw f (rw g refl), λ x out. rw f (rw g refl))
    ]
  ]

  pub load_segments_image :
      (phs : List Phdr) (l : Loading)
      → AllFit file image phs
      → (l' : Loading) × (load_segments p read kheader phs l ≡ loaded l')
        × ((x : ℕ) → Outside kheader x → l'.memory x ≡ expected image phs l.memory x)
  unfolding load_segments
  load_segments_image [] l fits = (l, refl, λ x out. refl)
  load_segments_image (ph ∷ phs) l fits =
      let (l1, e1, same1) = load_segment_image ph l fits.0 in
      let (l2, e2, same2) = load_segments_image phs l1 fits.1 in
      (
        l2,
        rw (e1, load_segments) e2,
        λ x out.
            same2 x out
            ∙ ap (λ v. if covered phs x then image x else v) (same1 x out)
            ∙ merge (covers ph x) (covered phs x) (image x) (l.memory x),
      )
    where
      merge :
          (a b : Bool) (v w : ℕ)
          → (if b then v else (if a then v else w)) ≡ (if a || b then v else w)
      merge a b v w = ground arith
