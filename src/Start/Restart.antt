-- ===== src/Start/Restart.antt =====
-- What a restart reads from the configuration of a checkpoint.
use hermit_caves.Base.{
  ℕ, ◌+◌, ◌^◌, ◌≤◌, ◌<◌, Bool, true, false, if◌then◌else◌, Option, none, some, List, [], ◌∷◌, ◌++◌,
  ◌≡◌, refl, ap, sym, ◌∙◌, arith,
}
use hermit_caves.Base.Text.{codes}
use hermit_caves.Base.Digits.{
  IsNotation, EndsDigits, scan_digits, scan_digits-print_digits, scan_digits_end,
  print_digits_starts, print_digits-append,
}
use hermit_caves.Regions.{gap_size, gap_start, mapped_size}
use hermit_caves.Gdb.Hex.{hex}
use hermit_caves.Gdb.Scan.{skip_space, scan_sign, scan_hex, print_hex}
use hermit_caves.Gdb.Scan.Numbers.{scan_hex-print_hex}
use hermit_caves.Start.Format.{
  decimal, print_decimal, scan_digits_of, scan_decimal, scan_unsigned, scan_int, match_text,
  read_field,
}
use hermit_caves.Start.{
  Options, write_config, read_config, Environment, Source, from_checkpoint, choose_start,
  uhyve_init,
}

decimal-IsNotation : IsNotation decimal
decimal-IsNotation = record {
  positive = omega arith;
  reads = λ i h. ground arith;
  keeps = λ i h. omega arith;
}

-- A printed number is not white space, and has no sign.
decimal_starts :
    (i : ℕ) (tail : List ℕ)
    → i < 10
    → (skip_space ((b'0' + i) ∷ tail) ≡ (b'0' + i) ∷ tail)
      × (scan_decimal ((b'0' + i) ∷ tail)
          ≡ some (
            false,
            (scan_digits decimal 0 ((b'0' + i) ∷ tail)).0,
            (scan_digits decimal 0 ((b'0' + i) ∷ tail)).1,
          ))
unfolding scan_decimal scan_digits_of scan_sign skip_space
decimal_starts i tail h = (ground arith, ground arith)

print_decimal_starts :
    (n : ℕ) (rest : List ℕ)
    → n < 2 ^ 32
    → (i : ℕ) × (tail : List ℕ) × (i < 10) × (print_decimal n ++ rest ≡ (b'0' + i) ∷ tail)
unfolding print_decimal
print_decimal_starts n rest h =
    let (i, tail, b, e, _) =
      print_digits_starts decimal decimal-IsNotation (λ t. Unit {0}) (λ i t b. tt) 9 n rest
        (omega arith) tt in
    (i, tail, b, print_digits-append decimal 10 n [] rest ∙ e)

skip_space-print_decimal :
    (n : ℕ) (rest : List ℕ)
    → n < 2 ^ 32
    → skip_space (print_decimal n ++ rest) ≡ print_decimal n ++ rest
skip_space-print_decimal n rest h =
    let (i, tail, b, e) = print_decimal_starts n rest h in rw e (decimal_starts i tail b).0

scan_decimal-print_decimal :
    (n : ℕ) (rest : List ℕ)
    → n < 2 ^ 32
    → EndsDigits decimal rest
    → scan_decimal (print_decimal n ++ rest) ≡ some (false, n, rest)
unfolding print_decimal
scan_decimal-print_decimal n rest h ends =
    let (i, tail, b, e) = print_decimal_starts n rest h in
    ap scan_decimal e
    ∙ (decimal_starts i tail b).1
    ∙ ap (λ text. some (false, (scan_digits decimal 0 text).0, (scan_digits decimal 0 text).1))
        (sym e ∙ print_digits-append decimal 10 n [] rest)
    ∙ ap (λ (scanned : ℕ × List ℕ). some (false, scanned.0, scanned.1))
        (scan_digits-print_digits decimal decimal-IsNotation 9 n rest (omega arith)
          ∙ scan_digits_end decimal decimal-IsNotation n rest ends)

scan_unsigned-print_decimal :
    (n : ℕ) (rest : List ℕ)
    → n < 2 ^ 32
    → EndsDigits decimal rest
    → scan_unsigned (print_decimal n ++ rest) ≡ some (n, rest)
unfolding scan_unsigned
scan_unsigned-print_decimal n rest h ends =
    rw (scan_decimal-print_decimal n rest h ends) (ground arith)

-- One call of `fscanf` that matches.
read_field_works :
    (before behind stream text rest rest' : List ℕ) (conversion : List ℕ → Option (ℕ × List ℕ))
    (old value : ℕ)
    → match_text before stream ≡ (true, text)
    → conversion text ≡ some (value, rest)
    → (match_text behind rest).1 ≡ rest'
    → read_field before conversion behind old stream ≡ (value, rest')
unfolding read_field
read_field_works before behind stream text rest rest' conversion old value h k l =
    rw (ap (λ (r : Bool × List ℕ). r.0) h, read_field)
      (rw (ap (λ (r : Bool × List ℕ). conversion r.1) h ∙ k, read_field) (rw l refl))

-- The calls of `fscanf`, for the texts between the numbers.
cores_read :
    (n old : ℕ) (rest : List ℕ)
    → n < 2 ^ 32
    → read_field
        (codes "number of cores: ")
        scan_unsigned
        (codes "\n")
        old
        (codes "number of cores: " ++ (print_decimal n ++ (codes "\nmemory size: 0x" ++ rest)))
      ≡ (n, codes "memory size: 0x" ++ rest)
unfolding match_text skip_space
cores_read n old rest h =
    read_field_works (codes "number of cores: ") (codes "\n") _
      (print_decimal n ++ (codes "\nmemory size: 0x" ++ rest)) (codes "\nmemory size: 0x" ++ rest) _
      scan_unsigned old n
      (rw (skip_space-print_decimal n (codes "\nmemory size: 0x" ++ rest) h) refl)
      (scan_unsigned-print_decimal n (codes "\nmemory size: 0x" ++ rest) h refl) refl

size_read :
    (n old : ℕ) (rest : List ℕ)
    → n < 2 ^ 64
    → read_field
        (codes "memory size: 0x")
        scan_hex
        (codes "\n")
        old
        (codes "memory size: 0x" ++ (print_hex n ++ (codes "\ncheckpoint number: " ++ rest)))
      ≡ (n, codes "checkpoint number: " ++ rest)
unfolding match_text skip_space hex
size_read n old rest h =
    read_field_works (codes "memory size: 0x") (codes "\n") _
      (print_hex n ++ (codes "\ncheckpoint number: " ++ rest))
      (codes "\ncheckpoint number: " ++ rest) _ scan_hex old n refl
      (scan_hex-print_hex n (codes "\ncheckpoint number: " ++ rest) h (refl, (λ x. cc, λ x. cc)))
      refl

number_read :
    (n old : ℕ) (rest : List ℕ)
    → n < 2 ^ 32
    → read_field
        (codes "checkpoint number: ")
        scan_unsigned
        (codes "\n")
        old
        (codes "checkpoint number: " ++ (print_decimal n ++ (codes "\nentry point: 0x" ++ rest)))
      ≡ (n, codes "entry point: 0x" ++ rest)
unfolding match_text skip_space
number_read n old rest h =
    read_field_works (codes "checkpoint number: ") (codes "\n") _
      (print_decimal n ++ (codes "\nentry point: 0x" ++ rest)) (codes "\nentry point: 0x" ++ rest) _
      scan_unsigned old n
      (rw (skip_space-print_decimal n (codes "\nentry point: 0x" ++ rest) h) refl)
      (scan_unsigned-print_decimal n (codes "\nentry point: 0x" ++ rest) h refl) refl

entry_read :
    (n old : ℕ) (rest : List ℕ)
    → n < 2 ^ 64
    → read_field
        (codes "entry point: 0x")
        scan_hex
        []
        old
        (codes "entry point: 0x" ++ (print_hex n ++ (codes "\nfull checkpoint: " ++ rest)))
      ≡ (n, codes "\nfull checkpoint: " ++ rest)
unfolding match_text skip_space hex
entry_read n old rest h =
    read_field_works (codes "entry point: 0x") [] _
      (print_hex n ++ (codes "\nfull checkpoint: " ++ rest)) (codes "\nfull checkpoint: " ++ rest) _
      scan_hex old n refl
      (scan_hex-print_hex n (codes "\nfull checkpoint: " ++ rest) h (refl, (λ x. cc, λ x. cc))) refl

-- The newline is not taken: the last call finds no text of its format, and stores nothing.
full_unread :
    (old : ℕ) (rest : List ℕ)
    → read_field (codes "full checkpoint: ") scan_int [] old (codes "\nfull checkpoint: " ++ rest)
      ≡ (old, codes "\nfull checkpoint: " ++ rest)
unfolding read_field match_text
full_unread old rest = refl

last_line : Bool → List ℕ
last_line b = if b then codes "1" else codes "0"

write_config_lines :
    (o : Options)
    → write_config o
      ≡ codes "number of cores: "
        ++ (print_decimal o.ncores
            ++ (codes "\nmemory size: 0x"
                ++ (print_hex o.guest_size
                    ++ (codes "\ncheckpoint number: "
                        ++ (print_decimal o.no_checkpoint
                            ++ (codes "\nentry point: 0x"
                                ++ (print_hex o.elf_entry
                                    ++ (codes "\nfull checkpoint: "
                                        ++ last_line o.full_checkpoint))))))))
unfolding write_config last_line
write_config_lines o = ground arith

read_config-write_config :
    (saved there : Options)
    → saved.ncores < 2 ^ 32
    → saved.guest_size < 2 ^ 64
    → saved.no_checkpoint < 2 ^ 32
    → saved.elf_entry < 2 ^ 64
    → read_config there (write_config saved) ≡ record saved { full_checkpoint = false }
unfolding read_config
read_config-write_config saved there h1 h2 h3 h4 =
    rw (write_config_lines saved, read_config)
      (rw (cores_read saved.ncores there.ncores _ h1) (
        rw (size_read saved.guest_size there.guest_size _ h2) (
          rw (number_read saved.no_checkpoint there.no_checkpoint _ h3) (
            rw (entry_read saved.elf_entry there.elf_entry _ h4)
              (rw (full_unread 0 (last_line saved.full_checkpoint)) refl)))))

-- A restart reads the number of CPUs, the size of the address space, the number of the checkpoint and the
-- entry point as they were. It never reads that the checkpoint was a full one, and it takes the size of
-- the address space for the size of the guest: from the start of the gap on, the restarted guest is
-- larger than the one that was saved, by the size of the gap. The numbers fit their types, and no
-- migration comes in.
pub uhyve_init-write_config :
    (e : Environment) (saved there : Options)
    → e.migration_server ≡ none
    → e.chk_config ≡ some (write_config saved)
    → saved.ncores < 2 ^ 32
    → saved.guest_size + gap_size < 2 ^ 64
    → saved.no_checkpoint < 2 ^ 32
    → saved.elf_entry < 2 ^ 64
    → (uhyve_init e there ≡ (
      from_checkpoint,
      record saved { full_checkpoint = false; guest_size = mapped_size saved.guest_size },
    ))
      × (gap_start ≤ saved.guest_size
          → (uhyve_init e there).1.guest_size ≡ saved.guest_size + gap_size)
unfolding uhyve_init choose_start
uhyve_init-write_config e saved there none_in text h1 h2 h3 h4 =
    (started, λ large. ap (λ (r : Source × Options). r.1.guest_size) started ∙ grown large)
  where
    started : uhyve_init e there ≡ (
      from_checkpoint,
      record saved { full_checkpoint = false; guest_size = mapped_size saved.guest_size },
    )
    started =
        rw (none_in, uhyve_init)
          (rw (text, uhyve_init)
            (rw (read_config-write_config saved there h1 (omega arith) h3 h4) refl))

    grown :
        gap_start ≤ saved.guest_size → mapped_size saved.guest_size ≡ saved.guest_size + gap_size
    grown large = ground arith
