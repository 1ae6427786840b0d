-- ===== src/Checkpoint/Barriers/Phases.antt =====
-- The phases of a checkpoint, and what each action makes of them.
use hermit_caves.Base.{ℕ, true, some, List, [], ◌∷◌, ◌≡◌, ◌⊎◌, inl, refl, arith, map}
use hermit_caves.Checkpoint.Barriers.{
  running, called, arrived, saving, dumping, finished, Thread, step_at, all, is_arrived, run_thread,
  lead, call, enter_handler, begin_save, end_round, save, dump,
}
use hermit_caves.Checkpoint.Barriers.Steps.{All, step_at-All, step_at-none, map-All}

module _ {C : Type 0} where
  abbrev pub IsIdle : Thread C → Type 0
  IsIdle t = t.place ≡ running

  abbrev pub IsGathering : Thread C → Type 0
  IsGathering t = (t.place ≡ called) ⊎ (t.place ≡ arrived)

  -- What is written is the state of the CPU.
  abbrev pub IsWriting : Thread C → Type 0
  IsWriting t =
      (t.place ≡ saving) ⊎ (((t.place ≡ dumping) ⊎ (t.place ≡ finished)) × (t.file ≡ t.cpu))

  -- Between two checkpoints; before the first barrier; between the barriers.
  pub data Phase (ts : List (Thread C)) : Type 0 where
    idle : All IsIdle ts → Phase ts
    gathering : All IsGathering ts → Phase ts
    writing : All IsWriting ts → Phase ts

  pub run-Phase :
      (i : ℕ) (c : C) (ts ts' : List (Thread C))
      → Phase ts
      → step_at i (run_thread c) ts ≡ some ts'
      → Phase ts'
  unfolding run_thread
  run-Phase i c ts ts' (idle h) e =
      idle
        (step_at-All IsIdle IsIdle (run_thread c) (λ x h. h) (λ x y h k. ground arith) i ts ts' h e)
  run-Phase i c ts ts' (gathering h) e = gathering (
      step_at-All IsGathering IsGathering (run_thread c) (λ x h. h) (λ x y h k. ground arith) i ts
        ts' h e)
  run-Phase i c ts ts' (writing h) e =
      absurd (step_at-none IsWriting (run_thread c) (λ x y h k. ground arith) i ts ts' h e)

  pub alarm-Phase :
      (i : ℕ) (ts ts' : List (Thread C)) → step_at i lead (map call ts) ≡ some ts' → Phase ts'
  unfolding lead call
  alarm-Phase i ts ts' e = gathering (
      step_at-All IsGathering IsGathering lead (λ x h. h) (λ x y h k. ground arith) i (map call ts)
        ts' (called_all ts) e)
    where
      called_all : (xs : List (Thread C)) → All IsGathering (map call xs)
      called_all [] = tt
      called_all (x ∷ xs) = (inl refl, called_all xs)

  pub enter-Phase :
      (i : ℕ) (ts ts' : List (Thread C))
      → Phase ts
      → step_at i enter_handler ts ≡ some ts'
      → Phase ts'
  unfolding enter_handler
  enter-Phase i ts ts' (idle h) e =
      absurd (step_at-none IsIdle enter_handler (λ x y h k. ground arith) i ts ts' h e)
  enter-Phase i ts ts' (gathering h) e = gathering (
      step_at-All IsGathering IsGathering enter_handler (λ x h. h) (λ x y h k. ground arith) i ts
        ts' h e)
  enter-Phase i ts ts' (writing h) e =
      absurd (step_at-none IsWriting enter_handler (λ x y h k. ground arith) i ts ts' h e)

  pub begin_writing-Phase :
      (ts : List (Thread C))
      → Phase ts
      → all (λ t. is_arrived t.place) ts ≡ true
      → Phase (map begin_save ts)
  unfolding begin_save
  begin_writing-Phase ts (idle h) e =
      writing
        (map-All IsIdle IsWriting (λ t. is_arrived t.place) begin_save (λ x h k. inl refl) ts h e)
  begin_writing-Phase ts (gathering h) e = writing (
      map-All IsGathering IsWriting (λ t. is_arrived t.place) begin_save (λ x h k. inl refl) ts h e)
  begin_writing-Phase ts (writing h) e =
      writing (
        map-All IsWriting IsWriting (λ t. is_arrived t.place) begin_save (λ x h k. inl refl) ts h e)

  pub write_cpu-Phase :
      (i : ℕ) (ts ts' : List (Thread C)) → Phase ts → step_at i save ts ≡ some ts' → Phase ts'
  unfolding save
  write_cpu-Phase i ts ts' (idle h) e =
      absurd (step_at-none IsIdle save (λ x y h k. ground arith) i ts ts' h e)
  write_cpu-Phase i ts ts' (gathering h) e =
      absurd (step_at-none IsGathering save (λ x y h k. ground arith) i ts ts' h e)
  write_cpu-Phase i ts ts' (writing h) e =
      writing
        (step_at-All IsWriting IsWriting save (λ x h. h) (λ x y h k. ground arith) i ts ts' h e)

  pub write_pages-Phase :
      (i : ℕ) (ts ts' : List (Thread C)) → Phase ts → step_at i dump ts ≡ some ts' → Phase ts'
  unfolding dump
  write_pages-Phase i ts ts' (idle h) e =
      absurd (step_at-none IsIdle dump (λ x y h k. ground arith) i ts ts' h e)
  write_pages-Phase i ts ts' (gathering h) e =
      absurd (step_at-none IsGathering dump (λ x y h k. ground arith) i ts ts' h e)
  write_pages-Phase i ts ts' (writing h) e =
      writing
        (step_at-All IsWriting IsWriting dump (λ x h. h) (λ x y h k. ground arith) i ts ts' h e)

  pub end_writing-Phase : (ts : List (Thread C)) → Phase (map end_round ts)
  unfolding end_round
  end_writing-Phase ts = idle (running_all ts)
    where
      running_all : (xs : List (Thread C)) → All IsIdle (map end_round xs)
      running_all [] = tt
      running_all (x ∷ xs) = (refl, running_all xs)
