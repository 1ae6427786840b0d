-- ===== src/Gdb/Commands/Threads.antt =====
-- uhyve-gdb.c: the list of threads that `gdb_handle_query` gives, one packet after the other.
use hermit_caves.Base.{
  ℕ, zero, suc, ◌+◌, ◌%◌, ◌^◌, ◌<◌, ltb, lt→ltb, false, List, [], ◌∷◌, ◌++◌, ◌≡◌, refl, arith,
  replicate,
}
use hermit_caves.Gdb.Scan.{print_hex}
use hermit_caves.Gdb.Commands.State.{Machine, Target, answer, silent, resume, leave, crash}
use hermit_caves.Gdb.Commands.{
  handle_command, gdb_handle_query, next_thread, switch, same_text, qf_thread_info, qs_thread_info,
}

-- The answers to commands that all have one, and the target after them.
abbrev pub answers : Machine → ℕ → Target → List (List ℕ) → List (List ℕ) × Target
answers m sigval t [] = ([], t)
answers m sigval t (text ∷ texts) = elim (handle_command m sigval text t) [
  | answer reply t' ↦ let rest = answers m sigval t' texts in (reply ∷ rest.0, rest.1)
  | silent t' ↦ answers m sigval t' texts
  | resume t' ↦ ([], t')
  | leave reply t' ↦ (reply ∷ [], t')
  | crash ↦ ([], t)
]

-- `m` and the number for `n` threads behind number `i`.
abbrev pub threads_from : ℕ → ℕ → List (List ℕ)
threads_from i zero = []
threads_from i (suc n) = (b'm' ∷ print_hex (i + 1)) ∷ threads_from (i + 1) n

first_thread :
    (m : Machine) (sigval : ℕ) (t : Target)
    → 1 < m.ncores
    → t.thread_counter ≡ 0
    → handle_command m sigval qf_thread_info t
      ≡ answer (b'm' ∷ print_hex 1) (record t { thread_counter = 1 })
unfolding handle_command switch gdb_handle_query next_thread same_text
first_thread m sigval t h k = rw k (rw (lt→ltb 1 m.ncores h) refl)

later_thread :
    (m : Machine) (sigval : ℕ) (t : Target) (i : ℕ)
    → 1 < m.ncores
    → i < m.ncores
    → m.ncores < 2 ^ 64
    → handle_command m sigval qs_thread_info (record t { thread_counter = i })
      ≡ answer (b'm' ∷ print_hex (i + 1)) (record t { thread_counter = i + 1 })
unfolding handle_command switch gdb_handle_query next_thread same_text
later_thread m sigval t i h k l =
    let e : (i + 1) % 2 ^ 64 ≡ i + 1 = omega arith in
    rw (lt→ltb 1 m.ncores h) (rw (lt→ltb i m.ncores k) (rw e refl))

no_more_threads :
    (m : Machine) (sigval : ℕ) (t : Target)
    → 1 < m.ncores
    → handle_command m sigval qs_thread_info (record t { thread_counter = m.ncores })
      ≡ answer (b'l' ∷ []) (record t { thread_counter = 0 })
unfolding handle_command switch gdb_handle_query next_thread same_text
no_more_threads m sigval t h =
    let e : ltb m.ncores m.ncores ≡ false = ground arith in rw (lt→ltb 1 m.ncores h) (rw e refl)

answers_later :
    (n i : ℕ) (m : Machine) (sigval : ℕ) (t : Target)
    → 1 < m.ncores
    → i + n ≡ m.ncores
    → m.ncores < 2 ^ 64
    → answers m sigval (record t { thread_counter = i }) (replicate (suc n) qs_thread_info)
      ≡ (threads_from i n ++ ((b'l' ∷ []) ∷ []), record t { thread_counter = 0 })
answers_later zero i m sigval t h e l =
    let same : i ≡ m.ncores = omega arith in
    rw same (rw (no_more_threads m sigval t h, answers) refl)
answers_later (suc n) i m sigval t h e l =
    rw (later_thread m sigval t i h (omega arith) l, answers)
      (rw (answers_later n (i + 1) m sigval t h (omega arith) l) refl)

-- With more than one CPU and no list begun, `qfThreadInfo` and as many `qsThreadInfo` as there are CPUs
-- are answered by the numbers of all CPUs, from 1 on, each once and in order, and by `l`; the target is
-- then as it was, so that the next list is the same.
pub answers_threads :
    (n : ℕ) (m : Machine) (sigval : ℕ) (t : Target)
    → m.ncores ≡ suc (suc n)
    → m.ncores < 2 ^ 64
    → t.thread_counter ≡ 0
    → answers m sigval t (qf_thread_info ∷ replicate (suc (suc n)) qs_thread_info)
      ≡ (threads_from 0 (suc (suc n)) ++ ((b'l' ∷ []) ∷ []), t)
answers_threads n m sigval t e l k =
    rw (first_thread m sigval t (omega arith) k, answers)
      (rw (answers_later (suc n) 1 m sigval t (omega arith) (omega arith) l) (rw k refl))
