-- ===== src/Checkpoint/Barriers.antt =====
-- uhyve-x86_64.c and uhyve.c: the threads of the CPUs while a checkpoint is written. `timer_handler` runs
-- in the thread that gets the alarm, `sigusr_handler` in all others; both wait twice at `barrier`, which
-- lets all of them go on when all have arrived. The guest runs in between. The clock and the pages that
-- `timer_handler` writes behind the state of its CPU are not in this state, and the memory is not either:
-- the scan of the page tables and the thread of the network change it between the barriers.
pub mod Steps
pub mod Phases
pub mod Consistent
mod Tests
use hermit_caves.Base.{
  ℕ, zero, suc, Bool, true, false, ◌&&◌, if◌then◌else◌, ◌>>=◌, Option, none, some, List, [], ◌∷◌,
  map,
}

-- Where a thread is: in the guest; there with the signal under way; at the first barrier; between the
-- barriers, with the state of its CPU or the pages still to be written; at the second barrier.
pub data Place : Type 0 where
  running called arrived saving dumping finished : Place

-- A thread: if it runs `timer_handler`, the state of its CPU, and what is in its file.
pub record Thread (C : Type 0) : Type 0 where
  pub place : Place
  pub leads : Bool
  pub cpu : C
  pub file : C

-- What happens next, with the number of the thread: the guest changes its CPU; the alarm; the signal
-- arrives; the first barrier opens; a state is written; the pages are written; the second barrier opens.
pub data Action (C : Type 0) : Type 0 where
  run : ℕ → C → Action C
  alarm : ℕ → Action C
  enter : ℕ → Action C
  begin_writing : Action C
  write_cpu : ℕ → Action C
  write_pages : ℕ → Action C
  end_writing : Action C

module _ {A : Type 0} where
  -- A step of the thread with a number.
  pub step_at : ℕ → (A → Option A) → List A → Option (List A)
  step_at i f [] = none
  step_at zero f (x ∷ xs) = f x >>= λ y. some (y ∷ xs)
  step_at (suc i) f (x ∷ xs) = step_at i f xs >>= λ ys. some (x ∷ ys)

  abbrev pub all : (A → Bool) → List A → Bool
  all p [] = true
  all p (x ∷ xs) = p x && all p xs

abbrev pub in_guest : Place → Bool
in_guest running = true
in_guest called = true
in_guest _ = false

abbrev pub is_running : Place → Bool
is_running running = true
is_running _ = false

abbrev pub is_arrived : Place → Bool
is_arrived arrived = true
is_arrived _ = false

abbrev pub is_finished : Place → Bool
is_finished finished = true
is_finished _ = false

module _ {C : Type 0} where
  pub run_thread : C → Thread C → Option (Thread C)
  run_thread c t = if in_guest t.place then some (record t { cpu = c }) else none

  -- `timer_handler` up to its first barrier, seen by the thread itself.
  pub lead : Thread C → Option (Thread C)
  lead t = some (record t { place = arrived; leads = true })

  -- `pthread_kill` for a thread.
  pub call : Thread C → Thread C
  call t = record t { place = called; leads = false }

  pub enter_handler : Thread C → Option (Thread C)
  enter_handler t = elim t.place [ called ↦ some (record t { place = arrived }) | _ ↦ none ]

  -- Behind the first barrier, and behind the second one.
  pub begin_save : Thread C → Thread C
  begin_save t = record t { place = saving }

  pub end_round : Thread C → Thread C
  end_round t = record t { place = running; leads = false }

  -- `write_cpu_state`; behind it the leader has the pages to write.
  pub save : Thread C → Option (Thread C)
  save t = elim t.place [
    | saving ↦ some (record t { file = t.cpu; place = if t.leads then dumping else finished })
    | _ ↦ none
  ]

  -- `timer_handler` from the opening of the file to its second barrier.
  pub dump : Thread C → Option (Thread C)
  dump t = elim t.place [ dumping ↦ some (record t { place = finished }) | _ ↦ none ]

  -- `none` if the action cannot happen. An alarm is taken when no checkpoint is under way.
  unfoldable pub act : Action C → List (Thread C) → Option (List (Thread C))
  act (run i c) ts = step_at i (run_thread c) ts
  act (alarm i) ts = if all (λ t. is_running t.place) ts then step_at i lead (map call ts) else none
  act (enter i) ts = step_at i enter_handler ts
  act begin_writing ts = if all (λ t. is_arrived t.place) ts then some (map begin_save ts) else none
  act (write_cpu i) ts = step_at i save ts
  act (write_pages i) ts = step_at i dump ts
  act end_writing ts = if all (λ t. is_finished t.place) ts then some (map end_round ts) else none

  -- The threads after the actions, if all of them can happen.
  unfoldable pub run_all : List (Action C) → List (Thread C) → Option (List (Thread C))
  run_all [] ts = some ts
  run_all (a ∷ actions) ts = act a ts >>= λ ts'. run_all actions ts'
