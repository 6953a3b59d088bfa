-- ===== src/Sched/Tests.antt =====
-- The theorems on kernel/sched.c and kernel/thread.c at a state where thread 8 runs and the threads
-- 16 and 24 wait, and at one where 16 and 24 sleep and only 16 is due.
use reta_os.Prelude.{ℕ, ◌≡◌, refl, true, some, [], ◌∷◌, arith, ◌==◌, if◌then◌else◌}
use reta_os.Prelude.Int.{pos}
use reta_os.Sched.{
  Ptr, Thread, Sched, thread_running, thread_ready, thread_blocked, check_sleeping_threads,
  sched_yield,
}
use reta_os.Sched.Chains.{Chain}
use reta_os.Sched.Sleep.{SleepChain}
use reta_os.Sched.Wake.{is_woken, due_in, check_sleeping_threads-wakes}
use reta_os.Sched.Yield.{Runs, sched_yield-twice}

abbrev waiting : ℕ → Ptr → Thread
waiting tid next = record {
  tid = pos tid;
  state = thread_ready;
  retval = 0;
  next = next;
  next_sleeping = 0;
  wakeup_time = 0;
  time_slice = pos 5;
}

abbrev sample : Sched
sample = record {
  threads = λ p.
      if p == 8
      then record (waiting 1 0) { state = thread_running }
      else if p == 16
      then waiting 2 24
      else waiting 3 0;
  ready_queue = 16;
  sleeping_threads = 0;
  current = 8;
  initialized = true;
  preempt_enabled = true;
  rr_quantum = pos 5;
  timer_ticks = 0;
  thread_list = 8;
  own_current = 8;
  next_tid = pos 4;
}

sample-Runs : Runs sample (16 ∷ 24 ∷ [])
sample-Runs = record {
  on = refl;
  present = λ e. omega arith;
  state = refl;
  chain = (refl, λ e. omega arith, (refl, λ e. omega arith, refl));
  away = (λ e. omega arith, (λ e. omega arith, tt));
  distinct = ((λ e. omega arith, tt), (tt, tt));
}

sched_yield-twice_example :
    ((sched_yield sample).current ≡ 16)
    × Runs (sched_yield sample) (8 ∷ 24 ∷ [])
    × ((sched_yield (sched_yield sample)).current ≡ 8)
    × Runs (sched_yield (sched_yield sample)) (16 ∷ 24 ∷ [])
sched_yield-twice_example = sched_yield-twice sample-Runs

abbrev sleeper : (wakeup_time : ℕ) → Ptr → Thread
sleeper wakeup_time next = record (waiting 2 0) {
  state = thread_blocked;
  next_sleeping = next;
  wakeup_time = wakeup_time;
}

abbrev night : Sched
night = record sample {
  threads = λ p. if p == 16 then sleeper 5 24 else if p == 24 then sleeper 20 0 else waiting 1 0;
  ready_queue = 8;
  sleeping_threads = 16;
  timer_ticks = 10;
}

check_sleeping_threads-wakes_example :
    (s' : Sched) × (check_sleeping_threads 3 night ≡ some s')
    × SleepChain s'.threads s'.sleeping_threads (24 ∷ [])
    × Chain s'.threads s'.ready_queue (16 ∷ 8 ∷ [])
    × ((p : Ptr)
        → (s'.threads p).state ≡ (
            if is_woken (due_in night) (16 ∷ 24 ∷ []) p
            then thread_ready
            else (night.threads p).state))
check_sleeping_threads-wakes_example =
    check_sleeping_threads-wakes night (16 ∷ 24 ∷ []) (8 ∷ []) 3
      (refl, λ e. omega arith, (refl, λ e. omega arith, refl)) (refl, λ e. omega arith, refl)
      ((λ e. omega arith, tt), (tt, tt)) ((λ e. omega arith, tt), ((λ e. omega arith, tt), tt))
      (omega arith)
