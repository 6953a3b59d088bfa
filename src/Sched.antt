-- ===== src/Sched.antt =====
-- kernel/sched.c and kernel/thread.c: threads, the ready queue, the list of sleeping threads and the
-- switch between threads. The switch of stacks in assembly changes nothing in this state. Loops over
-- the lists take fuel, since `next` fields may form a cycle; `none` means that it ran out.
mod Tests
pub mod Chains
pub mod Yield
pub mod Threads
pub mod Sleep
pub mod Wake
pub mod Switch
use reta_os.Prelude.{
  ℕ, zero, suc, ◌+◌, ◌-◌, ◌*◌, ◌/◌, ◌%◌, ◌^◌, Bool, true, false, not, ◌&&◌, ◌||◌, Option, none,
  some, ltb, leb, ◌==◌, if◌then◌else◌,
}
use reta_os.Prelude.Int.{ℤ, pos, negsuc, is_neg, is_zero, minus}
use reta_os.Prelude.Maybe.{◌>>=◌}

-- 0 is NULL.
abbrev pub Ptr : Type 0
Ptr = ℕ

-- `thread_state_t`
pub data ThreadState : Type 0 where
  thread_new : ThreadState
  thread_ready : ThreadState
  thread_running : ThreadState
  thread_blocked : ThreadState
  thread_terminated : ThreadState

abbrev pub is_running : ThreadState → Bool
is_running thread_new = false
is_running thread_ready = false
is_running thread_running = true
is_running thread_blocked = false
is_running thread_terminated = false

abbrev pub is_ready : ThreadState → Bool
is_ready thread_new = false
is_ready thread_ready = true
is_ready thread_running = false
is_ready thread_blocked = false
is_ready thread_terminated = false

-- `thread_t`, without the stack, the process and the entry point, which no decision reads.
pub record Thread : Type 0 where
  pub tid : ℤ
  pub state : ThreadState
  pub retval : ℕ
  pub next : Ptr
  pub next_sleeping : Ptr
  pub wakeup_time : ℕ
  pub time_slice : ℤ

-- The static variables of both files, which each have a `current_thread`: `current` is that of
-- kernel/sched.c, `own_current` that of kernel/thread.c.
pub record Sched : Type 0 where
  pub threads : Ptr → Thread
  pub ready_queue : Ptr
  pub sleeping_threads : Ptr
  pub current : Ptr
  pub initialized : Bool
  pub preempt_enabled : Bool
  pub rr_quantum : ℤ
  pub timer_ticks : ℕ
  pub thread_list : Ptr
  pub own_current : Ptr
  pub next_tid : ℤ

pub modify : (Ptr → Thread) → Ptr → (Thread → Thread) → Ptr → Thread
modify m p f q = if q == p then f (m q) else m q

-- An assignment to fields of the thread at `p`.
abbrev pub write_thread : Ptr → (Thread → Thread) → Sched → Sched
write_thread p f s = record s { threads = modify s.threads p f }

pub add_thread : Ptr → Sched → Sched
add_thread p s =
    if p == 0
    then s
    else record (write_thread p (λ t. record t { next = s.ready_queue }) s) { ready_queue = p }

-- The search of `sched_remove_thread` from `prev` on.
pub unlink_behind : ℕ → Ptr → Ptr → Sched → Option Sched
unlink_behind zero p prev s = none
unlink_behind (suc fuel) p prev s =
    let next = (s.threads prev).next in
    let rest = unlink_behind fuel p next s in
    if next == 0
    then some s
    else (if next == p
        then some (write_thread prev (λ t. record t { next = (s.threads p).next }) s)
        else rest)

pub remove_thread : ℕ → Ptr → Sched → Option Sched
remove_thread fuel p s =
    if p == 0
    then some s
    else (if s.ready_queue == 0
        then some s
        else (if s.ready_queue == p
            then some (record s { ready_queue = (s.threads p).next })
            else unlink_behind fuel p s.ready_queue s))

pub pick_next_thread : Sched → Ptr × Sched
pick_next_thread s =
    let next = s.ready_queue in
    if next == 0 then (0, s) else (
      next,
      record (write_thread next (λ t. record t { next = 0 }) s) {
        ready_queue = (s.threads next).next;
      },
    )

pub add_sleeping_thread : Ptr → Sched → Sched
add_sleeping_thread p s =
    if p == 0
    then s
    else record (write_thread p (λ t. record t { next_sleeping = s.sleeping_threads }) s) {
      sleeping_threads = p;
    }

-- Where the variable `ptr` of `check_sleeping_threads` points: the head of the list (0) or the
-- `next_sleeping` field of a thread. `assign` is `*ptr = value`.
pub assign : (ptr value : Ptr) → Sched → Sched
assign ptr value s =
    if ptr == 0
    then record s { sleeping_threads = value }
    else write_thread ptr (λ t. record t { next_sleeping = value }) s

pub wake_from : ℕ → (ptr current : Ptr) → Sched → Option Sched
wake_from zero ptr current s = none
wake_from (suc fuel) ptr current s =
    let t = s.threads current in
    let woken = add_thread current (
      write_thread current (λ u. record u { state = thread_ready })
        (assign ptr t.next_sleeping s)) in
    let due = wake_from fuel ptr t.next_sleeping woken in
    let later = wake_from fuel current t.next_sleeping s in
    if current == 0 then some s else if leb t.wakeup_time s.timer_ticks then due else later

pub check_sleeping_threads : ℕ → Sched → Option Sched
check_sleeping_threads fuel s = wake_from fuel 0 s.sleeping_threads s

-- The part of `sched_yield` behind `pick_next_thread`.
pub run_next : Ptr → Sched → Sched
run_next next s =
    let runnable = not (s.current == 0) && is_running (s.threads s.current).state in
    let queued =
      if runnable
      then add_thread s.current (write_thread s.current (λ t. record t { state = thread_ready }) s)
      else s in
    record (write_thread next (λ t. record t { state = thread_running; time_slice = s.rr_quantum })
      queued) { current = next }

pub sched_yield : Sched → Sched
sched_yield s =
    if not s.initialized
    then s
    else (let (next, s') = pick_next_thread s in if next == 0 then s' else run_next next s')

-- `x - 1` on an `int` that does not overflow.
abbrev pub pred : ℤ → ℤ
pred (pos zero) = negsuc 0
pred (pos (suc n)) = pos n
pred (negsuc n) = negsuc (suc n)

pub sched_tick : ℕ → Sched → Option Sched
sched_tick fuel s =
    let slice = pred (s.threads s.current).time_slice in
    let expired = is_neg slice || is_zero slice in
    let counted =
      write_thread s.current
        (λ t. record t { time_slice = if expired then s.rr_quantum else slice }) s in
    if s.current == 0
    then some s
    else (check_sleeping_threads fuel
        (if expired && s.preempt_enabled then sched_yield counted else counted))

pub sched_init : Sched → Sched
sched_init s = record s {
  ready_queue = 0;
  sleeping_threads = 0;
  current = 0;
  preempt_enabled = true;
  initialized = true;
}

-- `sched_start` up to the switch to the first thread.
pub sched_start : Sched → Sched
sched_start s =
    let next = s.ready_queue in
    if next == 0
    then s
    else record (write_thread next (λ t. record t { state = thread_running }) s) {
      ready_queue = (s.threads next).next;
      current = next;
    }
