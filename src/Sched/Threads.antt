-- ===== src/Sched/Threads.antt =====
-- kernel/thread.c: creation, end and sleep of threads. A thread that calls `thread_yield` raises the
-- timer interrupt, which is `sched_tick`; that call is left to whoever composes these functions.
use reta_os.Prelude.{
  ℕ, zero, suc, ◌+◌, ◌*◌, ◌/◌, ◌%◌, ◌^◌, ◌≡◌, ◌≢◌, refl, sym, ap, subst, false, Option, none, some,
  arith, List, ◌∷◌, ◌==◌, if◌then◌else◌,
}
use reta_os.Prelude.Int.{ℤ, pos, negsuc, minus}
use reta_os.Sched.{
  Ptr, Thread, Sched, modify, write_thread, add_thread, add_sleeping_thread, thread_ready,
  thread_running, thread_blocked, thread_terminated,
}
use reta_os.Sched.Chains.{Chain, NotIn, modify_self, Chain-outside}

-- `x + 1` on an `int` that does not overflow.
abbrev pub succ : ℤ → ℤ
succ (pos n) = pos (suc n)
succ (negsuc zero) = pos 0
succ (negsuc (suc n)) = negsuc n

-- The new thread in front of both lists.
pub enlist : Ptr → Sched → Sched
enlist p s =
    add_thread p
      (record (write_thread p
        (λ t. record t { tid = s.next_tid; state = thread_ready; retval = 0; next = s.thread_list })
        s) { thread_list = p; next_tid = succ s.next_tid })

-- `thread_create` with an entry point: `p` and `stack` are what `kmalloc` returns for the thread and
-- its stack.
pub thread_create : (p stack : Ptr) → Sched → ℤ × Sched
thread_create p stack s =
    if p == 0 then (minus 1, s) else if stack == 0 then (minus 1, s) else (s.next_tid, enlist p s)

-- `thread_exit` up to the call of `thread_yield`.
pub thread_exit : ℕ → Sched → Sched
thread_exit retval s =
    if s.own_current == 0
    then s
    else write_thread s.own_current (λ t. record t { retval = retval; state = thread_terminated }) s

pub thread_self : Sched → ℤ
thread_self s = if s.own_current == 0 then pos 0 else (s.threads s.own_current).tid

-- `thread_sleep` up to the call of `thread_yield`; `none` is an access through NULL.
pub thread_sleep : ℕ → Sched → Option Sched
thread_sleep ms s =
    let wakeup_time = (s.timer_ticks + ms * 1000 % 2 ^ 32 / 100) % 2 ^ 32 in
    if ms == 0
    then some s
    else (if s.own_current == 0
        then none
        else some (
            add_sleeping_thread s.own_current (
              write_thread s.own_current
                (λ t. record t { state = thread_blocked; wakeup_time = wakeup_time }) s)))

-- `threading_init`; `none` is the stop of the kernel where `kmalloc` fails.
pub threading_init : (p stack : Ptr) → Sched → Option Sched
threading_init p stack s =
    if p == 0
    then none
    else (if stack == 0
        then none
        else some
            (record (write_thread p
              (λ t. record {
                tid = s.next_tid;
                state = thread_running;
                retval = 0;
                next = 0;
                next_sleeping = 0;
                wakeup_time = 0;
                time_slice = s.rr_quantum;
              })
              s) { own_current = p; thread_list = p; next_tid = succ s.next_tid }))

-- Both lists are `p` and the threads of `queue` behind it.
abbrev pub Lists : Sched → Ptr → List Ptr → ℤ × Sched → Type 0
Lists s p queue r =
    (r.0 ≡ s.next_tid)
    × (r.1.ready_queue ≡ p)
    × (r.1.thread_list ≡ p)
    × Chain r.1.threads p (p ∷ queue)

enlist-Lists :
    (p : Ptr) (s : Sched) (queue : List Ptr)
    → p ≢ 0
    → Chain s.threads s.ready_queue queue
    → NotIn p queue
    → (r : Sched) × (enlist p s ≡ r) × Lists s p queue (s.next_tid, r)
unfolding enlist add_thread
enlist-Lists p s queue some_thread c out =
    let z : (p == 0) ≡ false = ground (arith, some_thread) in
    let first = λ (t : Thread). record t {
      tid = s.next_tid;
      state = thread_ready;
      retval = 0;
      next = s.thread_list;
    } in
    let link = λ (t : Thread). record t { next = s.ready_queue } in
    let m₁ = modify s.threads p first in
    let c₁ = Chain-outside s.threads p first s.ready_queue queue out c in
    let c₂ = Chain-outside m₁ p link s.ready_queue queue out c₁ in
    let behind : (modify m₁ p link p).next ≡ s.ready_queue =
      ap (λ t. t.next) (modify_self m₁ p link) in
    (
      record s {
        threads = modify m₁ p link;
        ready_queue = p;
        thread_list = p;
        next_tid = succ s.next_tid;
      },
      rw z refl,
      (
        refl,
        refl,
        refl,
        (refl, some_thread, subst (λ q. Chain (modify m₁ p link) q queue) (sym behind) c₂),
      ),
    )

-- Where the memory for it is given and the ready queue does not hold it, `thread_create` returns
-- the next thread id, puts the new thread in front of the ready queue, and makes the list of all
-- threads the ready queue: what was in that list before is no longer in it.
thread_create-Lists :
    (p stack : Ptr) (s : Sched) (queue : List Ptr)
    → p ≢ 0
    → stack ≢ 0
    → Chain s.threads s.ready_queue queue
    → NotIn p queue
    → Lists s p queue (thread_create p stack s)
unfolding thread_create
thread_create-Lists p stack s queue some_thread some_stack c out =
    let z₁ : (p == 0) ≡ false = ground (arith, some_thread) in
    let z₂ : (stack == 0) ≡ false = ground (arith, some_stack) in
    let (r, e, lists) = enlist-Lists p s queue some_thread c out in
    let made : thread_create p stack s ≡ (s.next_tid, r) =
      rw (z₁, z₂) (ap (λ x. (s.next_tid, x)) e) in
    subst (Lists s p queue) (sym made) lists
