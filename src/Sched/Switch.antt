-- ===== src/Sched/Switch.antt =====
-- The rest of kernel/sched.c and `thread_join` of kernel/thread.c: the switch to a chosen thread, the
-- settings, the list of processes, and what is counted for the command `ps`. Waiting is given as a
-- change of the state.
use reta_os.Prelude.{
  ℕ, zero, suc, ◌+◌, ◌≡◌, refl, ◌<◌, Bool, false, not, ◌||◌, Option, none, some, List, [], ◌∷◌,
  ◌==◌, if◌then◌else◌, length, arith,
}
use reta_os.Prelude.Int.{ℤ, pos, negsuc, minus, is_neg, is_zero}
use reta_os.Prelude.Maybe.{◌>>=◌}
use reta_os.Sched.{Ptr, Sched, is_ready, thread_ready, thread_running, write_thread, add_thread}
use reta_os.Sched.Chains.{Chain}

pub sched_switch : Ptr → Sched → Sched
sched_switch next s =
    let queued =
      if s.current == 0
      then s
      else add_thread s.current
          (write_thread s.current (λ t. record t { state = thread_ready }) s) in
    let switched =
      record (write_thread next
        (λ t. record t { state = thread_running; time_slice = s.rr_quantum }) queued) {
          current = next;
        } in
    if next == 0 || not (is_ready (s.threads next).state)
    then s
    else if s.current == next
    then s
    else switched

pub scheduler_set_preempt : ℤ → Sched → Sched
scheduler_set_preempt on s = record s { preempt_enabled = not (is_zero on) }

pub scheduler_get_preempt : Sched → ℤ
scheduler_get_preempt s = if s.preempt_enabled then pos 1 else pos 0

pub scheduler_get_quantum : Sched → ℤ
scheduler_get_quantum s = s.rr_quantum

pub scheduler_set_quantum : ℤ → Sched → Sched
scheduler_set_quantum ticks s =
    if is_neg ticks || is_zero ticks then s else record s { rr_quantum = ticks }

-- The loop of `scheduler_task_count` from `t` on.
pub count_from : ℕ → Sched → Ptr → (count : ℕ) → Option ℕ
count_from zero s t count = none
count_from (suc fuel) s t count =
    let rest = count_from fuel s (s.threads t).next (count + 1) in
    if t == 0 then some count else rest

pub scheduler_task_count : ℕ → Sched → Option ℕ
scheduler_task_count fuel s = count_from fuel s s.thread_list 0

-- The loop of `scheduler_current_index`.
pub index_from : ℕ → Sched → Ptr → (idx : ℕ) → Option ℤ
index_from zero s t idx = none
index_from (suc fuel) s t idx =
    let rest = index_from fuel s (s.threads t).next (idx + 1) in
    if t == 0 then some (minus 1) else if t == s.current then some (pos idx) else rest

pub scheduler_current_index : ℕ → Sched → Option ℤ
scheduler_current_index fuel s = index_from fuel s s.thread_list 0

-- The list of processes: their `next` fields, and the two static variables.
pub record Processes : Type 0 where
  pub next_of : Ptr → Ptr
  pub process_list : Ptr
  pub current_process : Ptr

abbrev pub set_next : Ptr → Ptr → Processes → Processes
set_next p value ps = record ps { next_of = λ q. if q == p then value else ps.next_of q }

pub sched_add_process : Ptr → Processes → Processes
sched_add_process proc ps =
    let linked = record (set_next proc ps.process_list ps) { process_list = proc } in
    if proc == 0
    then ps
    else if ps.current_process == 0
    then record linked { current_process = proc }
    else linked

-- The search of `sched_remove_process` for the process in front.
pub before : ℕ → Ptr → (prev : Ptr) → Processes → Option Ptr
before zero proc prev ps = none
before (suc fuel) proc prev ps =
    let rest = before fuel proc (ps.next_of prev) ps in
    if ps.next_of prev == 0 || ps.next_of prev == proc then some prev else rest

pub sched_remove_process : ℕ → Ptr → Processes → Option Processes
sched_remove_process fuel proc ps =
    let behind = (do
      prev ← before fuel proc ps.process_list ps
      let unlinked = if ps.next_of prev == proc then set_next prev (ps.next_of proc) ps else ps in
          some (
            if ps.current_process == proc
            then record unlinked { current_process = ps.process_list }
            else unlinked)) in
    if proc == 0 || ps.process_list == 0
    then some ps
    else if ps.process_list == proc
    then some (record ps { process_list = ps.next_of proc })
    else behind

-- The search of `thread_join`: the thread (0 if there is none) and the one in front of it.
pub find_thread : ℕ → ℤ → (prev thread : Ptr) → Sched → Option (Ptr × Ptr)
find_thread zero tid prev thread s = none
find_thread (suc fuel) tid prev thread s =
    let rest = find_thread fuel tid thread (s.threads thread).next s in
    if thread == 0 || same_tid (s.threads thread).tid tid then some (prev, thread) else rest
  where
    same_tid : ℤ → ℤ → Bool
    same_tid (pos a) (pos b) = a == b
    same_tid (pos a) (negsuc b) = false
    same_tid (negsuc a) (pos b) = false
    same_tid (negsuc a) (negsuc b) = a == b

-- `thread_join`; `waited` is the state in which the thread has terminated, if it ever does. The
-- result, and the value that the thread returned.
pub thread_join : ℕ → (waited : Ptr → Sched → Option Sched) → ℤ → Sched → Option (ℤ × ℕ × Sched)
thread_join fuel waited tid s =
    let join = λ (prev thread : Ptr). (do
      after ← waited thread s
      let t = after.threads thread in
          some (
            pos 0,
            t.retval,
            if prev == 0
                then record after { thread_list = t.next }
                else write_thread prev (λ u. record u { next = t.next }) after,
          )) in
    if is_neg tid || is_zero tid then some (minus 1, 0, s) else (do
      (prev, thread) ← find_thread fuel tid 0 s.thread_list s
      if thread == 0 || thread == s.own_current then some (minus 1, 0, s) else join prev thread)

-- `scheduler_task_count` gives the length of the list of threads.
count_from-Chain :
    (fuel count : ℕ) (s : Sched) (t : Ptr) (qs : List Ptr)
    → Chain s.threads t qs
    → length qs < fuel
    → count_from fuel s t count ≡ some (count + length qs)
unfolding count_from
count_from-Chain zero count s t qs chain enough = absurd (omega (arith, enough))
count_from-Chain (suc fuel) count s t [] chain enough =
    let same : count + 0 ≡ count = omega arith in rw (chain, same) refl
count_from-Chain (suc fuel) count s t (q ∷ qs) (same, real, chain) enough =
    let not_null : (q == 0) ≡ false = ground (arith, real) in
    let sum : count + 1 + length qs ≡ count + suc (length qs) = omega arith in
    rw (same, not_null, ← sum)
      (count_from-Chain fuel (count + 1) s (s.threads q).next qs chain (omega (arith, enough)))
