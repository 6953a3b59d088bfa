-- ===== src/Sched/Yield.antt =====
-- The order in which `sched_yield` of kernel/sched.c runs threads.
use reta_os.Prelude.{
  ◌≡◌, refl, sym, ◌∙◌, ◌≢◌, true, false, List, ◌∷◌, arith, ◌==◌, if◌then◌else◌, ap, subst, not,
}
use reta_os.Sched.{
  Ptr, Thread, Sched, modify, thread_running, thread_ready, is_running, add_thread,
  pick_next_thread, run_next, sched_yield,
}
use reta_os.Sched.Chains.{
  Chain, NotIn, Distinct, modify_self, modify_other, Chain-outside, Chain-keeps,
}

-- The current thread runs, the other threads wait in `queue`, in this order.
pub record Runs (s : Sched) (queue : List Ptr) : Type 0 where
  pub on : s.initialized ≡ true
  pub present : s.current ≢ 0
  pub state : (s.threads s.current).state ≡ thread_running
  pub chain : Chain s.threads s.ready_queue queue
  pub away : NotIn s.current queue
  pub distinct : Distinct queue

-- The state behind `pick_next_thread`.
popped : Sched → Sched
popped s = record s {
  threads = modify s.threads s.ready_queue (λ t. record t { next = 0 });
  ready_queue = (s.threads s.ready_queue).next;
}

pick_next_thread-popped :
    (s : Sched) → (s.ready_queue == 0) ≡ false → pick_next_thread s ≡ (s.ready_queue, popped s)
unfolding pick_next_thread popped
pick_next_thread-popped s some_next = rw some_next refl

yield-popped :
    (s : Sched)
    → s.initialized ≡ true
    → (s.ready_queue == 0) ≡ false
    → sched_yield s ≡ run_next s.ready_queue (popped s)
unfolding sched_yield
yield-popped s on some_next =
    ap (λ b. if not b then s else at_pick (pick_next_thread s)) on
    ∙ ap at_pick (pick_next_thread-popped s some_next)
    ∙ ap (λ b. if b then popped s else run_next s.ready_queue (popped s)) some_next
  where
    at_pick : Ptr × Sched → Sched
    at_pick r = if r.0 == 0 then r.1 else run_next r.0 r.1

-- The state where the current thread is put to the front of the queue and `next` runs.
switched : Sched → Ptr → Sched
switched s next = record s {
  threads =
      modify
        (modify (modify s.threads s.current (λ t. record t { state = thread_ready })) s.current
          (λ t. record t { next = s.ready_queue }))
        next (λ t. record t { state = thread_running; time_slice = s.rr_quantum });
  ready_queue = s.current;
  current = next;
}

run_next-switched :
    (s t : Sched) (next : Ptr)
    → (s.current == 0) ≡ false
    → is_running (s.threads s.current).state ≡ true
    → switched s next ≡ t
    → run_next next s ≡ t
unfolding run_next add_thread switched
run_next-switched s t next some_current running e = rw (some_current, running) e

-- The links after the switch from `running` to `head`, which stood before `queue`.
Chain-switched :
    (m : Ptr → Thread) (running head : Ptr) (ready resumed : Thread → Thread) (queue : List Ptr)
    → running ≢ 0
    → running ≢ head
    → ((t : Thread) → (ready t).next ≡ t.next)
    → ((t : Thread) → (resumed t).next ≡ t.next)
    → NotIn running queue
    → NotIn head queue
    → Chain m (m head).next queue
    → Chain
        (modify
          (modify
            (modify (modify m head (λ t. record t { next = 0 })) running ready)
            running
            (λ t. record t { next = (m head).next }))
          head
          resumed)
        running
        (running ∷ queue)
Chain-switched m running head ready resumed queue some_thread apart keeps keeps' away out c =
    let m₁ = modify m head (λ t. record t { next = 0 }) in
    let m₂ = modify m₁ running ready in
    let link = λ (t : Thread). record t { next = (m head).next } in
    let m₃ = modify m₂ running link in
    let c₁ = Chain-outside m head (λ t. record t { next = 0 }) (m head).next queue out c in
    let c₂ = Chain-keeps m₁ running ready (m head).next queue keeps c₁ in
    let c₃ = Chain-outside m₂ running link (m head).next queue away c₂ in
    let c₄ = Chain-keeps m₃ head resumed (m head).next queue keeps' c₃ in
    let at_running : (modify m₃ head resumed running).next ≡ (m head).next =
      ap (λ t. t.next) (modify_other m₃ head running resumed apart)
      ∙ ap (λ t. t.next) (modify_self m₂ running link) in
    (refl, some_thread, subst (λ p. Chain (modify m₃ head resumed) p queue) (sym at_running) c₄)

-- While the current thread runs and other threads wait in the ready queue, all of them different,
-- `sched_yield` runs the first thread of the queue and puts the one that ran into its place, at
-- the front.
sched_yield-front :
    {s : Sched} {next : Ptr} {queue : List Ptr}
    → Runs s (next ∷ queue)
    → ((sched_yield s).current ≡ next) × Runs (sched_yield s) (s.current ∷ queue)
unfolding popped switched
sched_yield-front {s = s} {next = next} {queue = queue} r =
    let head = r.chain.0 in
    let away = r.away in
    let distinct = r.distinct in
    let some_next : (s.ready_queue == 0) ≡ false = ground (arith, r.chain.1, head) in
    let some_current : (s.current == 0) ≡ false = ground (arith, r.present) in
    let apart : s.current ≢ s.ready_queue = λ e. away.0 (sym head ∙ sym e) in
    let state : is_running ((popped s).threads s.current).state ≡ true =
      ap (λ t. is_running (t.state))
        (modify_other s.threads s.ready_queue s.current (λ t. record t { next = 0 }) apart)
      ∙ ap is_running r.state in
    let out : NotIn s.ready_queue queue = subst (λ p. NotIn p queue) (sym head) distinct.0 in
    let rest : Chain s.threads (s.threads s.ready_queue).next queue =
      subst (λ p. Chain s.threads (s.threads p).next queue) (sym head) r.chain.2 in
    let e : sched_yield s ≡ switched (popped s) s.ready_queue =
      yield-popped s r.on some_next
      ∙ run_next-switched (popped s) (switched (popped s) s.ready_queue) s.ready_queue some_current
          state refl in
    let after : Runs (switched (popped s) s.ready_queue) (s.current ∷ queue) = record {
      on = r.on;
      present = λ z. r.chain.1 (sym head ∙ z);
      state = ap (λ t. t.state) (modify_self _ s.ready_queue _);
      chain =
          Chain-switched s.threads s.current s.ready_queue (λ t. record t { state = thread_ready })
            (λ t. record t { state = thread_running; time_slice = s.rr_quantum }) queue r.present
            apart (λ t. refl) (λ t. refl) away.1 out rest;
      away = (apart, out);
      distinct = (away.1, distinct.1);
    } in
    (ap (λ t. t.current) e ∙ head, subst (λ t. Runs t (s.current ∷ queue)) (sym e) after)

-- While the current thread runs and other threads wait in the ready queue, all of them different,
-- `sched_yield` runs the first of them and puts the thread that ran to the front of the queue,
-- and a second call leads back to the same running thread and the same queue: of the threads that
-- are ready only the first gets a turn.
pub sched_yield-twice :
    {s : Sched} {next : Ptr} {queue : List Ptr}
    → Runs s (next ∷ queue)
    → ((sched_yield s).current ≡ next)
      × Runs (sched_yield s) (s.current ∷ queue)
      × ((sched_yield (sched_yield s)).current ≡ s.current)
      × Runs (sched_yield (sched_yield s)) (next ∷ queue)
sched_yield-twice {s = s} {queue = queue} r =
    let (first, r₁) = sched_yield-front r in
    let (second, r₂) = sched_yield-front r₁ in
    (first, r₁, second, subst (λ p. Runs (sched_yield (sched_yield s)) (p ∷ queue)) first r₂)
