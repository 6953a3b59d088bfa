-- ===== src/Sched/Wake.antt =====
-- `check_sleeping_threads` of kernel/sched.c: which threads it wakes, and in what order they get into
-- the ready queue.
use reta_os.Prelude.{
  ℕ, zero, suc, ◌<◌, ◌≡◌, refl, ap, ◌∙◌, Bool, true, false, ◌&&◌, ◌||◌, some, inl, inr, List, [],
  ◌∷◌, ◌++◌, arith, leb, ◌==◌, if◌then◌else◌, Bool-cases, length, add_last,
}
use reta_os.Sched.{Ptr, Thread, ThreadState, thread_ready, Sched, wake_from, check_sleeping_threads}
use reta_os.Sched.Chains.{Chain, Distinct}
use reta_os.Sched.Sleep.{
  SleepChain, Apart, first_of, ptr_behind, SleepChain-next, Distinct-without, ptr_behind-add_last,
}
use reta_os.Sched.Sleep.Steps.{At, cut_out, wake_one, cut_out-At, enqueue-At, wake_one-Same}

-- The threads that sleep on, the ready queue, and whether a thread is woken, where `due` says which
-- of the threads are to be woken.
abbrev pub asleep : (Ptr → Bool) → List Ptr → List Ptr
asleep due [] = []
asleep due (p ∷ ps) = if due p then asleep due ps else p ∷ asleep due ps

abbrev pub queued : (Ptr → Bool) → List Ptr → List Ptr → List Ptr
queued due [] qs = qs
queued due (p ∷ ps) qs = queued due ps (if due p then p ∷ qs else qs)

abbrev pub is_woken : (Ptr → Bool) → List Ptr → Ptr → Bool
is_woken due [] q = false
is_woken due (p ∷ ps) q = q == p && due p || is_woken due ps q

later_states :
    (due : Ptr → Bool) (p : Ptr) (ps : List Ptr) (s s' : Sched)
    → due p ≡ false
    → ((q : Ptr)
        → (s'.threads q).state ≡ (if is_woken due ps q then thread_ready else (s.threads q).state))
    → (q : Ptr)
    → (s'.threads q).state ≡ (if is_woken due (p ∷ ps) q then thread_ready else (s.threads q).state)
later_states due p ps s s' late states q = elim (Bool-cases (q == p)) [
  | inl e ↦ rw (late, e) (states q)
  | inr e ↦ rw (late, e) (states q)
]

woken_state :
    (due : Ptr → Bool) (p : Ptr) (ps : List Ptr) (s : Sched) (q : Ptr)
    → due p ≡ true
    → (state : ThreadState) → state ≡ (if q == p then thread_ready else (s.threads q).state)
    → (if is_woken due ps q then thread_ready else state)
      ≡ (if is_woken due (p ∷ ps) q then thread_ready else (s.threads q).state)
woken_state due p ps s q now state e = elim (Bool-cases (q == p)) [
  | inl f ↦ elim (Bool-cases (is_woken due ps q)) [
    | inl g ↦ rw (now, f, g) refl
    | inr g ↦ rw (now, f, g) (rw f at e)
  ]
  | inr f ↦ elim (Bool-cases (is_woken due ps q)) [
    | inl g ↦ rw (now, f, g) refl
    | inr g ↦ rw (now, f, g) (rw f at e)
  ]
]

ap2_leb : {a b c d : ℕ} → a ≡ b → c ≡ d → leb a c ≡ leb b d
ap2_leb e f = λ i. leb (e i) (f i)

wake_from-At :
    (due : Ptr → Bool) (ps : List Ptr) (fuel : ℕ) (s : Sched) (front qs : List Ptr)
    → length ps < fuel
    → At s front ps qs
    → ((q : Ptr) → leb (s.threads q).wakeup_time s.timer_ticks ≡ due q)
    → (s' : Sched) × (wake_from fuel (ptr_behind front) (first_of ps) s ≡ some s')
      × SleepChain s'.threads s'.sleeping_threads (front ++ asleep due ps)
      × Chain s'.threads s'.ready_queue (queued due ps qs)
      × ((q : Ptr)
          → (s'.threads q).state
            ≡ (if is_woken due ps q then thread_ready else (s.threads q).state))
unfolding wake_from first_of
wake_from-At due ps zero s front qs enough at test = absurd (omega arith)
wake_from-At due [] (suc fuel) s front qs enough at test = (s, refl, at.0, at.1, λ q. refl)
wake_from-At due (p ∷ ps) (suc fuel) s front qs enough at test =
    let (next, there) = SleepChain-next s.threads s.sleeping_threads front p ps at.0 in
    let here : (p == 0) ≡ false = ground (arith, there) in
    elim (Bool-cases (due p)) [
      | inr late ↦
          let passed : At s (front ++ (p ∷ [])) ps qs =
            (rw (add_last front p ps) at.0, at.1, rw (add_last front p ps) at.2, at.3.1) in
          let (s', e, sleeping, ready, states) =
            wake_from-At due ps fuel s (front ++ (p ∷ [])) qs (omega arith) passed test in
          let e' : wake_from fuel p (s.threads p).next_sleeping s ≡ some s' =
            rw (next, ← ptr_behind-add_last front p) e in
          (
            s',
            rw (here, test p, late) e',
            rw (late, ← add_last front p (asleep due ps)) sleeping,
            rw late ready,
            later_states due p ps s s' late states,
          )
      | inl now ↦
          let behind = (Distinct-without front p ps at.2).1 in
          let cut = cut_out front p s in
          let woken = wake_one front p s in
          let step =
            enqueue-At cut front p ps qs (cut_out-At s front p ps qs at) there at.3.0 behind in
          let same = wake_one-Same s front p there in
          let test' : (q : Ptr) → leb (woken.threads q).wakeup_time woken.timer_ticks ≡ due q =
            λ q. ap2_leb (same q).1 (same q).0 ∙ test q in
          let (s', e, sleeping, ready, states) =
            wake_from-At due ps fuel woken front (p ∷ qs) (omega arith) step test' in
          let e' : wake_from fuel (ptr_behind front) (s.threads p).next_sleeping woken ≡ some s' =
            ap (λ (c : Ptr). wake_from fuel (ptr_behind front) c woken) next ∙ e in
          (
            s',
            rw (here, test p, now) e',
            rw now sleeping,
            rw now ready,
            λ q. states q ∙ woken_state due p ps s q now (woken.threads q).state (same q).2,
          )
    ]

first_of-SleepChain :
    (m : Ptr → Thread) (r : Ptr) (ps : List Ptr) → SleepChain m r ps → r ≡ first_of ps
unfolding first_of
first_of-SleepChain m r [] c = c
first_of-SleepChain m r (p ∷ ps) c = c.0

-- The threads of the sleeping list that are due.
abbrev pub due_in : Sched → Ptr → Bool
due_in s p = leb (s.threads p).wakeup_time s.timer_ticks

-- Where no thread sleeps twice and none of those that sleep is in the ready queue, and for fuel
-- above the number of those that sleep, `check_sleeping_threads` wakes those that are due. The
-- list of sleeping threads keeps the others in their order; those that are woken are put in front
-- of the ready queue one after the other, so that they stand there in the reverse order, before
-- the threads that were there. They become ready, and every other thread stays in its state.
pub check_sleeping_threads-wakes :
    (s : Sched) (ps qs : List Ptr) (fuel : ℕ)
    → SleepChain s.threads s.sleeping_threads ps
    → Chain s.threads s.ready_queue qs
    → Distinct ps
    → Apart ps qs
    → length ps < fuel
    → (s' : Sched) × (check_sleeping_threads fuel s ≡ some s')
      × SleepChain s'.threads s'.sleeping_threads (asleep (due_in s) ps)
      × Chain s'.threads s'.ready_queue (queued (due_in s) ps qs)
      × ((p : Ptr)
          → (s'.threads p).state
            ≡ (if is_woken (due_in s) ps p then thread_ready else (s.threads p).state))
unfolding check_sleeping_threads ptr_behind
check_sleeping_threads-wakes s ps qs fuel sleeping ready once apart enough =
    let start = first_of-SleepChain s.threads s.sleeping_threads ps sleeping in
    let (s', e, asleep', ready', states) =
      wake_from-At (due_in s) ps fuel s [] qs enough (sleeping, ready, once, apart) (λ q. refl) in
    let e' : wake_from fuel 0 s.sleeping_threads s ≡ some s' =
      ap (λ (c : Ptr). wake_from fuel 0 c s) start ∙ e in
    (s', e', asleep', ready', states)
