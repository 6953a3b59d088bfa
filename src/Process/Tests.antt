-- ===== src/Process/Tests.antt =====
-- Three processes of kernel/process.c.
use reta_os.Prelude.{true, ℕ, ◌≡◌, refl, ◌≢◌, none, some, [], ◌∷◌, arith, ◌==◌, if◌then◌else◌}
use reta_os.Prelude.Int.{pos}
use reta_os.Process.{
  Process, Table, Registers, runs, proc_running, proc_ready, proc_new, fresh, at, process_find,
  process_create, process_schedule, process_switch, process_exit, left_by, first_ready,
  proc_terminated,
}
use reta_os.Process.Find.{IsTable, IsNumbered, process_create-adds}
use reta_os.Process.Exit.{Childless, map_process, process_exit-leaves, process_schedule-again}

abbrev first : Process
first = fresh 8 1 0 proc_ready

abbrev second : Process
second = fresh 16 2 1 proc_running

abbrev third : Process
third = fresh 24 3 2 proc_new

-- The second runs, and is the parent of the third.
abbrev three : Table
three = record { process_list = third ∷ second ∷ first ∷ []; current = 16; next_pid = 4 }

three-IsTable : IsTable three
unfolding IsTable IsNumbered
three-IsTable = ground arith

abbrev registers : Registers
registers = record { eflags = 0; esp = 100; ds = 0x2B; es = 0x2B; fs = 0x2B; gs = 0x2B }

process_create-adds_example :
    IsTable (process_create true 32 three).1
    × (process_find (process_create true 32 three).1 4 ≡ some (fresh 32 4 2 proc_new))
    × (process_find three 4 ≡ none)
    × ((pid : ℕ)
        → pid ≢ 4
        → process_find (process_create true 32 three).1 pid ≡ process_find three pid)
unfolding at
process_create-adds_example =
    process_create-adds 32 three three-IsTable (ground arith) (ground arith) (omega arith)

process_exit-leaves_example :
    (process_exit registers (pos 7) three
      ≡ some (process_schedule registers (left_by (pos 7) second three)))
    × (process_find (left_by (pos 7) second three) 2
        ≡ some (record second { exit_code = pos 7; state = proc_terminated }))
    × Childless 2 (left_by (pos 7) second three).process_list
    × ((pid : ℕ)
        → pid ≢ 2
        → process_find (left_by (pos 7) second three) pid
          ≡ map_process
              (λ q. record q { parent_pid = if q.parent_pid == 2 then 1 else q.parent_pid })
              (process_find three pid))
unfolding at
process_exit-leaves_example =
    process_exit-leaves registers (pos 7) three second three-IsTable refl (ground arith)

process_schedule-again_example :
    (process_schedule registers three ≡ runs first (process_switch registers first three))
    × ((q : Process) × (process_schedule registers (process_switch registers first three)
          ≡ runs q (process_switch registers q (process_switch registers first three)))
        × (q.address ≡ 8))
unfolding first_ready
process_schedule-again_example = process_schedule-again registers registers three first refl
