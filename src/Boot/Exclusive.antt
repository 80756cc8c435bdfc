-- ===== src/Boot/Exclusive.antt =====
-- Boot leads to the scheduler in a state in which no environment is on two CPUs.
use sched_v2_solution.Base.{ℕ, ◌≡◌, ◌≢◌, refl, true, none}
use sched_v2_solution.Kernel.{
  Kernel, Stop, Policy, panicked, in_monitor, cpu_started, set_cpu_status,
}
use sched_v2_solution.Kernel.Pcb.{is_free}
use sched_v2_solution.Sched.Exclusive.{InKernel, Exclusive, env_on}
use sched_v2_solution.Sched.Exclusive.Update.{on_cpu, Exclusive-InKernel, set_cpu_status-InKernel}
use sched_v2_solution.Sched.Yield.Decide.{HasPgdir}
use sched_v2_solution.Trap.Entry.{take_lock}
use sched_v2_solution.Trap.Entry.Reschedule.{Schedules, Schedules-Exclusive}
use sched_v2_solution.Boot.{mp_main}
use sched_v2_solution.Boot.Quiet.{Quiet}

-- The globals before boot: no CPU has an environment, and the memory of envs is zero.
pub record Fresh (k : Kernel) : Type 0 where
  pub off : (c : ℕ) → env_on k c ≡ none
  pub unused : (i : ℕ) → is_free (k.envs i).env_status ≡ true

-- Boot ends in a panic, where a page or a slot is missing or a program is no ELF file, or in the
-- scheduler.
pub data Boots (p : Policy) (s : Stop) : Type 0 where
  panics : s.exit ≡ panicked → Boots p s
  schedules : Schedules p s → Boots p s

-- Another processor that gets the lock for the first time keeps this.
pub mp_main-Exclusive :
    (p : Policy) (c : ℕ) (k : Kernel)
    → Exclusive k
    → HasPgdir k
    → (mp_main p c k).exit ≢ in_monitor
    → Exclusive (mp_main p c k).kernel × HasPgdir (mp_main p c k).kernel
unfolding mp_main Schedules set_cpu_status
mp_main-Exclusive p c k ex d on =
    let k0 = record k { cpunum = c; cr3 = k.memory.kern_pgdir } in
    let here : InKernel (on_cpu c k) = Exclusive-InKernel c k ex in
    let inv : InKernel (set_cpu_status k0 cpu_started) =
      set_cpu_status-InKernel k0 cpu_started
        (record { apart = here.apart; live = here.live; owned = here.owned }) in
    Schedules-Exclusive p (mp_main p c k)
      (
        take_lock (set_cpu_status k0 cpu_started),
        refl,
        record { apart = inv.apart; live = inv.live; owned = inv.owned },
        d,
      )
      on
