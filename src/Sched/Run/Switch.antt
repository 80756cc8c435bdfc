-- ===== src/Sched/Run/Switch.antt =====
-- What env_run leaves behind.
use sched_v2_solution.Base.{
  ℕ, ◌+◌, ◌≡◌, ◌≢◌, refl, ap, ◌∙◌, ◌&&◌, Option, none, some, arith, same_ptr, if◌then◌else◌,
  ==_self,
}
use sched_v2_solution.Kernel.{Kernel, CpuInfo, Stop, to_user, curenv, set_curenv, set_env}
use sched_v2_solution.Kernel.Pcb.{Env, runnable, running, is_running, word}
use sched_v2_solution.Sched.Run.{requeue, occupy, enter, env_run}

-- The environment i of a kernel whose CPU is about to run another one.
abbrev pub stepped_down : Kernel → ℕ → Env
stepped_down k i =
    if same_ptr (curenv k) (some i) && is_running (k.envs i).env_status
    then record (k.envs i) { env_status = runnable }
    else k.envs i

pub stepped_down-off : (k : Kernel) (i : ℕ) → curenv k ≢ some i → stepped_down k i ≡ k.envs i
stepped_down-off k i off = go (curenv k) refl
  where
    go : (c : Option ℕ) → curenv k ≡ c → stepped_down k i ≡ k.envs i
    go none e = rw e
    go (some c) e = rw e (ground arith)

pub record Ran (k : Kernel) (e pgdir : ℕ) (s : Stop) : Type 0 where
  pub exit : s.exit ≡ to_user e
  pub current : curenv s.kernel ≡ some e
  pub other_cpus : (c : ℕ) → c ≢ k.cpunum → s.kernel.cpus c ≡ k.cpus c
  pub chosen : s.kernel.envs e ≡ record (k.envs e) {
    env_status = running;
    env_runs = word ((k.envs e).env_runs + 1);
    env_cpunum = k.cpunum;
  }
  pub others : (i : ℕ) → i ≢ e → s.kernel.envs i ≡ stepped_down k i
  pub cpunum : s.kernel.cpunum ≡ k.cpunum
  pub ticks : s.kernel.ticks ≡ k.ticks
  pub free_list : s.kernel.env_free_list ≡ k.env_free_list
  pub memory : s.kernel.memory ≡ k.memory
  pub cr3 : s.kernel.cr3 ≡ pgdir
  pub unlocked : s.kernel.locked ≡ 0

requeue-envs :
    (k : Kernel) (c : Option ℕ) (i : ℕ) → curenv k ≡ c → (requeue k c).envs i ≡ stepped_down k i
unfolding requeue set_env
requeue-envs k none i h = rw h
requeue-envs k (some c) i h = rw h (ground arith)

-- The parts that requeue leaves alone.
requeue-rest :
    (k : Kernel) (c : Option ℕ)
    → ((requeue k c).cpus ≡ k.cpus)
      × ((requeue k c).cpunum ≡ k.cpunum)
      × ((requeue k c).ticks ≡ k.ticks)
      × ((requeue k c).env_free_list ≡ k.env_free_list)
      × ((requeue k c).memory ≡ k.memory)
unfolding requeue set_env
requeue-rest k none = (refl, refl, refl, refl, refl)
requeue-rest k (some c) = (ground arith, ground arith, ground arith, ground arith, ground arith)

stepped_down-pgdir : (k : Kernel) (i : ℕ) → (stepped_down k i).env_pgdir ≡ (k.envs i).env_pgdir
stepped_down-pgdir k i = ground arith

stepped_down-runs : (k : Kernel) (i : ℕ) → (stepped_down k i).env_runs ≡ (k.envs i).env_runs
stepped_down-runs k i = ground arith

-- The switch on a kernel whose previous environment has stepped down.
record Entered (k : Kernel) (e pgdir : ℕ) (s : Stop) : Type 0 where
  exit : s.exit ≡ to_user e
  current : curenv s.kernel ≡ some e
  other_cpus : (c : ℕ) → c ≢ k.cpunum → s.kernel.cpus c ≡ k.cpus c
  chosen : s.kernel.envs e ≡ record (k.envs e) {
    env_status = running;
    env_runs = word ((k.envs e).env_runs + 1);
    env_cpunum = k.cpunum;
  }
  others : (i : ℕ) → i ≢ e → s.kernel.envs i ≡ k.envs i
  rest :
      (s.kernel.cpunum ≡ k.cpunum)
      × (s.kernel.ticks ≡ k.ticks)
      × (s.kernel.env_free_list ≡ k.env_free_list)
      × (s.kernel.memory ≡ k.memory)
      × (s.kernel.cr3 ≡ pgdir)
      × (s.kernel.locked ≡ 0)

enter-Entered :
    (k : Kernel) (e pgdir : ℕ)
    → (k.envs e).env_pgdir ≡ some pgdir
    → Entered k e pgdir (enter (occupy k e) e ((occupy k e).envs e).env_pgdir)
unfolding occupy enter set_curenv set_env
enter-Entered k e pgdir d =
    rw (==_self e, d)
      (record {
        exit = refl;
        current = ground arith;
        other_cpus = λ c h. ground arith;
        chosen = rw (==_self e, d);
        others = λ i h. ground arith;
        rest = (refl, refl, refl, refl, refl, refl);
      })

stepped_down-chosen :
    (k : Kernel) (e n c : ℕ)
    → ◌≡◌ {A = Env}
        (record (stepped_down k e) { env_status = running; env_runs = n; env_cpunum = c })
        (record (k.envs e) { env_status = running; env_runs = n; env_cpunum = c })
stepped_down-chosen k e n c = ground arith

module _ (k : Kernel) (e pgdir : ℕ) (d : (k.envs e).env_pgdir ≡ some pgdir) where
  entered : Entered (requeue k (curenv k)) e pgdir (
      enter
        (occupy (requeue k (curenv k)) e)
        e
        ((occupy (requeue k (curenv k)) e).envs e).env_pgdir)
  entered =
      enter-Entered (requeue k (curenv k)) e pgdir
        (rw (requeue-envs k (curenv k) e refl) (stepped_down-pgdir k e ∙ d))

  -- env_run puts an environment with a page directory on the CPU: it becomes curenv and RUNNING
  -- on this CPU, the one that was RUNNING there goes back to RUNNABLE, and all else stays.
  pub env_run-Ran : Ran k e pgdir (env_run k e)
  unfolding env_run
  env_run-Ran = record {
    exit = entered.exit;
    current = entered.current;
    other_cpus = λ c h. entered.other_cpus c (rw same.1 h) ∙ ap (λ (f : ℕ → CpuInfo). f c) same.0;
    chosen =
        entered.chosen
        ∙ rw (requeue-envs k (curenv k) e refl, same.1)
            (rw (stepped_down-runs k e) (stepped_down-chosen k e _ _));
    others = λ i h. entered.others i h ∙ requeue-envs k (curenv k) i refl;
    cpunum = entered.rest.0 ∙ same.1;
    ticks = entered.rest.1 ∙ same.2;
    free_list = entered.rest.2 ∙ same.3;
    memory = entered.rest.3 ∙ same.4;
    cr3 = entered.rest.4;
    unlocked = entered.rest.5;
  }
    where
      same :
          ((requeue k (curenv k)).cpus ≡ k.cpus)
          × ((requeue k (curenv k)).cpunum ≡ k.cpunum)
          × ((requeue k (curenv k)).ticks ≡ k.ticks)
          × ((requeue k (curenv k)).env_free_list ≡ k.env_free_list)
          × ((requeue k (curenv k)).memory ≡ k.memory)
      same = requeue-rest k (curenv k)
