-- ===== src/Process/Cmd.antt =====
-- Kernel code that may leave the kernel instead of returning to its caller.
use sched_v2_solution.Base.{ℕ, none, some}
use sched_v2_solution.Kernel.{Kernel, Stop, panicked}
use sched_v2_solution.Pmap.Alloc.{MemCmd}

-- The function returned, or the kernel was left: to user mode, to `hlt`, or by a panic.
pub data Run (A : Type 0) : Type 0 where
  done : A → Kernel → Run A
  stopped : Stop → Run A

abbrev pub Cmd : Type 0 → Type 0
Cmd A = Kernel → Run A

abbrev pub pure : {A : Type 0} → A → Cmd A
pure a k = done a k

infixl 5 ◌>>=◌ ◌>>◌
abbrev pub ◌>>=◌ : {A B : Type 0} → Cmd A → (A → Cmd B) → Cmd B
◌>>=◌ c f k = elim (c k) [ done a k' ↦ f a k' | stopped s ↦ stopped s ]

abbrev pub ◌>>◌ : {B : Type 0} → Cmd (Unit {0}) → Cmd B → Cmd B
c >> d = c >>= λ _. d

abbrev pub modify : (Kernel → Kernel) → Cmd (Unit {0})
modify f k = done tt (f k)

abbrev pub panic : {A : Type 0} → Cmd A
panic k = stopped (record { exit = panicked; kernel = k })

-- An operation of pmap.c, with the memory of the kernel.
abbrev pub lift : {A : Type 0} → MemCmd A → Cmd A
lift c k = elim (c k.memory) [
  | none ↦ stopped (record { exit = panicked; kernel = k })
  | some (a, m) ↦ done a (record k { memory = m })
]

-- The error codes of sched/inc/error.h.
pub data Error : Type 0 where
  bad_env inval no_mem no_free_env fault ipc_not_recv : Error

abbrev pub code : Error → ℕ
code bad_env = 2
code inval = 3
code no_mem = 4
code no_free_env = 5
code fault = 6
code ipc_not_recv = 7

-- An int result: a value that is not negative, or minus an error code.
pub data Result (A : Type 0) : Type 0 where
  ok : A → Result A
  err : Error → Result A

-- `if ((r = f(...)) < 0) return r;`
infixl 5 ◌>>?◌
abbrev pub ◌>>?◌ : {A B : Type 0} → Cmd (Result A) → (A → Cmd (Result B)) → Cmd (Result B)
◌>>?◌ c f k = elim (c k) [
  | done r k' ↦ elim r [ ok a ↦ f a k' | err e ↦ done (err e) k' ]
  | stopped s ↦ stopped s
]
