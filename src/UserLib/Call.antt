-- ===== src/UserLib/Call.antt =====
-- What code of an environment does: it makes system calls, reads its page tables through uvpd and
-- uvpt (sched/inc/memlayout.h) and copies pages. `me` is the slot of the environment.
use sched_v2_solution.Base.{ℕ, ◌/◌, ◌%◌, ◌&&◌, none, some, if◌then◌else◌, update}
use sched_v2_solution.Kernel.{Kernel, Stop}
use sched_v2_solution.Pmap.Table.{pgnum}
use sched_v2_solution.Process.Cmd.{Cmd, done, stopped, Result, ok, err}
use sched_v2_solution.Syscall.Page.{has_p, has_w, has_u}

-- The code went on, called panic, read through a page that is not mapped, or entered the kernel
-- and did not come back at once.
pub data Ran (A : Type 0) : Type 0 where
  back : A → Kernel → Ran A
  gave_up faulted : Kernel → Ran A
  left : Stop → Ran A

abbrev pub User : Type 0 → Type 0
User A = Kernel → Ran A

abbrev pub pure : {A : Type 0} → A → User A
pure a k = back a k

infixl 5 ◌>>=◌ ◌>>◌
abbrev pub ◌>>=◌ : {A B : Type 0} → User A → (A → User B) → User B
◌>>=◌ c f k = elim (c k) [
  | back a k' ↦ f a k'
  | gave_up k' ↦ gave_up k'
  | faulted k' ↦ faulted k'
  | left s ↦ left s
]

abbrev pub ◌>>◌ : {A B : Type 0} → User A → User B → User B
c >> d = c >>= λ _. d

-- A system call; the trap around it, which Trap models, is left out.
abbrev pub call : {A : Type 0} → Cmd A → User A
call c k = elim (c k) [ done a k' ↦ back a k' | stopped s ↦ left s ]

-- `if ((r = f(...)) < 0) panic(...)`.
abbrev pub must : Cmd (Result ℕ) → User ℕ
must c = call c >>= λ r k. elim r [ ok n ↦ back n k | err e ↦ gave_up k ]

-- uvpd[pn >> 10], and uvpt[pn], whose read faults without a page table.
unfoldable pub uvpd : (me pn : ℕ) → User ℕ
uvpd me pn k = elim (k.envs me).env_pgdir [
  | none ↦ faulted k
  | some d ↦ back (k.memory.frame d (pn / 1024)) k
]

unfoldable pub uvpt : (me pn : ℕ) → User ℕ
unfolding uvpd
uvpt me pn = uvpd me pn >>= λ pde k.
    if has_p pde && has_u pde then back (k.memory.frame (pgnum pde) (pn % 1024)) k else faulted k

-- memmove(dst, src, PGSIZE) between two pages.
unfoldable pub copy_page : (me dst src : ℕ) → User (Unit {0})
unfolding uvpt
copy_page me dst src = uvpt me (src / 0x1000) >>= λ from. uvpt me (dst / 0x1000) >>= λ to k.
    if has_p from && has_u from && has_p to && has_u to && has_w to
    then back tt (record k {
      memory = record k.memory {
        frame = update k.memory.frame (pgnum to) (k.memory.frame (pgnum from));
      };
    })
    else faulted k

-- A store of a word to the page at the address.
unfoldable pub store_word : (me addr value : ℕ) → User (Unit {0})
unfolding uvpt
store_word me addr value = uvpt me (addr / 0x1000) >>= λ to k.
    if has_p to && has_u to && has_w to
    then back tt (record k {
      memory = record k.memory {
        frame =
            update k.memory.frame (pgnum to)
              (update (k.memory.frame (pgnum to)) (addr % 0x1000 / 4) value);
      };
    })
    else faulted k
