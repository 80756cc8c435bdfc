-- ===== src/Trap/PageFault.antt =====
-- page_fault_handler of sched/kern/trap.c.
use sched_v2_solution.Base.{
  ℕ, ◌+◌, ◌-◌, ◌*◌, ◌^◌, ◌/◌, ◌%◌, ◌||◌, Bool, false, Option, none, some, List, [], ◌∷◌, ◌==◌, ltb,
  if◌then◌else◌, bit_or,
}
use sched_v2_solution.Kernel.{Policy, set_env}
use sched_v2_solution.Kernel.Pcb.{Trapframe, word}
use sched_v2_solution.Pmap.Alloc
use sched_v2_solution.Pmap.Alloc.{MemCmd}
use sched_v2_solution.Pmap.Table.{PtePtr, read, pgnum, pgdir_walk, write, pte_u, pte_w}
use sched_v2_solution.Pmap.UserMem.{utop, pgsize}
use sched_v2_solution.Sched.Run.{env_run}
use sched_v2_solution.Process.Cmd.{Cmd, done, stopped, ◌>>◌, modify, panic, lift}
use sched_v2_solution.Process.Free.{env_destroy}
use sched_v2_solution.Syscall.Env.{user_mem_assert}

-- Byte o of a little-endian word.
unfoldable pub set_byte : (w o b : ℕ) → ℕ
set_byte w o b = w / 256 ^ (o + 1) * 256 ^ (o + 1) + b * 256 ^ o + w % 256 ^ o

-- A store to a user address through the page table in force. A store where nothing is mapped
-- faults in the kernel, which panics.
unfoldable pub store_at : (va b : ℕ) → Option PtePtr → MemCmd (Unit {0})
unfolding write set_byte
store_at va b none m = none
store_at va b (some pte) m =
    if read m pte == 0
    then none
    else let at : PtePtr = (pgnum (read m pte), va % pgsize / 4) in
      some (tt, write at (set_byte (read m at) (va % 4) b) m)

unfoldable pub store_byte : (pgdir va b : ℕ) → MemCmd (Unit {0})
unfolding store_at
store_byte pgdir va b = Alloc.◌>>=◌ (pgdir_walk pgdir va false) (store_at va b)

unfoldable pub store_bytes : (pgdir va : ℕ) → List ℕ → MemCmd (Unit {0})
store_bytes pgdir va [] m = some (tt, m)
store_bytes pgdir va (b ∷ bs) m =
    Alloc.◌>>◌ (store_byte pgdir va b) (store_bytes pgdir (word (va + 1)) bs) m

abbrev pub bytes_of : List ℕ → List ℕ
bytes_of [] = []
bytes_of (w ∷ ws) =
    (w % 256) ∷ (w / 0x100 % 256) ∷ (w / 0x1_0000 % 256) ∷ (w / 0x100_0000 % 256) ∷ bytes_of ws

-- struct UTrapframe as it lies in memory, thirteen words.
abbrev pub utf_words : (fault_va : ℕ) → Trapframe → List ℕ
utf_words fault_va tf =
    fault_va ∷ tf.tf_err ∷ tf.tf_regs.reg_edi ∷ tf.tf_regs.reg_esi ∷ tf.tf_regs.reg_ebp
    ∷ tf.tf_regs.reg_oesp ∷ tf.tf_regs.reg_ebx ∷ tf.tf_regs.reg_edx ∷ tf.tf_regs.reg_ecx
    ∷ tf.tf_regs.reg_eax ∷ tf.tf_eip ∷ tf.tf_eflags ∷ tf.tf_esp ∷ []

abbrev pub exstk : ℕ
exstk = utop - pgsize

abbrev pub exstk_top : ℕ
exstk_top = utop - 1

abbrev pub off_exstk : ℕ → Bool
off_exstk esp = ltb esp exstk || ltb exstk_top esp

-- Where the frame goes: at the top, or below a scratch word on the stack in use.
unfoldable pub frame_va : ℕ → ℕ
frame_va esp =
    if off_exstk esp
    then exstk_top - 52
    else word (word (esp + 0x1_0000_0000 - 4) + 0x1_0000_0000 - 52)

unfoldable pub scratch : (pgdir esp : ℕ) → MemCmd (Unit {0})
scratch pgdir esp m =
    if off_exstk esp
    then some (tt, m)
    else store_bytes pgdir (word (esp + 0x1_0000_0000 - 4)) (bytes_of (0 ∷ [])) m

unfoldable pub push_frame : (fault_va : ℕ) → Trapframe → Option ℕ → Cmd (Unit {0})
unfolding scratch frame_va
push_frame fault_va tf none = panic
push_frame fault_va tf (some pgdir) = do
  lift (scratch pgdir tf.tf_esp)
  lift (store_bytes pgdir (frame_va tf.tf_esp) (bytes_of (utf_words fault_va tf)))

-- The frame is written before its place is checked.
unfoldable pub upcall : (me upcall fault_va : ℕ) → Cmd (Unit {0})
unfolding push_frame set_env
upcall me handler fault_va k =
    let tf = (k.envs me).env_tf in
    (do
      push_frame fault_va tf (k.envs me).env_pgdir
      λ k'. if off_exstk (frame_va tf.tf_esp) then panic k' else done tt k'
      modify λ k'. set_env k' me (record (k'.envs me) {
        env_tf = record tf { tf_esp = frame_va tf.tf_esp; tf_eip = handler };
      })
      λ k'. stopped (env_run k' me))
      k

-- A fault of the kernel itself panics.
unfoldable pub page_fault_handler : Policy → (cs me fault_va : ℕ) → Cmd (Unit {0})
unfolding upcall
page_fault_handler p cs me fault_va k =
    if cs % 4 == 0
    then panic k
    else if (k.envs me).env_pgfault_upcall == 0
    then env_destroy p me k
    else (do
      user_mem_assert p me exstk pgsize (bit_or pte_u pte_w)
      upcall me (k.envs me).env_pgfault_upcall fault_va)
        k
