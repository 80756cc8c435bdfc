-- ===== src/Debug/Eip.antt =====
-- debuginfo_eip of sched/kern/kdebug.c, over the bytes of the address space.
use sched_v2_solution.Base.{
  ℕ, zero, suc, ◌+◌, ◌-◌, ◌*◌, ◌/◌, Bool, true, false, not, ◌&&◌, ◌||◌, Option, none, some, ltb,
  leb, ◌==◌, if◌then◌else◌,
}
use sched_v2_solution.Kernel.Ram.{Memory}
use sched_v2_solution.Kernel.Pcb.{word}
use sched_v2_solution.Pmap.UserMem.{Checked, allowed, fault, user_mem_check}
use sched_v2_solution.Strings.{Bytes, strfind}
use sched_v2_solution.Debug.Search.{Stab, Region, stab_binsearch}

-- A number of two or four bytes, the lowest first.
abbrev pub half_at : Bytes → ℕ → ℕ
half_at v a = v a + 0x100 * v (a + 1)

abbrev pub word_at : Bytes → ℕ → ℕ
word_at v a = half_at v a + 0x1_0000 * half_at v (a + 2)

-- Element i of a table of struct Stab, which has twelve bytes.
unfoldable pub stab_at : Bytes → (table i : ℕ) → Stab
stab_at v table i =
    let a = table + 12 * i in
    record {
      n_strx = word_at v a;
      n_type = v (a + 4);
      n_other = v (a + 5);
      n_desc = half_at v (a + 6);
      n_value = word_at v (a + 8);
    }

-- struct UserStabData.
pub record UserStabData : Type 0 where
  pub stabs : ℕ
  pub stab_end : ℕ
  pub stabstr : ℕ
  pub stabstr_end : ℕ

-- A name: the literal "<unknown>" or the address of a string.
pub data Name : Type 0 where
  unknown : Name
  at : ℕ → Name

-- struct Eipdebuginfo (sched/kern/kdebug.h).
pub record EipDebugInfo : Type 0 where
  pub eip_file : Name
  pub eip_line : ℕ
  pub eip_fn_name : Name
  pub eip_fn_namelen : ℕ
  pub eip_fn_addr : ℕ
  pub eip_fn_narg : ℕ

-- The return value 0 or -1, with *info.
pub data Answer : Type 0 where
  found missing : EipDebugInfo → Answer

abbrev pub initial : (addr : ℕ) → EipDebugInfo
initial addr = record {
  eip_file = unknown;
  eip_line = 0;
  eip_fn_name = unknown;
  eip_fn_namelen = 9;
  eip_fn_addr = addr;
  eip_fn_narg = 0;
}

-- Whether user_mem_check refuses; none if it panics.
abbrev pub refuses : Option (Checked × Memory) → Option Bool
refuses none = none
refuses (some (allowed, m)) = some false
refuses (some (fault a, m)) = some true

-- What a refusal or a panic leaves of what follows.
abbrev pub unless_refused : EipDebugInfo → Option Bool → Option Answer → Option Answer
unless_refused info none rest = none
unless_refused info (some true) rest = some (missing info)
unless_refused info (some false) rest = rest

-- The name of a stab, if its offset is in the table of strings.
unfoldable pub name_of : UserStabData → Stab → Name → Name
name_of d s other =
    if ltb s.n_strx (d.stabstr_end - d.stabstr) then at (d.stabstr + s.n_strx) else other

-- strfind(name, ':') - name; the literal has nine characters and no colon.
unfoldable pub name_length : (rounds : ℕ) → Bytes → Name → Option ℕ
unfolding strfind
name_length rounds v unknown = some 9
name_length rounds v (at s) = elim (strfind rounds v s 58) [ none ↦ none | some e ↦ some (e - s) ]

-- The last stab with a file name among the n from lfile on: N_SOL is 0x84 and N_SO 0x64.
unfoldable pub file_stab : (stabs : ℕ → Stab) (lfile n : ℕ) → Option ℕ
file_stab stabs lfile zero = none
file_stab stabs lfile (suc n) =
    let s = stabs (lfile + n) in
    if s.n_type == 0x84 || (s.n_type == 0x64 && not (s.n_value == 0))
    then some (lfile + n)
    else file_stab stabs lfile n

-- How many of the n stabs from i on come before one that is not N_PSYM (0xa0).
unfoldable pub count_args : (stabs : ℕ → Stab) (i n : ℕ) → ℕ
count_args stabs i zero = 0
count_args stabs i (suc n) =
    let rest = count_args stabs (i + 1) n in if Stab.n_type (stabs i) == 0xa0 then 1 + rest else 0

-- From the search for the line on: the file, the function and its name are known.
unfoldable pub line_of :
    (stabs : ℕ → Stab)
    → UserStabData
    → (lfile : ℕ) → (fun line : Region) → EipDebugInfo
    → Option Answer
unfolding name_of file_stab count_args
line_of stabs d lfile fun line info =
    let info' : EipDebugInfo =
      if leb line.left line.right
      then record info { eip_line = Stab.n_desc (stabs (line.left - 1)) }
      else info in
    let info'' : EipDebugInfo = elim (file_stab stabs lfile (line.left - lfile)) [
      | none ↦ info'
      | some i ↦ record info' { eip_file = name_of d (stabs i) info'.eip_file }
    ] in
    if line.left == 0
    then none
    else some (
        found (
          if ltb fun.left fun.right
          then record info'' { eip_fn_narg = count_args stabs fun.left (fun.right - 1 - fun.left) }
          else info''))

-- From the search for the function on, in the stabs of a file.
unfoldable pub function_of :
    (rounds : ℕ)
    → Bytes
    → UserStabData
    → (file fun : Region) → (addr : ℕ) → EipDebugInfo
    → Option Answer
unfolding stab_at name_of name_length line_of
function_of rounds v d file fun addr info =
    let stabs = stab_at v d.stabs in
    let s = stabs (fun.left - 1) in
    let in_function = leb fun.left fun.right in
    let info' : EipDebugInfo =
      if in_function
      then record info { eip_fn_name = name_of d s info.eip_fn_name; eip_fn_addr = s.n_value }
      else record info { eip_fn_addr = addr } in
    let addr' : ℕ = if in_function then word (addr + (0x1_0000_0000 - s.n_value)) else addr in
    elim (name_length rounds v info'.eip_fn_name) [
      | none ↦ none
      | some n ↦ elim (stab_binsearch rounds stabs (if in_function then fun else file) 0x44 addr') [
        | none ↦ none
        | some line ↦ line_of stabs d (file.left - 1) fun line (record info' { eip_fn_namelen = n })
      ]
    ]

-- From the checks of the string table on. None stands for too few rounds, for a table that ends
-- before it begins, and for a read of the stab before the first one.
unfoldable pub lookup_eip : (rounds : ℕ) → Bytes → UserStabData → (addr : ℕ) → Option Answer
unfolding stab_at function_of
lookup_eip rounds v d addr =
    let stabs = stab_at v d.stabs in
    let info : EipDebugInfo = initial addr in
    if leb d.stabstr_end d.stabstr || not (v (d.stabstr_end - 1) == 0)
    then some (missing info)
    else if ltb d.stab_end d.stabs
    then none
    else elim (stab_binsearch rounds stabs
        (record { left = 1; right = (d.stab_end - d.stabs) / 12 }) 0x64 addr) [
          | none ↦ none
          | some file ↦
              if file.left == 1
              then some (missing info)
              else if file.left == 0
              then none
              else elim (stab_binsearch rounds stabs file 0x24 addr) [
                | none ↦ none
                | some fun ↦ function_of rounds v d file fun addr info
              ]
        ]

abbrev pub ulim : ℕ
ulim = 0xef80_0000

-- debuginfo_eip, with the tables of the kernel, which its linker places.
unfoldable pub debuginfo_eip :
    (rounds : ℕ) → Bytes → Memory → (kernel : UserStabData) → (pgdir addr : ℕ) → Option Answer
unfolding user_mem_check lookup_eip
debuginfo_eip rounds v m kernel pgdir addr =
    let d : UserStabData = record {
      stabs = word_at v 0x20_0000;
      stab_end = word_at v 0x20_0004;
      stabstr = word_at v 0x20_0008;
      stabstr_end = word_at v 0x20_000c;
    } in
    let info : EipDebugInfo = initial addr in
    let count : ℕ =
      if ltb d.stab_end d.stabs
      then 0x1_0000_0000 - (d.stabs - d.stab_end) / 12
      else (d.stab_end - d.stabs) / 12 in
    let size = word (d.stabstr_end + (0x1_0000_0000 - d.stabstr)) in
    if leb ulim addr
    then lookup_eip rounds v kernel addr
    else unless_refused info (refuses (user_mem_check pgdir 0x20_0000 16 0 m)) (
        unless_refused info (refuses (user_mem_check pgdir d.stabs count 0 m)) (
          unless_refused info (refuses (user_mem_check pgdir d.stabstr size 0 m))
            (lookup_eip rounds v d addr)))
