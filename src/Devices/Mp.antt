-- ===== src/Devices/Mp.antt =====
-- The tables of the firmware on the processors (sched/kern/mpconfig.c), over the bytes of physical
-- memory, which the code reads through KADDR. The messages are not modelled.
use sched_v2_solution.Base.{
  ℕ, zero, suc, ◌+◌, ◌*◌, ◌/◌, ◌%◌, Bool, true, false, not, ◌&&◌, ◌||◌, Option, none, some, List,
  [], ◌∷◌, ltb, leb, ◌==◌, if◌then◌else◌, bit_or, update,
}
use sched_v2_solution.Strings.{Bytes}
use sched_v2_solution.Format.Escape.{codes}
use sched_v2_solution.Devices.Ports.{Io, pure, ◌>>=◌, ◌>>◌, inb, outb}

-- A number of two or four bytes, the lowest first.
abbrev pub half_at : Bytes → ℕ → ℕ
half_at m a = m a + 0x100 * m (a + 1)

abbrev pub word_at : Bytes → ℕ → ℕ
word_at m a = half_at m a + 0x1_0000 * half_at m (a + 2)

-- memcmp(a, text, ...) == 0.
pub starts_with : Bytes → ℕ → List ℕ → Bool
starts_with m a [] = true
starts_with m a (c ∷ cs) = m a == c && starts_with m (a + 1) cs

unfoldable pub add_bytes : Bytes → (a n : ℕ) → ℕ
add_bytes m a zero = 0
add_bytes m a (suc n) = m a + add_bytes m (a + 1) n

unfoldable pub sum : Bytes → (a len : ℕ) → ℕ
unfolding add_bytes
sum m a len = add_bytes m a len % 0x100

-- The loop of mpsearch1 over n structures of sixteen bytes.
unfoldable pub search_mp : Bytes → (a n : ℕ) → Option ℕ
unfolding sum
search_mp m a zero = none
search_mp m a (suc n) =
    let rest = search_mp m (a + 16) n in
    if starts_with m a (codes "_MP_") && sum m a 16 == 0 then some a else rest

-- What KADDR of the address lets go on; none is its panic.
abbrev pub if_kaddr : {A : Type 0} → (npages a : ℕ) → Option A → Option A
if_kaddr npages a rest = if leb npages (a / 0x1000) then none else rest

unfoldable pub mpsearch1 : (npages : ℕ) → Bytes → (a len : ℕ) → Option (Option ℕ)
unfolding search_mp
mpsearch1 npages m a len =
    if_kaddr npages a (if_kaddr npages (a + len) (some (search_mp m a (len / 16))))

abbrev pub or_else : Option (Option ℕ) → Option (Option ℕ) → Option (Option ℕ)
or_else none rest = none
or_else (some none) rest = rest
or_else (some (some a)) rest = some (some a)

unfoldable pub mpsearch : (npages : ℕ) → Bytes → Option (Option ℕ)
unfolding mpsearch1
mpsearch npages m =
    let ebda = half_at m 0x40e in
    let base = half_at m 0x413 * 1024 in
    if_kaddr npages 0x400 (
      or_else
        (if ebda == 0
          then mpsearch1 npages m ((base + 0xffff_fc00) % 0x1_0000_0000) 1024
          else mpsearch1 npages m (ebda * 16) 1024)
        (mpsearch1 npages m 0xf_0000 0x1_0000))

-- Whether mpconfig accepts the configuration table at conf.
unfoldable pub valid_conf : Bytes → ℕ → Bool
unfolding sum
valid_conf m conf =
    let length = half_at m (conf + 4) in
    let version = m (conf + 6) in
    starts_with m conf (codes "PCMP")
    && sum m conf length == 0
    && (version == 1 || version == 4)
    && (sum m (conf + length) (half_at m (conf + 40)) + m (conf + 42)) % 0x100 == 0

-- The addresses of the two structures; some none is NULL.
unfoldable pub mpconfig : (npages : ℕ) → Bytes → Option (Option (ℕ × ℕ))
unfolding mpsearch valid_conf
mpconfig npages m = elim (mpsearch npages m) [
  | none ↦ none
  | some o ↦ elim o [
    | none ↦ some none
    | some mp ↦
        let conf = word_at m (mp + 4) in
        if conf == 0 || not (m (mp + 11) == 0)
        then some none
        else if_kaddr npages conf (some (if valid_conf m conf then some (mp, conf) else none))
  ]
]

-- The globals that mp_init sets. bootcpu is an index into cpus, and `started` says which CPUs are
-- CPU_STARTED.
pub record Processors : Type 0 where
  pub bootcpu : ℕ
  pub ismp : Bool
  pub ncpu : ℕ
  pub lapicaddr : ℕ
  pub cpu_id : ℕ → ℕ
  pub started : ℕ → Bool

-- A processor entry.
unfoldable pub add_processor : (flags : ℕ) → Processors → Processors
add_processor flags s =
    let s' : Processors = if flags / 2 % 2 == 1 then record s { bootcpu = s.ncpu } else s in
    if ltb s.ncpu 8
    then record s' { cpu_id = update s.cpu_id s.ncpu s.ncpu; ncpu = s.ncpu + 1 }
    else s'

-- The loop over n more entries, from p on. An entry of an unknown type ends it.
unfoldable pub entries : Bytes → (n p : ℕ) → Processors → Processors
unfolding add_processor
entries m zero p s = s
entries m (suc n) p s =
    let step = if m p == 0 then 20 else 8 in
    let s' : Processors = if m p == 0 then add_processor (m (p + 3)) s else s in
    let rest = entries m n (p + step) s' in if leb (m p) 4 then rest else record s { ismp = false }

-- The end of mp_init: the interrupt mode, if there is a register for it.
unfoldable pub leave_pic_mode : Bool → Processors → Io Processors
unfolding inb outb
leave_pic_mode imcrp s =
    if imcrp then (do outb 0x22 0x70; v ← inb 0x23; outb 0x23 (bit_or v 1); pure s) else pure s

-- mp_init; none is a panic.
unfoldable pub mp_init : (npages : ℕ) → Bytes → Processors → Option (Io Processors)
unfolding mpconfig entries leave_pic_mode
mp_init npages m s = elim (mpconfig npages m) [
  | none ↦ none
  | some o ↦ elim o [
    | none ↦ some (pure (record s { bootcpu = 0 }))
    | some c ↦
        let (mp, conf) = c in
        let s' : Processors =
          entries m (half_at m (conf + 34)) (conf + 44)
            (record s { bootcpu = 0; ismp = true; lapicaddr = word_at m (conf + 36) }) in
        let s'' : Processors = record s' { started = update s'.started s'.bootcpu true } in
        some (
          if s''.ismp
          then leave_pic_mode (not (m (mp + 12) == 0)) s''
          else pure (record s'' { ncpu = 1; lapicaddr = 0 }))
  ]
]
