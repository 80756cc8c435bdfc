-- ===== src/Pmap/Tests.antt =====
-- The set-up of memory and the page tables on a small machine.
mod Spaces
use sched_v2_solution.Base.{
  ◌+◌, ◌*◌, ◌≡◌, refl, true, none, some, arith, ◌==◌, if◌then◌else◌, inl, [], ◌∷◌,
}
use sched_v2_solution.Kernel.Ram.{Memory}
use sched_v2_solution.Pmap.Alloc.{page_incref, set_page}
use sched_v2_solution.Pmap.Table.{
  page_insert, pgdir_walk, write, entry_of, ensure_table, insert_at, page_remove, page_lookup,
  lookup_at, unmap,
}
use sched_v2_solution.Pmap.Table.Walk.{TableOf}
use sched_v2_solution.Pmap.Table.RoundTrip.{Maps, entry_for, page_insert-page_lookup}
use sched_v2_solution.Pmap.Boot.{kernbase, page_init, set_aside}
use sched_v2_solution.Pmap.Boot.Free.{Bounded, free_pages}
use sched_v2_solution.Pmap.Boot.Init.{Initialised, page_init-Initialised}

-- Page 1 is a page directory whose first entry is page 2, a table that maps nothing.
abbrev ram : Memory
ram = record {
  npages = 8;
  pages = λ p. record { pp_link = none; pp_ref = 1 };
  page_free_list = none;
  frame = λ p i. if p == 1 then if i == 0 then 0x2007 else 0 else 0;
  kern_pgdir = 1;
}

abbrev mapped : Memory
mapped = record ram {
  pages = λ p. if 3 == p then record { pp_link = none; pp_ref = 2 } else ram.pages p;
  frame =
      λ p. if 2 == p then (λ i. if 1 == i then entry_for 3 7 else ram.frame 2 i) else ram.frame p;
}

mapped-inserted : page_insert 1 3 0x1000 7 ram ≡ some (true, mapped)
unfolding page_insert pgdir_walk ensure_table entry_of insert_at page_remove page_lookup page_incref
    lookup_at set_page write unmap
mapped-inserted = refl

ram-TableOf : TableOf ram 1 0x1000
unfolding TableOf
ram-TableOf = inl (record {
  used = λ e. absurd (omega (arith, e));
  inside = omega arith;
  apart = λ e. absurd (omega (arith, e));
})

page_insert-page_lookup_example : Maps mapped 1 0x1000 3 7
page_insert-page_lookup_example =
    page_insert-page_lookup 1 3 0x1000 7 ram mapped (omega arith) (omega arith) (omega arith)
      ram-TableOf mapped-inserted

-- A machine with 300 pages, of which the kernel ends behind page 289.
abbrev boot_ram : Memory
boot_ram = record ram { npages = 300 }

boot-Bounded : Bounded 300 290 (kernbase + 290 * 0x1000)
boot-Bounded = record { at_page = refl; in_memory = omega arith; small = omega arith }

page_init-Initialised_example :
    Initialised 290
      (kernbase + 290 * 0x1000)
      boot_ram
      (page_init 0 (kernbase + 290 * 0x1000) boot_ram)
page_init-Initialised_example =
    page_init-Initialised 0 290 (kernbase + 290 * 0x1000) boot_ram boot-Bounded refl

first_free : free_pages 290 10 ≡ 9 ∷ 8 ∷ 6 ∷ 5 ∷ 4 ∷ 3 ∷ 2 ∷ 1 ∷ []
unfolding free_pages set_aside
first_free = refl
