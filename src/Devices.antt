-- ===== src/Devices.antt =====
-- The devices: sched/kern/console.c, picirq.c, kclock.c and lapic.c.
pub mod Ports
pub mod Queue
pub mod Screen
pub mod Keymap
pub mod Keyboard
pub mod Console
pub mod Lapic
pub mod Mp
mod Tests
