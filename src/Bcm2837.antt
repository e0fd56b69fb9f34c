-- ===== src/Bcm2837.antt =====
-- hypervisor/emulator/raspi/bcm2837.c: the board that a VM sees, part by part.
pub mod Aux
pub mod Init
pub mod IntCtrl
pub mod Mmio
pub mod SysTimer
mod Tests
