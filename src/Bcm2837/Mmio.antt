-- ===== src/Bcm2837/Mmio.antt =====
-- hypervisor/emulator/raspi/bcm2837.c: `bcm2837_mmio_read` and `bcm2837_mmio_write`, which find the
-- device of an address. The VM that makes the access, memory and the mailbox are passed along.
use avisor.Prelude.{ℕ, ◌+◌, Bool, true, ◌&&◌, ◌==◌, if◌then◌else◌, leb}
use avisor.Pages.{Machine}
use avisor.Task.{Task}
use avisor.Board.{pbase}
use avisor.Vmbox.{Mbox, is_mbox_addr, handle_mbox_read, handle_mbox_write}
use avisor.Bcm2837.Aux.{addr_in_aux, handle_aux_read, handle_aux_write}
use avisor.Bcm2837.IntCtrl.{addr_in_intctrl, handle_intctrl_read, handle_intctrl_write}
use avisor.Bcm2837.SysTimer.{addr_in_systimer, handle_systimer_read, handle_systimer_write}

-- What an access can change.
pub record World : Type 0 where
  pub tsk : Task
  pub machine : Machine
  pub mbox : Mbox

-- What the hardware answers while an access is handled: two readings of the counter, the local that
-- a read of an empty ring leaves unset, and the translations of the MMU.
pub record Env : Type 0 where
  pub count₁ : ℕ
  pub count₂ : ℕ
  pub garbage : ℕ
  pub translate_el1 : ℕ → ℕ
  pub gv2m : ℕ → ℕ

abbrev pub gpfsel0 : ℕ
gpfsel0 = pbase + 0x200000

abbrev pub gpfsel1 : ℕ
gpfsel1 = pbase + 0x200004

abbrev pub gppudclk1 : ℕ
gppudclk1 = pbase + 0x20009C

-- ADDR_IN_GPIO
abbrev pub addr_in_gpio : ℕ → Bool
addr_in_gpio a = leb gpfsel0 a && leb a gppudclk1

pub handle_gpio_read : ℕ → ℕ
handle_gpio_read addr = if addr == gpfsel1 then 0x12000 else 0

unfoldable pub bcm2837_mmio_read : Env → World → ℕ → ℕ × World
unfolding handle_gpio_read
bcm2837_mmio_read env w addr =
    if addr_in_intctrl addr
    then (handle_intctrl_read w.tsk addr, w)
    else if addr_in_aux addr
    then (let (val, tsk) = handle_aux_read env.garbage w.tsk addr in (val, record w { tsk = tsk }))
    else if addr_in_systimer addr
    then (handle_systimer_read env.count₁ w.tsk addr, w)
    else if is_mbox_addr addr
    then (let (val, b, m) = handle_mbox_read w.machine w.mbox addr in
        (val, record w { mbox = b; machine = m }))
    else if addr_in_gpio addr
    then (handle_gpio_read addr, w)
    else (0, w)

-- The first part is false when PANIC ends the task.
unfoldable pub bcm2837_mmio_write : Env → World → (addr val : ℕ) → Bool × World
bcm2837_mmio_write env w addr val =
    if addr_in_intctrl addr
    then (true, record w { tsk = handle_intctrl_write w.tsk addr val })
    else if addr_in_aux addr
    then (true, record w { tsk = handle_aux_write w.tsk addr val })
    else if addr_in_systimer addr
    then (true, record w { tsk = handle_systimer_write env.count₁ env.count₂ w.tsk addr val })
    else if is_mbox_addr addr
    then (let (alive, b, mm, m) = handle_mbox_write env.gv2m w.machine w.tsk.mm w.mbox addr val in
        (alive, record w { tsk = record (w.tsk) { mm = mm }; mbox = b; machine = m }))
    else (true, w)
