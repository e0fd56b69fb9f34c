-- ===== src/Board.antt =====
-- hypervisor/emulator/raspi/bcm2837.c: the state of a VM's emulated board, and the addresses of its
-- registers (include/boards/raspi).
use avisor.Prelude.{ℕ, ◌+◌}

-- `struct bcm2837_state`, part by part. `irq_enabled` is neither read nor written.
pub record IntCtrl : Type 0 where
  pub fiq_control : ℕ
  pub irqs_1_enabled : ℕ
  pub irqs_2_enabled : ℕ
  pub basic_irqs_enabled : ℕ

pub record Aux : Type 0 where
  pub mu_rx_overrun : ℕ
  pub aux_enables : ℕ
  pub aux_mu_io : ℕ
  pub aux_mu_ier : ℕ
  pub aux_mu_lcr : ℕ
  pub aux_mu_mcr : ℕ
  pub aux_mu_msr : ℕ
  pub aux_mu_scratch : ℕ
  pub aux_mu_cntl : ℕ
  pub aux_mu_baud : ℕ

pub record SysTimer : Type 0 where
  pub last_physical_count : ℕ
  pub offset : ℕ
  pub cs : ℕ
  pub c0 : ℕ
  pub c1 : ℕ
  pub c2 : ℕ
  pub c3 : ℕ
  pub c0_64 : ℕ
  pub c1_64 : ℕ
  pub c2_64 : ℕ
  pub c3_64 : ℕ

pub record BoardState : Type 0 where
  pub intctrl : IntCtrl
  pub aux : Aux
  pub systimer : SysTimer

-- `initial_state`; C zeroes what it does not name.
abbrev pub initial_state : BoardState
initial_state = record {
  intctrl = record {
    fiq_control = 0;
    irqs_1_enabled = 0;
    irqs_2_enabled = 0;
    basic_irqs_enabled = 0;
  };
  aux = record {
    mu_rx_overrun = 0;
    aux_enables = 0;
    aux_mu_io = 0;
    aux_mu_ier = 0;
    aux_mu_lcr = 0;
    aux_mu_mcr = 0;
    aux_mu_msr = 0x10;
    aux_mu_scratch = 0;
    aux_mu_cntl = 0x3;
    aux_mu_baud = 0;
  };
  systimer = record {
    last_physical_count = 0;
    offset = 0;
    cs = 0;
    c0 = 0;
    c1 = 0;
    c2 = 0;
    c3 = 0;
    c0_64 = 0;
    c1_64 = 0;
    c2_64 = 0;
    c3_64 = 0;
  };
}

-- PBASE
abbrev pub pbase : ℕ
pbase = 0x3F000000

abbrev pub irq_basic_pending : ℕ
irq_basic_pending = pbase + 0xB200

abbrev pub irq_pending_1 : ℕ
irq_pending_1 = pbase + 0xB204

abbrev pub irq_pending_2 : ℕ
irq_pending_2 = pbase + 0xB208

abbrev pub fiq_control : ℕ
fiq_control = pbase + 0xB20C

abbrev pub enable_irqs_1 : ℕ
enable_irqs_1 = pbase + 0xB210

abbrev pub enable_irqs_2 : ℕ
enable_irqs_2 = pbase + 0xB214

abbrev pub enable_basic_irqs : ℕ
enable_basic_irqs = pbase + 0xB218

abbrev pub disable_irqs_1 : ℕ
disable_irqs_1 = pbase + 0xB21C

abbrev pub disable_irqs_2 : ℕ
disable_irqs_2 = pbase + 0xB220

abbrev pub disable_basic_irqs : ℕ
disable_basic_irqs = pbase + 0xB224

abbrev pub aux_irq : ℕ
aux_irq = pbase + 0x215000

abbrev pub aux_enables : ℕ
aux_enables = pbase + 0x215004

abbrev pub aux_mu_io_reg : ℕ
aux_mu_io_reg = pbase + 0x215040

abbrev pub aux_mu_ier_reg : ℕ
aux_mu_ier_reg = pbase + 0x215044

abbrev pub aux_mu_iir_reg : ℕ
aux_mu_iir_reg = pbase + 0x215048

abbrev pub aux_mu_lcr_reg : ℕ
aux_mu_lcr_reg = pbase + 0x21504C

abbrev pub aux_mu_mcr_reg : ℕ
aux_mu_mcr_reg = pbase + 0x215050

abbrev pub aux_mu_lsr_reg : ℕ
aux_mu_lsr_reg = pbase + 0x215054

abbrev pub aux_mu_msr_reg : ℕ
aux_mu_msr_reg = pbase + 0x215058

abbrev pub aux_mu_scratch : ℕ
aux_mu_scratch = pbase + 0x21505C

abbrev pub aux_mu_cntl_reg : ℕ
aux_mu_cntl_reg = pbase + 0x215060

abbrev pub aux_mu_stat_reg : ℕ
aux_mu_stat_reg = pbase + 0x215064

abbrev pub aux_mu_baud_reg : ℕ
aux_mu_baud_reg = pbase + 0x215068

abbrev pub timer_cs : ℕ
timer_cs = pbase + 0x3000

abbrev pub timer_clo : ℕ
timer_clo = pbase + 0x3004

abbrev pub timer_chi : ℕ
timer_chi = pbase + 0x3008

abbrev pub timer_c0 : ℕ
timer_c0 = pbase + 0x300C

abbrev pub timer_c1 : ℕ
timer_c1 = pbase + 0x3010

abbrev pub timer_c2 : ℕ
timer_c2 = pbase + 0x3014

abbrev pub timer_c3 : ℕ
timer_c3 = pbase + 0x3018
