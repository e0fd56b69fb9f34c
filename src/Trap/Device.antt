-- ===== src/Trap/Device.antt =====
-- The whole way of a VM's access to the data register of its mini UART: the data abort, the device
-- that `handle_mem_abort` finds, the queue of the console and the register of the instruction.
use avisor.Prelude.{
  ℕ, ◌+◌, ◌/◌, ◌%◌, ◌^◌, ◌≡◌, refl, ap, ◌∙◌, true, none, some, ◌==◌, if◌then◌else◌, length, arith,
}
use avisor.Prelude.Bits.{bit_and_low}
use avisor.Task.{Task}
use avisor.Board.{aux_mu_io_reg}
use avisor.Regs.{reg, set_reg, increment_pc}
use avisor.Fifo.Queue
use avisor.Fifo.Refine.{contents}
use avisor.Bcm2837.Aux.{handle_aux_read, handle_aux_write}
use avisor.Bcm2837.Aux.Laws.{HasRings, IsOpen, read-pt_regs, write-pt_regs, data_register_refines}
use avisor.Bcm2837.Mmio.{World, Env, bcm2837_mmio_read, bcm2837_mmio_write}
use avisor.Trap.{field, get_ipa, mmio_access, permission_fault, goes_on, handle_sync_exception}
use avisor.Trap.System.{reg-set_reg, pc-set_reg}
use avisor.Trap.Abort.{IsDataAbort, data_abort, ended, access_of}

-- The world after an access, with the instruction skipped and the access counted.
abbrev pub after_access : World → Task → World
after_access w tsk = record w {
  tsk = record (increment_pc tsk 4) {
    stat = record (tsk.stat) { mmio_count = tsk.stat.mmio_count + 1 };
  };
}

-- A store to the data register is the write of the mini UART.
store_lem :
    (env : Env) (w : World) (esr far : ℕ)
    → get_ipa env far ≡ aux_mu_io_reg
    → w.tsk.has_board ≡ true
    → field esr 6 0x1 ≡ 1
    → permission_fault env w far esr ≡ (
      true,
      after_access w (handle_aux_write w.tsk aux_mu_io_reg (reg w.tsk.pt_regs (field esr 16 0x1f))),
    )
unfolding permission_fault mmio_access bcm2837_mmio_write
store_lem env w esr far at board dir = rw (at, board, dir) refl

-- A load from it is the read of the mini UART.
load_lem :
    (env : Env) (w : World) (esr far : ℕ)
    → get_ipa env far ≡ aux_mu_io_reg
    → w.tsk.has_board ≡ true
    → field esr 6 0x1 ≡ 0
    → permission_fault env w far esr ≡ (
      true,
      (let (val, tsk) = handle_aux_read env.garbage w.tsk aux_mu_io_reg in
          after_access w (record tsk { pt_regs = set_reg tsk.pt_regs (field esr 16 0x1f) val })),
    )
unfolding permission_fault mmio_access bcm2837_mmio_read
load_lem env w esr far at board dir = rw (at, board, dir) refl

-- A VM with a board, its UART on and its latch open, stores a register to the data register: the
-- data abort ends with the task going on behind the instruction, and the register's low byte at
-- the end of the console's output, or dropped when that is full.
pub store_to_console :
    (env : Env) (w : World) (esr far : ℕ)
    → IsDataAbort esr 3
    → field esr 6 0x1 ≡ 1
    → get_ipa env far ≡ aux_mu_io_reg
    → w.tsk.has_board ≡ true
    → IsOpen w.tsk
    → HasRings w.tsk
    → (w' : World) × (handle_sync_exception env w esr far ≡ goes_on w')
      × (contents w'.tsk.console.out_fifo
          ≡ (Queue.enqueue
              (contents w.tsk.console.out_fifo)
              (reg w.tsk.pt_regs (field esr 16 0x1f) % 256)).1)
      × (contents w'.tsk.console.in_fifo ≡ contents w.tsk.console.in_fifo)
      × (w'.tsk.pt_regs.regs ≡ w.tsk.pt_regs.regs)
      × (w'.tsk.pt_regs.pc ≡ (w.tsk.pt_regs.pc + 4) % 2 ^ 64)
store_to_console env w esr far kind dir at board opened h =
    let val = reg w.tsk.pt_regs (field esr 16 0x1f) in
    let (out, same, _, _, _) = data_register_refines 0 val h opened.0 opened.1 in
    let regs = write-pt_regs w.tsk val opened in
    (
      after_access w (handle_aux_write w.tsk aux_mu_io_reg val),
      ended (data_abort env w esr far 3 kind)
          (access_of env w esr far kind.1 ∙ store_lem env w esr far at board dir),
      out,
      same,
      ap (λ r. r.regs) regs,
      ap (λ r. (r.pc + 4) % 2 ^ 64) regs,
    )

-- The same VM loads from the data register: the abort ends with the task going on behind the
-- instruction, the first character of the console's input taken and in the register that the
-- instruction names, and every other register as it was. From an empty input the register gets
-- the low byte of what the handler's local happened to hold.
pub load_from_console :
    (env : Env) (w : World) (esr far i : ℕ)
    → IsDataAbort esr 3
    → field esr 6 0x1 ≡ 0
    → get_ipa env far ≡ aux_mu_io_reg
    → w.tsk.has_board ≡ true
    → IsOpen w.tsk
    → HasRings w.tsk
    → length w.tsk.pt_regs.regs ≡ 31
    → let (char, rest) = Queue.dequeue (contents w.tsk.console.in_fifo) in
      (w' : World) × (handle_sync_exception env w esr far ≡ goes_on w')
      × (reg w'.tsk.pt_regs i ≡ (
          if i == field esr 16 0x1f
          then (elim char [ none ↦ env.garbage | some v ↦ v ]) % 256
          else reg w.tsk.pt_regs i))
      × (contents w'.tsk.console.in_fifo ≡ rest)
      × (contents w'.tsk.console.out_fifo ≡ contents w.tsk.console.out_fifo)
      × (w'.tsk.pt_regs.pc ≡ (w.tsk.pt_regs.pc + 4) % 2 ^ 64)
load_from_console env w esr far i kind dir at board opened h l =
    let srt = field esr 16 0x1f in
    let (val, tsk) = handle_aux_read env.garbage w.tsk aux_mu_io_reg in
    let (_, _, char, rest, same) = data_register_refines env.garbage 0 h opened.0 opened.1 in
    let regs = read-pt_regs env.garbage w.tsk opened in
    (
      after_access w (record tsk { pt_regs = set_reg tsk.pt_regs srt val }),
      ended (data_abort env w esr far 3 kind)
          (access_of env w esr far kind.1 ∙ load_lem env w esr far at board dir),
      ap (λ r. reg (set_reg r srt val) i) regs
          ∙ reg-set_reg w.tsk.pt_regs srt i val l (omega (arith, bit_and_low 5 (esr / 2 ^ 16)))
          ∙ ap (λ v. if i == srt then v else reg w.tsk.pt_regs i) char,
      rest,
      same,
      ap (λ pc. (pc + 4) % 2 ^ 64) (pc-set_reg tsk.pt_regs srt val ∙ ap (λ r. r.pc) regs),
    )
