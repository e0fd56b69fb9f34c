-- ===== src/Trap/Tests.antt =====
-- A VM whose board has the mini UART on, beside eight free pages, and the theorems on its
-- exceptions.
use avisor.Prelude.{ℕ, ◌+◌, ◌*◌, ◌^◌, ◌≡◌, inr, refl, arith, [], ◌∷◌}
use avisor.Fifo.Queue
use avisor.Samples.{vm, machine, vm-HasRings, machine-IsTree}
use avisor.Fifo.Refine.{contents}
use avisor.Stage2.Alloc.{Allocated}
use avisor.Task.{csselr_el1, midr_el1, revidr_el1}
use avisor.Board.{aux_mu_io_reg}
use avisor.Regs.{reg}
use avisor.Vmbox.{initial_mbox}
use avisor.Bcm2837.Mmio.{World, Env}
use avisor.Trap.{handle_trap_system, goes_on, handle_sync_exception}
use avisor.Trap.System.{syndrome, handle_trap_system_lem}
use avisor.Trap.Abort.{fault_page, first_touch}
use avisor.Trap.Device.{store_to_console, load_from_console}
use avisor.Trap.Panic.{Ended, handle_sync_exception-Ended}

abbrev world : World
world = record { tsk = vm; machine = machine; mbox = initial_mbox }

-- The VM's addresses are its own physical ones.
abbrev env : Env
env = record { count₁ = 1000; count₂ = 1000; garbage = 9; translate_el1 = λ a. a; gv2m = λ a. a }

-- ESR_EL2 of a data abort: a load of or store from register `srt`.
abbrev abort : (srt is_store status : ℕ) → ℕ
abort srt is_store status = 36 * 2 ^ 26 + srt * 2 ^ 16 + is_store * 2 ^ 6 + status

-- CSSELR_EL1, which a VM reads as (op1, op2) = (2, 0), is not written by these numbers, but by
-- those of CCSIDR_EL1.
csselr_lost :
    ((handle_trap_system vm (syndrome 3 2 0 0 0 1 0)).cpu_sysregs csselr_el1 ≡ 77)
    × ((handle_trap_system vm (syndrome 3 1 0 0 0 1 0)).cpu_sysregs csselr_el1 ≡ 0x242)
unfolding handle_trap_system
csselr_lost = (refl, refl)

-- A read into the zero register overwrites the saved stack pointer.
xzr_is_sp : ((handle_trap_system vm (syndrome 3 0 0 0 6 31 1)).pt_regs.sp ≡ 77)
unfolding handle_trap_system
xzr_is_sp = refl

-- REVIDR_EL1 is read into register 4, and an MSR that names it writes no register.
handle_trap_system_lem_example :
    let mrs = handle_trap_system vm (syndrome 3 0 0 0 6 4 1) in
    let msr = handle_trap_system vm (syndrome 3 0 0 0 6 4 0) in
    (reg mrs.pt_regs 4 ≡ 77)
    × (mrs.cpu_sysregs ≡ vm.cpu_sysregs)
    × (mrs.pt_regs.pc ≡ 0x80004)
    × (msr.cpu_sysregs midr_el1 ≡ 77)
    × (reg msr.pt_regs 4 ≡ 5)
    × (msr.pt_regs.pc ≡ 0x80004)
handle_trap_system_lem_example =
    handle_trap_system_lem vm revidr_el1 3 0 0 0 6 4 4 midr_el1 refl
      (record {
        op0_in = omega arith;
        op1_in = omega arith;
        crn_in = omega arith;
        crm_in = omega arith;
        op2_in = omega arith;
        rt_in = omega arith;
        dir_in = omega arith;
      })
      (inr refl) refl

first_touch_example :
    (w' : World) × (page : ℕ) × (handle_sync_exception env world (abort 1 1 5) 0x91238 ≡ goes_on w')
    × Allocated (λ t. 0) machine 1 (fault_page env 0x91238) (page, w'.tsk.mm, w'.machine)
    × (w'.tsk.pt_regs ≡ vm.pt_regs)
    × (w'.tsk.stat.pf_count ≡ 1)
first_touch_example =
    first_touch env world 1 (abort 1 1 5) 0x91238 machine-IsTree refl (omega arith) (refl, refl)

store_to_console_example :
    (w' : World) × (handle_sync_exception env world (abort 1 1 13) aux_mu_io_reg ≡ goes_on w')
    × (contents w'.tsk.console.out_fifo ≡ 0x42 ∷ [])
    × (contents w'.tsk.console.in_fifo ≡ 65 ∷ 66 ∷ [])
    × (w'.tsk.pt_regs.regs ≡ vm.pt_regs.regs)
    × (w'.tsk.pt_regs.pc ≡ 0x80004)
unfolding Queue.enqueue
store_to_console_example =
    store_to_console env world (abort 1 1 13) aux_mu_io_reg (refl, refl) refl refl refl (refl, refl)
      vm-HasRings

load_from_console_example :
    (w' : World) × (handle_sync_exception env world (abort 3 0 13) aux_mu_io_reg ≡ goes_on w')
    × (reg w'.tsk.pt_regs 3 ≡ 65)
    × (contents w'.tsk.console.in_fifo ≡ 66 ∷ [])
    × (contents w'.tsk.console.out_fifo ≡ [])
    × (w'.tsk.pt_regs.pc ≡ 0x80004)
unfolding Queue.dequeue
load_from_console_example =
    load_from_console env world (abort 3 0 13) aux_mu_io_reg 3 (refl, refl) refl refl refl
      (refl, refl) vm-HasRings refl

-- A translation fault.
handle_sync_exception-Ended_example : Ended env world (abort 0 0 5) 0
handle_sync_exception-Ended_example =
    handle_sync_exception-Ended env world (abort 0 0 5) 0 (machine-IsTree.pool)
