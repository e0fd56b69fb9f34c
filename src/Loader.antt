-- ===== src/Loader.antt =====
-- hypervisor/common/loader.c, and `prepare_task` of hypervisor/arch/aarch64/task.c, which calls it:
-- how the file of a VM gets into its memory. The file system is a parameter: the result of
-- `f_open`, and what each `f_read` gives.
use Prim.Native.Nat.{bit_and, bit_or}
use avisor.Prelude.{
  ℕ, ◌+◌, ◌-◌, ◌*◌, ◌%◌, ◌^◌, ◌&&◌, List, [], ◌∷◌, ◌==◌, if◌then◌else◌, ltb, leb, set,
}
use avisor.Pages.{Machine, page_size, deallocate_page}
use avisor.Stage2.{Mm, page_mask, allocate_task_page}
use avisor.Task.{Task}
use avisor.Utils.Str.{strncpy}

-- `struct raw_binary_loader_args`; `filename` has 36 bytes.
pub record LoaderArgs : Type 0 where
  pub load_addr : ℕ
  pub entry_point : ℕ
  pub sp : ℕ
  pub filename : List ℕ

-- One `f_read`: its FRESULT, `br`, and the words that it puts in the buffer.
pub record Read : Type 0 where
  pub result : ℕ
  pub br : ℕ
  pub word : ℕ → ℕ

-- How loading ends: `panics` is the PANIC, which ends the task; `reads_on` that no `f_read` of the
-- list was the last one.
pub data Load : Type 0 where
  panics reads_on : Load
  returns : (status : ℕ) → Mm → Machine → Load

-- The buffer after a read.
abbrev pub fill : Machine → (buf : ℕ) → Read → Machine
fill m buf r = record m {
  mem = λ a. if leb buf a && ltb a (buf + r.br) then r.word (a - buf) else m.mem a;
}

-- `-r` as an `int`
abbrev pub negated : ℕ → ℕ
negated r = (2 ^ 32 - r) % 2 ^ 32

-- The loop, with a round for each read. The buffer is not tested for 0, since PANIC ends the task when
-- no page is left.
pub load_pages : Machine → Mm → (gva : ℕ) → List Read → Load
load_pages m mm gva [] = reads_on
load_pages m mm gva (r ∷ reads) =
    let (buf, mm', m') = allocate_task_page m mm gva in
    let rest = load_pages (fill m' buf r) mm' ((gva + page_size) % 2 ^ 64) reads in
    if m'.pool.panicked
    then panics
    else if r.br == 0
    then returns (negated r.result) mm' (deallocate_page (fill m' buf r) buf)
    else rest

pub load_file_to_memory : (opened : ℕ) → List Read → Machine → Mm → (va : ℕ) → Load
unfolding load_pages
load_file_to_memory opened reads m mm va =
    let loaded = load_pages m mm (bit_and va page_mask) reads in
    if opened == 0 then loaded else panics

-- What `raw_binary_loader` sets when the file is loaded.
abbrev pub loaded_task : LoaderArgs → Task → Mm → Task
loaded_task args tsk mm = record tsk {
  mm = mm;
  name = strncpy tsk.name args.filename 36;
  pt_regs = record (tsk.pt_regs) {
    pc = args.entry_point;
    sp = args.sp;
    regs = set (set (set tsk.pt_regs.regs 0 0) 1 0) 2 0;
  };
}

-- The outcome of `prepare_task`: the task that is ready to run and the machine, or none when PANIC
-- ended it.
pub data Prepared : Type 0 where
  gives_up goes_on : Prepared
  ready : Task → Machine → Prepared

-- `raw_binary_loader` after the file: a negative status is a failure.
pub raw_binary_loader : LoaderArgs → Task → Load → Prepared
raw_binary_loader args tsk panics = gives_up
raw_binary_loader args tsk reads_on = goes_on
raw_binary_loader args tsk (returns status mm m) =
    if leb (2 ^ 31) status then gives_up else ready (loaded_task args tsk mm) m

-- PSR_MODE_EL1h and the masked interrupts
abbrev pub initial_pstate : ℕ
initial_pstate = bit_or 0x5 (0xf * 2 ^ 6)

-- The registers of the processor that are restored at the end are left to the assembly.
pub prepare_task : (opened : ℕ) → List Read → LoaderArgs → Machine → Task → Prepared
unfolding raw_binary_loader load_file_to_memory
prepare_task opened reads args m tsk =
    let masked : Task = record tsk { pt_regs = record (tsk.pt_regs) { pstate = initial_pstate } } in
    raw_binary_loader args masked (load_file_to_memory opened reads m tsk.mm args.load_addr)
