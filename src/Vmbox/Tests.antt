-- ===== src/Vmbox/Tests.antt =====
-- A request for the size of memory, in a buffer at 0x80000, and its answer.
use avisor.Prelude.{false, ◌+◌, ◌*◌, ◌^◌, ◌≡◌, refl, inl, arith, replicate, ◌==◌, if◌then◌else◌}
use avisor.Pages.{Machine, low_memory}
use avisor.Vmbox.{Mbox, word, mbox_empty, get_arm_memory, mbox_read, handle_mbox_read}
use avisor.Vmbox.Laws.{handle_mbox_read_lem}

abbrev asked : Mbox
asked = record { buffer = 0x80000; val = 0x80008; empty = mbox_empty }

abbrev machine : Machine
machine = record {
  pool = record {
    start_addr = low_memory;
    page_nr = 8;
    memap = replicate 8 0;
    last_page_id = 0;
    panicked = false;
  };
  mem = λ a. if a == 0x80000 then 32 else if a == 0x80008 then 8 * 2 ^ 32 + get_arm_memory else 0;
}

handle_mbox_read_lem_example :
    let (val, b', m') = handle_mbox_read machine asked mbox_read in
    (val ≡ 0x80008) × (b' ≡ asked) × (m'.pool ≡ machine.pool) × (word asked m'.mem 6 ≡ 0x3c000000)
handle_mbox_read_lem_example =
    handle_mbox_read_lem machine asked 6 refl (omega arith) (refl, refl) (inl refl)
