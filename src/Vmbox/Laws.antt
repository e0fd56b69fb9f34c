-- ===== src/Vmbox/Laws.antt =====
-- What the mailbox answers, and when it ends the task.
use Prim.Native.Nat.{bit_and, bit_or}
use avisor.Prelude.{
  ℕ, ◌+◌, ◌*◌, ◌%◌, ◌<◌, ◌^◌, ◌≡◌, ◌⊎◌, inl, inr, refl, ap, ◌∙◌, true, ◌==◌, if◌then◌else◌, arith,
  ==_iff, Bool-cases,
}
use avisor.Prelude.Bits.{complement, bit_or-lt}
use avisor.Pages.{Machine}
use avisor.Stage2.{Mm, check_task_page_mapped}
use avisor.Vmbox.{
  answer, mbox_response, emulate_mbox_read, get_board_serial, get_arm_memory, set_power_state,
  mbox_chan_tags, mbox_read, handle_mbox_read, load32, store32, word, set_word, Mbox, mbox_write,
  bus_to_phys, emulate_mbox_write, handle_mbox_write,
}

-- The address of the buffer that a write of `val` hands over.
abbrev pub buffer_of : ℕ → ℕ
buffer_of val = bit_and (bus_to_phys val) (complement 64 0xf)

-- Only a write of the address of a buffer that is not mapped ends the task.
pub handle_mbox_write-alive :
    (gv2m : ℕ → ℕ) (m : Machine) (mm : Mm) (b : Mbox) (addr val : ℕ)
    → (handle_mbox_write gv2m m mm b addr val).0
      ≡ (if addr == mbox_write then (check_task_page_mapped m mm (buffer_of val)).0 else true)
unfolding handle_mbox_write emulate_mbox_write
handle_mbox_write-alive gv2m m mm b addr val = elim (Bool-cases (addr == mbox_write)) [
  | inl e ↦ rw e refl
  | inr e ↦ rw e refl
]

-- The words of a buffer are its own.
load32-store32 :
    (mem : ℕ → ℕ) (a b v : ℕ)
    → a % 4 ≡ 0
    → b % 4 ≡ 0
    → v < 2 ^ 32
    → load32 (store32 mem a v) b ≡ (if b == a then v else load32 mem b)
load32-store32 mem a b v ha hb hv = ground arith

-- A buffer as the firmware wants it.
abbrev pub IsAligned : Mbox → Type 0
IsAligned b = b.buffer % 16 ≡ 0

word-set_word :
    (b : Mbox) (mem : ℕ → ℕ) (i j v : ℕ)
    → IsAligned b
    → v < 2 ^ 32
    → word b (set_word b mem i v) j ≡ (if j == i then v else word b mem j)
word-set_word b mem i j v h hv =
    load32-store32 mem (b.buffer + 4 * i) (b.buffer + 4 * j) v (omega arith) (omega arith) hv
    ∙ same_test
  where
    same_test :
        (if b.buffer + 4 * j == b.buffer + 4 * i then v else word b mem j)
        ≡ (if j == i then v else word b mem j)
    same_test = ground arith

answer_lem :
    (b : Mbox) (mem : ℕ → ℕ) (i : ℕ)
    → IsAligned b
    → word b mem 3 < 2 ^ 32
    → word b (answer b mem) i ≡ (
        if i == 4
        then bit_or mbox_response (word b mem 3)
        else if i == 1
        then mbox_response
        else word b mem i)
unfolding answer
answer_lem b mem i h size =
    let mem₁ = set_word b mem 1 mbox_response in
    let kept : word b mem₁ 3 ≡ word b mem 3 =
      word-set_word b mem 1 3 mbox_response h (omega arith) in
    word-set_word b mem₁ 4 i (bit_or mbox_response (word b mem₁ 3)) h
      (rw kept (bit_or-lt 32 mbox_response (word b mem 3) (omega arith) size))
    ∙ rw kept (
        ap (λ x. if i == 4 then bit_or mbox_response (word b mem 3) else x)
          (word-set_word b mem 1 i mbox_response h (omega arith)))

-- The buffer of a request for the tag, after its answer: the words 1 and 4 say that it is one, and
-- the words 5 and 6 hold the value. A power state keeps the device in word 5.
abbrev pub response : (tag : ℕ) → (ℕ → ℕ) → ℕ → ℕ
response tag old i =
    if i == 1
    then mbox_response
    else if i == 4
    then bit_or mbox_response (old 3)
    else if i == 5
    then if tag == set_power_state then old 5 else 0
    else if i == 6
    then if tag == get_arm_memory then 0x3c000000 else if tag == set_power_state then 1 else 0
    else old i

abbrev pub IsKnownTag : ℕ → Type 0
IsKnownTag tag = (tag ≡ get_arm_memory) ⊎ (tag ≡ get_board_serial) ⊎ (tag ≡ set_power_state)

-- A request of the tags channel.
abbrev pub IsRequest : Mbox → (ℕ → ℕ) → Type 0
IsRequest b mem = (bit_and b.val 0xf ≡ mbox_chan_tags) × (word b mem 1 ≡ 0)

-- A value of two words behind an answer.
two_words :
    (b : Mbox) (mem : ℕ → ℕ) (i v : ℕ)
    → IsAligned b
    → v < 2 ^ 32
    → word b (set_word b (set_word b mem 5 0x0) 6 v) i
      ≡ (if i == 6 then v else if i == 5 then 0 else word b mem i)
two_words b mem i v h hv =
    word-set_word b (set_word b mem 5 0x0) 6 i v h hv
    ∙ ap (λ x. if i == 6 then v else x) (word-set_word b mem 5 i 0x0 h (omega arith))

-- The order of the stores does not matter.
arrange :
    (i x1 x4 x5 x6 x : ℕ)
    → (if i == 6
        then x6
        else if i == 5
        then x5
        else if i == 4
        then x4
        else if i == 1
        then x1
        else x)
      ≡ (if i == 1
          then x1
          else if i == 4
          then x4
          else if i == 5
          then x5
          else if i == 6
          then x6
          else x)
arrange i x1 x4 x5 x6 x = ground arith

value_lem :
    (b : Mbox) (mem : ℕ → ℕ) (i v : ℕ)
    → IsAligned b
    → word b mem 3 < 2 ^ 32
    → v < 2 ^ 32
    → word b (set_word b (set_word b (answer b mem) 5 0x0) 6 v) i ≡ (
        if i == 1
        then mbox_response
        else if i == 4
        then bit_or mbox_response (word b mem 3)
        else if i == 5
        then 0
        else if i == 6
        then v
        else word b mem i)
value_lem b mem i v h size hv =
    two_words b (answer b mem) i v h hv
    ∙ ap (λ x. if i == 6 then v else if i == 5 then 0 else x) (answer_lem b mem i h size)
    ∙ arrange i mbox_response (bit_or mbox_response (word b mem 3)) 0 v (word b mem i)

-- Without word 5.
state_lem :
    (b : Mbox) (mem : ℕ → ℕ) (i : ℕ)
    → IsAligned b
    → word b mem 3 < 2 ^ 32
    → word b (set_word b (answer b mem) 6 0x1) i ≡ (
        if i == 1
        then mbox_response
        else if i == 4
        then bit_or mbox_response (word b mem 3)
        else if i == 5
        then word b mem 5
        else if i == 6
        then 1
        else word b mem i)
state_lem b mem i h size =
    word-set_word b (answer b mem) 6 i 0x1 h (omega arith)
    ∙ ap (λ x. if i == 6 then 1 else x) (answer_lem b mem i h size ∙ same)
    ∙ arrange i mbox_response (bit_or mbox_response (word b mem 3)) (word b mem 5) 1 (word b mem i)
  where
    same :
        (if i == 4
          then bit_or mbox_response (word b mem 3)
          else if i == 1
          then mbox_response
          else word b mem i)
        ≡ (if i == 5
            then word b mem 5
            else if i == 4
            then bit_or mbox_response (word b mem 3)
            else if i == 1
            then mbox_response
            else word b mem i)
    same = elim (Bool-cases (i == 5)) [ inl e ↦ rw ((==_iff i 5).0 e) refl | inr e ↦ rw e refl ]

emulate_mbox_read_lem :
    (b : Mbox) (mem : ℕ → ℕ) (i : ℕ)
    → IsAligned b
    → word b mem 3 < 2 ^ 32
    → IsRequest b mem
    → IsKnownTag (word b mem 2)
    → word b (emulate_mbox_read b mem) i ≡ response (word b mem 2) (word b mem) i
unfolding emulate_mbox_read
emulate_mbox_read_lem b mem i h size (tags, request) (inl tag) =
    rw (tags, request, tag) (value_lem b mem i 0x3c000000 h size (omega arith))
emulate_mbox_read_lem b mem i h size (tags, request) (inr (inl tag)) =
    rw (tags, request, tag) (value_lem b mem i 0x0 h size (omega arith))
emulate_mbox_read_lem b mem i h size (tags, request) (inr (inr tag)) =
    rw (tags, request, tag) (state_lem b mem i h size)

-- A VM that has handed over a 16-byte aligned buffer with a request for a tag that the hypervisor
-- knows reads the mailbox register: it gets back what it wrote there, the buffer holds the answer,
-- and every other word counted from the buffer's start is as it was.
pub handle_mbox_read_lem :
    (m : Machine) (b : Mbox) (i : ℕ)
    → IsAligned b
    → word b m.mem 3 < 2 ^ 32
    → IsRequest b m.mem
    → IsKnownTag (word b m.mem 2)
    → let (val, b', m') = handle_mbox_read m b mbox_read in
      (val ≡ b.val)
      × (b' ≡ b)
      × (m'.pool ≡ m.pool)
      × (word b m'.mem i ≡ response (word b m.mem 2) (word b m.mem) i)
unfolding handle_mbox_read
handle_mbox_read_lem m b i h size request tag =
    (refl, refl, refl, emulate_mbox_read_lem b m.mem i h size request tag)
