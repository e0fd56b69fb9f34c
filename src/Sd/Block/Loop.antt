-- ===== src/Sd/Block/Loop.antt =====
-- The loop of sd_readblock, and the whole call.
use avisor.Prelude.{
  ℕ, zero, suc, ◌+◌, ◌*◌, ◌≡◌, ◌≢◌, ◌∙◌, inl, inr, ap, refl, Bool, true, false, List, [], ◌++◌,
  ◌==◌, arith, Bool-cases, length, length-append,
}
use avisor.Sd.Registers.{scr_supp_ccs, int_read_rdy}
use avisor.Sd.{Hardware, Sd, ◌>>=◌, pure, modify, set_err, has, sd_int}
use avisor.Sd.Trace.{view, sd_int-IsQuiet}
use avisor.Sd.Command.{to_long-ne}
use avisor.Sd.Block.{read_words, ask, read_blocks}
use avisor.Sd.Block.Ran.{Ran, Ran-quiet, Ran-then, Ran-ok, Ran-failed}
use avisor.Sd.Block.Transfer.{whole_of, ask_commands, read_words_lem, length-read_words, ask_lem}

unfoldable pub loop_commands : (whole : Bool) (lba left c : ℕ) → List (ℕ × ℕ)
loop_commands whole lba zero c = []
loop_commands whole lba (suc left) c =
    ask_commands whole lba c ++ loop_commands whole lba left (c + 1)

-- A wait for the data of a block.
ready_lem :
    (hw : Hardware) (s : Sd) (e : ℕ)
    → e ≢ 0
    → Ran false [] [] (view s) (record (view (sd_int int_read_rdy hw s).1) { error = e })
ready_lem hw s e ne =
    let q = Ran-quiet _ _ ((sd_int-IsQuiet int_read_rdy).at hw s) in
    record { took = q.took; kept = q.kept; told = λ t. cc; failed = λ _. ne }

pub read_blocks_lem :
    (lba left c : ℕ) (hw : Hardware) (s : Sd)
    → Ran
        (read_blocks lba left c hw s).0.0
        (loop_commands (whole_of (view s)) lba left c)
        (read_blocks lba left c hw s).0.1
        (view s)
        (view (read_blocks lba left c hw s).1)
unfolding read_blocks loop_commands ◌>>=◌ set_err modify pure
read_blocks_lem lba zero c hw s = Ran-quiet _ _ refl
read_blocks_lem lba (suc left) c hw s =
    let (asked, s₁) = ask lba c hw s in
    let (r, s₂) = sd_int int_read_rdy hw s₁ in
    let (words, s₃) = read_words 128 hw s₂ in
    let first = ask_lem lba c hw s in
    let quiet = Ran-quiet _ _ ((sd_int-IsQuiet int_read_rdy).at hw s₁) in
    let taken = Ran-then quiet (read_words_lem 128 hw s₂) in
    let rest = read_blocks_lem lba left (c + 1) hw s₃ in
    let same : whole_of (view s₃) ≡ whole_of (view s) =
      ap (λ (k : ℕ). has k scr_supp_ccs) (taken.kept ∙ first.kept) in
    elim (Bool-cases asked) [
      | inr e ↦ rw e (Ran-failed e first)
      | inl e ↦ elim (Bool-cases (r == 0)) [
        | inl t ↦ rw (e, t) (Ran-then (Ran-ok e first) (Ran-then taken (rw same at rest)))
        | inr f ↦
            rw (e, f)
              (Ran-failed refl (Ran-then (Ran-ok e first) (ready_lem hw s₁ _ (to_long-ne r f))))
      ]
    ]

pub length-read_blocks :
    (lba left c : ℕ) (hw : Hardware) (s : Sd)
    → (read_blocks lba left c hw s).0.0 ≡ true
    → length (read_blocks lba left c hw s).0.1 ≡ left * 128
unfolding read_blocks ◌>>=◌ pure
length-read_blocks lba zero c hw s = λ e. refl
length-read_blocks lba (suc left) c hw s =
    let (asked, s₁) = ask lba c hw s in
    let (r, s₂) = sd_int int_read_rdy hw s₁ in
    let (words, s₃) = read_words 128 hw s₂ in
    let many = length-read_blocks lba left (c + 1) hw s₃ in
    let here = length-read_words 128 hw s₂ in
    elim (Bool-cases asked) [
      | inr e ↦ rw e (λ f. cc)
      | inl e ↦ elim (Bool-cases (r == 0)) [
        | inl t ↦ rw (e, t) (λ f. omega (arith, many f, here, length-append {0}))
        | inr f ↦ rw (e, f) (λ g. cc)
      ]
    ]
