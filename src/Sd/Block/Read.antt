-- ===== src/Sd/Block/Read.antt =====
-- The whole call of sd_readblock.
use avisor.Prelude.{
  ℕ, zero, suc, ◌+◌, ◌*◌, ◌%◌, ◌^◌, ◌≡◌, ◌≢◌, ◌<◌, ◌∙◌, sym, ◌⊎◌, inl, inr, ap, refl, Bool, true,
  false, not, List, [], ◌∷◌, ◌++◌, ◌==◌, if◌then◌else◌, arith, Bool-cases, ltb, length, ==_iff,
}
use mathlib.Core.List.{append-nil}
use mathlib.Core.Path.{subst}
use avisor.Sd.Registers.{
  cmd_stop_trans, cmd_read_single, cmd_read_multi, cmd_set_blockcnt, scr_supp_ccs,
  scr_supp_set_blkcnt, sr_dat_inhibit,
}
use avisor.Sd.{Hardware, Sd, has, ◌>>=◌, pure, modify, set_err, sd_status}
use avisor.Sd.Trace.{View, view, sd_status-IsQuiet}
use avisor.Sd.Block.{read_blocks, start_read, stop, transfer, sd_readblock}
use avisor.Sd.Block.Ran.{Ran, Ran-quiet, Ran-then, Ran-ok}
use avisor.Sd.Block.Transfer.{
  whole_of, counted_of, announce_commands, read_code, start_commands, ask_commands, single,
  stop_commands, start_read_lem, stop_lem,
}
use avisor.Sd.Block.Loop.{loop_commands, read_blocks_lem, length-read_blocks}

-- One command for each block, for a card that is addressed by bytes.
abbrev pub singles : (lba left c : ℕ) → List (ℕ × ℕ)
singles lba zero c = []
singles lba (suc left) c = single lba c ∷ singles lba left (c + 1)

-- The commands that read `num` blocks.
abbrev pub read_commands : (whole counted : Bool) (lba num : ℕ) → List (ℕ × ℕ)
read_commands whole counted lba num =
    if not whole
    then singles lba num 0
    else if num == 1
    then (cmd_read_single, lba) ∷ []
    else if counted
    then (cmd_set_blockcnt, num) ∷ (cmd_read_multi, lba) ∷ []
    else (cmd_read_multi, lba) ∷ (cmd_stop_trans, 0) ∷ []

loop_commands-whole : (lba left c : ℕ) → loop_commands true lba left c ≡ []
unfolding loop_commands ask_commands
loop_commands-whole lba zero c = refl
loop_commands-whole lba (suc left) c = loop_commands-whole lba left (c + 1)

loop_commands-singles : (lba left c : ℕ) → loop_commands false lba left c ≡ singles lba left c
unfolding loop_commands ask_commands
loop_commands-singles lba zero c = refl
loop_commands-singles lba (suc left) c =
    ap (λ l. single lba c ∷ l) (loop_commands-singles lba left (c + 1))

one_lt : (num : ℕ) → (num == 1) ≡ true → ltb 1 num ≡ false
one_lt num e = ground arith

lt_one : (num : ℕ) → 0 < num → (num == 1) ≡ false → ltb 1 num ≡ true
lt_one num h e = ground arith

no_stop : (counted : Bool) (num : ℕ) → stop_commands false counted num ≡ []
unfolding stop_commands
no_stop counted num = ground arith

parts :
    (whole counted : Bool) (lba num : ℕ)
    → 0 < num
    → start_commands whole counted lba num
        ++ (loop_commands whole lba num 0 ++ stop_commands whole counted num)
      ≡ read_commands whole counted lba num
unfolding start_commands stop_commands announce_commands read_code
parts true counted lba num h = rw (loop_commands-whole lba num 0) (elim (Bool-cases (num == 1)) [
  | inl e ↦ rw (e, one_lt num e) refl
  | inr e ↦
      rw (e, lt_one num h e) (elim (Bool-cases counted) [ inl k ↦ rw k refl | inr k ↦ rw k refl ])
])
parts false counted lba num h =
    rw (loop_commands-singles lba num 0) (rw (no_stop counted num) (append-nil _))

-- What a call returns, with the words it wrote to the buffer: these are the words that were taken
-- from the card; and the result is either the bytes read, or 0 with sd_err set.
pub record IsRead (lba num : ℕ) (v : View) (r : ℕ × List ℕ) (v' : View) : Type 0 where
  pub buffer : v'.words ≡ v.words ++ r.1
  pub result :
      ((r.0 ≡ num * 512 % 2 ^ 32)
        × (length r.1 ≡ num * 128)
        × (v'.error ≡ 0)
        × (v'.sent ≡ v.sent ++ read_commands (whole_of v) (counted_of v) lba num))
      ⊎ ((r.0 ≡ 0) × (v'.error ≢ 0))

-- The three parts of a call that reached its end.
ended-IsRead :
    (lba num : ℕ) (s s₁ s₂ s' : Sd) (r : ℕ) (ws : List ℕ) (ok : Bool)
    → 0 < num
    → length ws ≡ num * 128
    → r ≡ (if ok then num * 512 % 2 ^ 32 else 0)
    → ok ≡ (s'.err == 0)
    → Ran true
        (start_commands (whole_of (view s)) (counted_of (view s)) lba num)
        []
        (view s)
        (view s₁)
    → Ran true (loop_commands (whole_of (view s₁)) lba num 0) ws (view s₁) (view s₂)
    → Ran ok (stop_commands (whole_of (view s₂)) (counted_of (view s₂)) num) [] (view s₂) (view s')
    → IsRead lba num (view s) (r, ws) (view s')
ended-IsRead lba num s s₁ s₂ s' r ws ok h many number tested begun loop ending =
    let loop' = rw (ap (λ (k : ℕ). has k scr_supp_ccs) begun.kept) at loop in
    let kept = loop.kept ∙ begun.kept in
    let ending' =
      rw (ap (λ (k : ℕ). has k scr_supp_ccs) kept, ap (λ (k : ℕ). has k scr_supp_set_blkcnt) kept)
        at ending in
    let all = Ran-then begun (Ran-then loop' ending') in
    record {
      buffer = all.took ∙ ap (λ l. (view s).words ++ l) (append-nil ws);
      result = elim (Bool-cases ok) [
        | inl g ↦ inl (
          number ∙ (rw g),
          many,
          (==_iff _ _).0 (sym tested ∙ g),
          all.told g
              ∙ ap (λ l. (view s).sent ++ l)
                  (parts (whole_of (view s)) (counted_of (view s)) lba num h),
        )
        | inr b ↦ inr (number ∙ (rw b), ending.failed b)
      ];
    }

transfer-IsRead :
    (lba num : ℕ) (hw : Hardware) (s : Sd)
    → 0 < num
    → IsRead lba num (view s) (transfer lba num hw s).0 (view (transfer lba num hw s).1)
unfolding transfer ◌>>=◌ pure
transfer-IsRead lba num hw s h =
    let (started, s₁) = start_read lba num hw s in
    let (done, s₂) = read_blocks lba num 0 hw s₁ in
    let begun = start_read_lem lba num hw s in
    let loop = read_blocks_lem lba num 0 hw s₁ in
    let (ok, ending, number, tested) = stop_lem num hw s₂ in
    elim (Bool-cases started) [
      | inr e ↦ rw e (record { buffer = begun.took; result = inr (refl, begun.failed e) })
      | inl e ↦ elim (Bool-cases done.0) [
        | inr f ↦
            rw (e, f)
              (record {
                buffer = (Ran-then (Ran-ok e begun) loop).took;
                result = inr (refl, loop.failed f);
              })
        | inl t ↦
            rw (e, t)
              (ended-IsRead lba num s s₁ s₂ (stop num hw s₂).1 _ done.1 ok h
                (length-read_blocks lba num 0 hw s₁ t) number tested (Ran-ok e begun)
                (Ran-ok t loop) ending)
      ]
    ]

some_block : (num : ℕ) → 0 < num → ltb num 1 ≡ false
some_block num h = ground arith

-- With at least one block to read, sd_readblock writes to the buffer exactly the words that it
-- takes from the card. Either it returns the number of bytes (as a word), has written 128 words for
-- each block, leaves sd_err clear and has sent the card exactly the commands that read these
-- blocks; or it returns 0 with sd_err set. This holds for every controller.
pub sd_readblock-IsRead :
    (lba num : ℕ) (hw : Hardware) (s : Sd)
    → 0 < num
    → IsRead lba num (view s) (sd_readblock lba num hw s).0 (view (sd_readblock lba num hw s).1)
unfolding sd_readblock ◌>>=◌ set_err modify pure
sd_readblock-IsRead lba num hw s h =
    let (busy, s') = sd_status sr_dat_inhibit hw s in
    let quiet = (sd_status-IsQuiet sr_dat_inhibit).at hw s in
    let (r, s'') = transfer lba num hw s' in
    elim (Bool-cases (busy == 0)) [
      | inl e ↦ rw e (
          rw (some_block num h)
            (subst (λ v. IsRead lba num v r (view s'')) quiet (transfer-IsRead lba num hw s' h)))
      | inr e ↦ rw e (record {
        buffer = (Ran-quiet _ _ quiet).took;
        result = inr (refl, λ z. absurd (omega arith));
      })
    ]
