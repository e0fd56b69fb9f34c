-- ===== src/Sd/Block/Transfer.antt =====
-- What a call of sd_readblock has sent to the card and taken from it.
use avisor.Prelude.{
  ℕ, zero, suc, ◌+◌, ◌*◌, ◌%◌, ◌^◌, ◌≡◌, ◌≢◌, ◌∙◌, sym, inl, inr, ap, refl, Bool, true, false, not,
  ◌&&◌, List, [], ◌∷◌, ◌++◌, ◌==◌, if◌then◌else◌, arith, Bool-cases, ==_iff, ltb, length,
}
use mathlib.Core.List.{append-nil}
use avisor.Sd.Registers.{
  cmd_need_app, cmd_send_rel_addr, cmd_stop_trans, cmd_read_single, cmd_read_multi,
  cmd_set_blockcnt, emmc_data, scr_supp_ccs, scr_supp_set_blkcnt,
}
use avisor.Sd.{Hardware, Sd, ◌>>=◌, pure, gets, get32, put32, modify, has}
use avisor.Sd.Trace.{View, view}
use avisor.Sd.Command.{sd_cmd_lem}
use avisor.Sd.Block.Ran.{Ran, Ran-quiet, Ran-then, Ran-ok, Ran-failed}
use avisor.Sd.Block.{checked, announce, start_whole, start_read, read_words, ask, stop}

pub ne_of_test : (n : ℕ) → (n == 0) ≡ false → n ≢ 0
ne_of_test n h = ground arith

checked_lem :
    (code arg : ℕ) (hw : Hardware) (s : Sd)
    → has code cmd_need_app ≡ false
    → (code == cmd_send_rel_addr) ≡ false
    → Ran (checked code arg hw s).0 ((code, arg) ∷ []) [] (view s) (view (checked code arg hw s).1)
unfolding checked ◌>>=◌ gets
checked_lem code arg hw s plain h = elim (sd_cmd_lem code arg hw s plain h) [
  | inl e ↦ record {
    took = ap (λ (u : View). u.words) e ∙ sym (append-nil _);
    kept = ap (λ (u : View). u.scr) e;
    told = λ _. ap (λ (u : View). u.sent) e;
    failed = ne_of_test _;
  }
  | inr f ↦ record {
    took = f.same_words ∙ sym (append-nil _);
    kept = f.same_scr;
    told = λ b. absurd (f.failed ((==_iff _ _).0 b));
    failed = λ _. f.failed;
  }
]

abbrev pub whole_of : View → Bool
whole_of v = has v.scr scr_supp_ccs

abbrev pub counted_of : View → Bool
counted_of v = has v.scr scr_supp_set_blkcnt

-- The commands of each part.
unfoldable pub announce_commands : (num : ℕ) (counted : Bool) → List (ℕ × ℕ)
announce_commands num counted = if ltb 1 num && counted then (cmd_set_blockcnt, num) ∷ [] else []

unfoldable pub read_code : (num : ℕ) → ℕ
read_code num = if num == 1 then cmd_read_single else cmd_read_multi

announce_lem :
    (num : ℕ) (counted : Bool) (hw : Hardware) (s : Sd)
    → Ran
        (announce num counted hw s).0
        (announce_commands num counted)
        []
        (view s)
        (view (announce num counted hw s).1)
unfolding announce announce_commands pure
announce_lem num counted hw s = elim (Bool-cases (ltb 1 num && counted)) [
  | inl e ↦ rw e (checked_lem cmd_set_blockcnt num hw s refl refl)
  | inr e ↦ rw e (Ran-quiet _ _ refl)
]

read_checked_lem :
    (lba num : ℕ) (hw : Hardware) (s : Sd)
    → Ran
        (checked (read_code num) lba hw s).0
        ((read_code num, lba) ∷ [])
        []
        (view s)
        (view (checked (read_code num) lba hw s).1)
unfolding read_code
read_checked_lem lba num hw s = elim (Bool-cases (num == 1)) [
  | inl e ↦ rw e (checked_lem cmd_read_single lba hw s refl refl)
  | inr e ↦ rw e (checked_lem cmd_read_multi lba hw s refl refl)
]

start_whole_lem :
    (lba num : ℕ) (hw : Hardware) (s : Sd)
    → Ran
        (start_whole lba num hw s).0
        (announce_commands num (counted_of (view s)) ++ (read_code num, lba) ∷ [])
        []
        (view s)
        (view (start_whole lba num hw s).1)
unfolding start_whole ◌>>=◌ gets put32 modify pure read_code
start_whole_lem lba num hw s =
    let counted = counted_of (view s) in
    let (ok, s') = announce num counted hw s in
    let first = announce_lem num counted hw s in
    elim (Bool-cases ok) [
      | inl e ↦ rw e (Ran-then (Ran-ok e first) (read_checked_lem lba num hw _))
      | inr e ↦ rw e (Ran-failed e first)
    ]

-- The end of the transfer, which tests sd_err also where it sends nothing.
unfoldable pub stop_commands : (whole counted : Bool) (num : ℕ) → List (ℕ × ℕ)
stop_commands whole counted num =
    if ltb 1 num && not counted && whole then (cmd_stop_trans, 0) ∷ [] else []

pub stop_lem :
    (num : ℕ) (hw : Hardware) (s : Sd)
    → (ok : Bool) × Ran ok
        (stop_commands (whole_of (view s)) (counted_of (view s)) num)
        []
        (view s)
        (view (stop num hw s).1)
      × ((stop num hw s).0 ≡ (if ok then num * 512 % 2 ^ 32 else 0))
      × (ok ≡ ((stop num hw s).1.err == 0))
unfolding stop stop_commands checked ◌>>=◌ gets pure
stop_lem num hw s =
    elim (Bool-cases (ltb 1 num && not (counted_of (view s)) && whole_of (view s))) [
      | inl e ↦ rw e (_, checked_lem cmd_stop_trans 0 hw s refl refl, refl, refl)
      | inr e ↦ rw e (s.err == 0, tested, refl, refl)
    ]
  where
    tested : Ran (s.err == 0) [] [] (view s) (view s)
    tested = record {
      took = sym (append-nil _);
      kept = refl;
      told = λ _. sym (append-nil _);
      failed = ne_of_test _;
    }

unfoldable pub start_commands : (whole counted : Bool) (lba num : ℕ) → List (ℕ × ℕ)
start_commands whole counted lba num =
    if whole then announce_commands num counted ++ (read_code num, lba) ∷ [] else []

pub start_read_lem :
    (lba num : ℕ) (hw : Hardware) (s : Sd)
    → Ran
        (start_read lba num hw s).0
        (start_commands (whole_of (view s)) (counted_of (view s)) lba num)
        []
        (view s)
        (view (start_read lba num hw s).1)
unfolding start_read start_commands ◌>>=◌ gets put32 modify pure
start_read_lem lba num hw s = elim (Bool-cases (has s.scr0 scr_supp_ccs)) [
  | inl e ↦ rw e (start_whole_lem lba num hw s)
  | inr e ↦ rw e (Ran-quiet _ _ refl)
]

pub read_words_lem :
    (n : ℕ) (hw : Hardware) (s : Sd)
    → Ran true [] (read_words n hw s).0 (view s) (view (read_words n hw s).1)
unfolding read_words ◌>>=◌ get32 pure
read_words_lem zero hw s = Ran-quiet _ _ refl
read_words_lem (suc n) hw s =
    let first : Ran true [] (hw s.history emmc_data % 2 ^ 32 ∷ []) (view s)
        (view (get32 emmc_data hw s).1) =
      record { took = refl; kept = refl; told = λ _. sym (append-nil _); failed = λ e. cc } in
    Ran-then first (read_words_lem n hw (get32 emmc_data hw s).1)

pub length-read_words : (n : ℕ) (hw : Hardware) (s : Sd) → length (read_words n hw s).0 ≡ n
unfolding read_words ◌>>=◌ get32 pure
length-read_words zero hw s = refl
length-read_words (suc n) hw s = ap suc (length-read_words n hw _)

-- The command of one block, where the card addresses bytes.
pub single : (lba c : ℕ) → ℕ × ℕ
single lba c = (cmd_read_single, (lba + c) % 2 ^ 32 * 512 % 2 ^ 32)

unfoldable pub ask_commands : (whole : Bool) (lba c : ℕ) → List (ℕ × ℕ)
ask_commands whole lba c = if whole then [] else single lba c ∷ []

pub ask_lem :
    (lba c : ℕ) (hw : Hardware) (s : Sd)
    → Ran
        (ask lba c hw s).0
        (ask_commands (whole_of (view s)) lba c)
        []
        (view s)
        (view (ask lba c hw s).1)
unfolding ask ask_commands single ◌>>=◌ gets pure
ask_lem lba c hw s = elim (Bool-cases (has s.scr0 scr_supp_ccs)) [
  | inl e ↦ rw e (Ran-quiet _ _ refl)
  | inr e ↦ rw e (checked_lem cmd_read_single _ hw s refl refl)
]
