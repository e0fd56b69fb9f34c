-- ===== src/Sd/Command.antt =====
-- What sd_cmd leaves of a command: the card was sent it, or sd_err is set.
use avisor.Prelude.{
  ℕ, ◌≡◌, ◌≢◌, ◌∙◌, ◌⊎◌, inl, inr, ap, refl, false, [], ◌∷◌, ◌++◌, ◌==◌, arith, Bool-cases,
}
use avisor.Sd.Registers.{emmc_resp0, cmd_need_app, cmd_send_rel_addr, sr_cmd_inhibit, int_cmd_done}
use avisor.Sd.{
  Hardware, Sd, ◌>>=◌, pure, get32, put32, modify, set_err, to_long, has, sd_status, sd_int,
  read_response, pause, issue, conclude, send, sd_cmd,
}
use avisor.Sd.Trace.{
  View, view, IsQuiet, IsQuiet-bind, IsQuiet-get32, quiet_rules, sd_status-IsQuiet, sd_int-IsQuiet,
}

-- sd_err is set, and no data was taken.
pub record IsFailure (v v' : View) : Type 0 where
  pub failed : v'.error ≢ 0
  pub same_words : v'.words ≡ v.words
  pub same_scr : v'.scr ≡ v.scr

abbrev pub with_command : View → (code arg : ℕ) → View
with_command v code arg = record v { sent = v.sent ++ (code, arg) ∷ [] }

read_response-IsQuiet :
    (code arg r : ℕ) → (code == cmd_send_rel_addr) ≡ false → IsQuiet (read_response code arg r)
unfolding read_response
read_response-IsQuiet code arg r h = rw h (search quiet_rules depth 12)

pause-IsQuiet : (code : ℕ) → IsQuiet (pause code)
unfolding pause
pause-IsQuiet code = search quiet_rules

issue_lem :
    (code arg : ℕ) (hw : Hardware) (s : Sd)
    → view (issue code arg hw s).1 ≡ with_command (view s) code arg
unfolding issue ◌>>=◌ get32 put32 modify
issue_lem code arg hw s = (pause-IsQuiet code).at hw _

pub to_long-ne : (r : ℕ) → (r == 0) ≡ false → to_long r ≢ 0
to_long-ne r h = ground arith

-- A quiet step that then sets sd_err.
quiet-IsFailure : (v v' : View) (e : ℕ) → v' ≡ v → e ≢ 0 → IsFailure v (record v' { error = e })
quiet-IsFailure v v' e q ne = record {
  failed = ne;
  same_words = ap (λ (u : View). u.words) q;
  same_scr = ap (λ (u : View). u.scr) q;
}

conclude_lem :
    (code arg : ℕ) (hw : Hardware) (s : Sd)
    → (code == cmd_send_rel_addr) ≡ false
    → (view (conclude code arg hw s).1 ≡ view s)
      ⊎ IsFailure (view s) (view (conclude code arg hw s).1)
unfolding conclude ◌>>=◌ set_err modify pure
conclude_lem code arg hw s h =
    let (r, s') = sd_int int_cmd_done hw s in
    let quiet = (sd_int-IsQuiet int_cmd_done).at hw s in
    let taken = (λ (resp : ℕ). read_response-IsQuiet code arg resp h) in
    elim (Bool-cases (r == 0)) [
      | inl done ↦
          rw done (inl ((IsQuiet-bind _ _ (IsQuiet-get32 emmc_resp0 refl) taken).at hw s' ∙ quiet))
      | inr bad ↦ rw bad (inr (quiet-IsFailure _ (view s') _ quiet (to_long-ne r bad)))
    ]

-- A command other than CMD_SEND_REL_ADDR is sent, or fails.
abbrev pub Sends : (code arg : ℕ) → View → View → Type 0
Sends code arg v v' = (v' ≡ with_command v code arg) ⊎ IsFailure v v'

with_command-IsFailure :
    (v v' : View) (code arg : ℕ) → IsFailure (with_command v code arg) v' → IsFailure v v'
with_command-IsFailure v v' code arg f = record {
  failed = f.failed;
  same_words = f.same_words;
  same_scr = f.same_scr;
}

send_lem :
    (code arg : ℕ) (hw : Hardware) (s : Sd)
    → (code == cmd_send_rel_addr) ≡ false
    → Sends code arg (view s) (view (send code arg hw s).1)
unfolding send ◌>>=◌ set_err modify pure
send_lem code arg hw s h =
    let (busy, s₁) = sd_status sr_cmd_inhibit hw s in
    let quiet = (sd_status-IsQuiet sr_cmd_inhibit).at hw s in
    let (_, s₂) = issue code arg hw s₁ in
    let issued = issue_lem code arg hw s₁ ∙ ap (λ (v : View). with_command v code arg) quiet in
    elim (Bool-cases (busy == 0)) [
      | inl free ↦ rw free (elim (conclude_lem code arg hw s₂ h) [
        | inl done ↦ inl (done ∙ issued)
        | inr fails ↦ inr (with_command-IsFailure _ _ code arg (rw (← issued) fails))
      ])
      | inr bad ↦ rw bad (inr (quiet-IsFailure _ (view s₁) _ quiet (λ e. absurd (omega arith))))
    ]

-- sd_cmd sends a command that is no application command, or sets sd_err.
pub sd_cmd_lem :
    (code arg : ℕ) (hw : Hardware) (s : Sd)
    → has code cmd_need_app ≡ false
    → (code == cmd_send_rel_addr) ≡ false
    → Sends code arg (record (view s) { error = 0 }) (view (sd_cmd code arg hw s).1)
unfolding sd_cmd ◌>>=◌ set_err modify
sd_cmd_lem code arg hw s plain h = rw plain (send_lem code arg hw (record s { err = 0 }) h)
