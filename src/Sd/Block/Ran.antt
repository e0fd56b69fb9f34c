-- ===== src/Sd/Block/Ran.antt =====
-- The contract of a part of sd_readblock, and how two parts make up one.
use avisor.Prelude.{ℕ, ◌≡◌, ◌≢◌, ◌∙◌, sym, ap, refl, Bool, true, false, List, [], ◌++◌}
use mathlib.Core.List.{append_assoc, append-nil}
use avisor.Sd.Trace.{View}

-- A part of the transfer that took these words; if it went well it sent these commands, and if not
-- it set sd_err.
pub record Ran (ok : Bool) (cs : List (ℕ × ℕ)) (ws : List ℕ) (v v' : View) : Type 0 where
  pub took : v'.words ≡ v.words ++ ws
  pub kept : v'.scr ≡ v.scr
  pub told : ok ≡ true → v'.sent ≡ v.sent ++ cs
  pub failed : ok ≡ false → v'.error ≢ 0

pub Ran-quiet : (v v' : View) → v' ≡ v → Ran true [] [] v v'
Ran-quiet v v' q = record {
  took = ap (λ (u : View). u.words) q ∙ sym (append-nil v.words);
  kept = ap (λ (u : View). u.scr) q;
  told = λ _. ap (λ (u : View). u.sent) q ∙ sym (append-nil v.sent);
  failed = λ e. cc;
}

pub Ran-then :
    {v v' v'' : View} {ok : Bool} {cs cs' : List (ℕ × ℕ)} {ws ws' : List ℕ}
    → Ran true cs ws v v'
    → Ran ok cs' ws' v' v''
    → Ran ok (cs ++ cs') (ws ++ ws') v v''
Ran-then r r' = record {
  took = r'.took ∙ simp (r.took, append_assoc);
  kept = r'.kept ∙ r.kept;
  told = λ e. r'.told e ∙ simp (r.told refl, append_assoc);
  failed = r'.failed;
}

pub Ran-ok :
    {ok : Bool} {v v' : View} {cs : List (ℕ × ℕ)} {ws : List ℕ}
    → ok ≡ true
    → Ran ok cs ws v v'
    → Ran true cs ws v v'
Ran-ok e r = record { took = r.took; kept = r.kept; told = λ _. r.told e; failed = λ f. cc }

-- After a failure the commands do not matter.
pub Ran-failed :
    {ok : Bool} {v v' : View} {cs cs' : List (ℕ × ℕ)} {ws : List ℕ}
    → ok ≡ false
    → Ran ok cs ws v v'
    → Ran false cs' ws v v'
Ran-failed e r = record { took = r.took; kept = r.kept; told = λ t. cc; failed = λ _. r.failed e }
