-- ===== src/Sd/Trace.antt =====
-- What of the driver's history a card sees: the commands with their arguments, and the words of
-- data that were taken from it; and which parts of the driver leave these alone.
use avisor.Prelude.{
  ℕ, zero, suc, ◌%◌, ◌^◌, ◌≡◌, ◌≢◌, ◌∙◌, ap, refl, Bool, true, false, not, ◌&&◌, List, [], ◌∷◌,
  ◌++◌, ◌==◌, if◌then◌else◌, arith, Bool-cases, inl, inr,
}
use avisor.Sd.Registers.{emmc_arg1, emmc_cmdtm, emmc_data}
use avisor.Sd.{
  Event, got, put, waited_msec, waited_cycles, Hardware, Sd, M, ◌>>=◌, pure, gets, get32, put32,
  wait_msec_st, spin, is_inhibited, is_pending, sd_status, sd_int,
}

-- The last word written to EMMC_ARG1.
abbrev pub last_arg : List Event → ℕ
last_arg [] = 0
last_arg (put addr v ∷ es) = if addr == emmc_arg1 then v else last_arg es
last_arg (got addr v ∷ es) = last_arg es
last_arg (waited_msec n ∷ es) = last_arg es
last_arg (waited_cycles n ∷ es) = last_arg es

abbrev pub commands : List Event → List (ℕ × ℕ)
commands [] = []
commands (put addr v ∷ es) =
    if addr == emmc_cmdtm then commands es ++ (v, last_arg es) ∷ [] else commands es
commands (got addr v ∷ es) = commands es
commands (waited_msec n ∷ es) = commands es
commands (waited_cycles n ∷ es) = commands es

abbrev pub words_read : List Event → List ℕ
words_read [] = []
words_read (got addr v ∷ es) = if addr == emmc_data then words_read es ++ v ∷ [] else words_read es
words_read (put addr v ∷ es) = words_read es
words_read (waited_msec n ∷ es) = words_read es
words_read (waited_cycles n ∷ es) = words_read es

pub record View : Type 0 where
  pub sent : List (ℕ × ℕ)
  pub words : List ℕ
  pub scr : ℕ
  pub error : ℕ

abbrev pub view : Sd → View
view s = record {
  sent = commands s.history;
  words = words_read s.history;
  scr = s.scr0;
  error = s.err;
}

-- `m` changes nothing of it.
pub record IsQuiet {A : Type 0} (m : M A) : Type 0 where
  pub at : (hw : Hardware) (s : Sd) → view (m hw s).1 ≡ view s

module _ {A : Type 0} where
  pub IsQuiet-pure : (a : A) → IsQuiet (pure a)
  unfolding pure
  IsQuiet-pure a = record { at = λ hw s. refl }

  pub IsQuiet-gets : (f : Sd → A) → IsQuiet (gets f)
  unfolding gets
  IsQuiet-gets f = record { at = λ hw s. refl }

  pub IsQuiet-if : (b : Bool) (m n : M A) → IsQuiet m → IsQuiet n → IsQuiet (if b then m else n)
  IsQuiet-if true m n qm qn = qm
  IsQuiet-if false m n qm qn = qn

pub IsQuiet-bind :
    {A B : Type 0} (m : M A) (f : A → M B)
    → IsQuiet m
    → ((a : A) → IsQuiet (f a))
    → IsQuiet (m >>= f)
unfolding ◌>>=◌
IsQuiet-bind m f qm qf = record {
  at = λ hw s. let (a, s') = m hw s in (qf a).at hw s' ∙ qm.at hw s;
}

-- A register that neither takes commands nor gives data.
abbrev pub is_control : ℕ → Bool
is_control addr = not (addr == emmc_data) && not (addr == emmc_cmdtm) && not (addr == emmc_arg1)

pub IsQuiet-get32 : (addr : ℕ) → is_control addr ≡ true → IsQuiet (get32 addr)
unfolding get32
IsQuiet-get32 addr h = record { at = λ hw s. ground arith }

pub IsQuiet-put32 : (addr v : ℕ) → is_control addr ≡ true → IsQuiet (put32 addr v)
unfolding put32
IsQuiet-put32 addr v h = record { at = λ hw s. ground arith }

pub IsQuiet-wait_msec_st : (n : ℕ) → IsQuiet (wait_msec_st n)
unfolding wait_msec_st
IsQuiet-wait_msec_st n = record { at = λ hw s. refl }

pub ruleset quiet_rules = (
  IsQuiet-pure, IsQuiet-gets, IsQuiet-if, IsQuiet-bind, IsQuiet-get32, IsQuiet-put32,
  IsQuiet-wait_msec_st, refl,
)

spin-IsQuiet :
    (test : M Bool) (body : M (Unit {0})) (cnt : ℕ)
    → IsQuiet test
    → IsQuiet body
    → IsQuiet (spin test body cnt)
unfolding spin
spin-IsQuiet test body zero t b = search quiet_rules
spin-IsQuiet test body (suc cnt) t b =
    let rest = IsQuiet-bind body _ b (λ _. spin-IsQuiet test body cnt t b) in search quiet_rules

is_inhibited-IsQuiet : (mask : ℕ) → IsQuiet (is_inhibited mask)
unfolding is_inhibited
is_inhibited-IsQuiet mask = search quiet_rules

is_pending-IsQuiet : (m : ℕ) → IsQuiet (is_pending m)
unfolding is_pending
is_pending-IsQuiet m = search quiet_rules

pub sd_status-IsQuiet : (mask : ℕ) → IsQuiet (sd_status mask)
unfolding sd_status
sd_status-IsQuiet mask = search (quiet_rules, spin-IsQuiet, is_inhibited-IsQuiet)

pub sd_int-IsQuiet : (mask : ℕ) → IsQuiet (sd_int mask)
unfolding sd_int
sd_int-IsQuiet mask = search (quiet_rules, spin-IsQuiet, is_pending-IsQuiet) depth 12
