-- ===== src/Sd/Init/Scr.antt =====
-- When sd_init ends: its loop over the two words of the SCR waits for data, and counts no rounds.
use avisor.Prelude.{
  ℕ, zero, suc, ◌+◌, ◌-◌, ◌%◌, ◌^◌, ◌≤◌, ◌<◌, ◌≡◌, ◌∙◌, sym, refl, inl, inr, Bool, true, false,
  Option, none, some, List, [], ◌∷◌, ◌==◌, ltb, arith, Bool-cases, Option-cases, ltb→lt, lt→ltb,
}
use avisor.Sd.Registers.{emmc_status, sr_read_available}
use avisor.Sd.{
  Event, got, put, waited_msec, waited_cycles, Hardware, Sd, M, ◌>>=◌, ◌>>◌, pure, modify, get32,
  wait_msec_st, has,
}
use avisor.Sd.Init.{
  set_scr, read_scr, with_scr, or_go_on, finish_init, then_stage, set_ccs, set_width, setup_card,
  identify, poll_op_cond, accept, select_card, ask_scr, sd_init, setup_gpio, reset, start_clock,
}

abbrev pub shows_data : Hardware → List Event → Bool
shows_data hw h = has (hw h emmc_status % 2 ^ 32) sr_read_available

-- The calls of wait_msec_st so far.
abbrev pub waits : List Event → ℕ
waits [] = 0
waits (waited_msec n ∷ es) = waits es + 1
waits (waited_cycles n ∷ es) = waits es
waits (got addr v ∷ es) = waits es
waits (put addr v ∷ es) = waits es

read_scr_stuck :
    (hw : Hardware) (fuel r : ℕ) (s : Sd)
    → ((h : List Event) → shows_data hw h ≡ false)
    → r < 2
    → (read_scr fuel r hw s).0 ≡ none
unfolding read_scr ◌>>=◌ get32 wait_msec_st modify pure
read_scr_stuck hw zero r s never h = refl
read_scr_stuck hw (suc fuel) r s never h =
    rw (lt→ltb r 2 h, never s.history) (read_scr_stuck hw fuel r _ never h)

-- With a controller that never shows data, the end of sd_init is not reached, whatever the fuel.
pub finish_init-hangs :
    (hw : Hardware) (fuel ccs : ℕ) (s : Sd)
    → ((h : List Event) → shows_data hw h ≡ false)
    → (finish_init fuel ccs hw s).0 ≡ none
unfolding finish_init with_scr ◌>>=◌ pure
finish_init-hangs hw fuel ccs s never = rw (read_scr_stuck hw fuel 0 s never (omega arith))

waits-set_scr : (r v : ℕ) (s : Sd) → waits (set_scr r v s).history ≡ waits s.history
unfolding set_scr
waits-set_scr r v s = elim (Bool-cases (r == 0)) [ inl e ↦ rw e | inr e ↦ rw e ]

-- Data within `n` waits.
abbrev pub ShowsData : ℕ → Hardware → Type 0
ShowsData n hw = (h : List Event) → n ≤ waits h → shows_data hw h ≡ true

true-false : ◌≡◌ {A = Bool} true false → ⊥
true-false e = cc

not_yet :
    (n : ℕ) (hw : Hardware) (h : List Event)
    → ShowsData n hw
    → shows_data hw h ≡ false
    → waits h < n
not_yet n hw h shows e = elim (Bool-cases (ltb (waits h) n)) [
  | inl l ↦ ltb→lt _ _ l
  | inr l ↦ absurd (true-false (sym (shows h (ground arith)) ∙ e))
]

read_scr_ends :
    (n : ℕ) (hw : Hardware) (fuel r : ℕ) (s : Sd)
    → ShowsData n hw
    → n - waits s.history + (2 - r) < fuel
    → (read_scr fuel r hw s).0 ≡ some tt
unfolding read_scr ◌>>=◌ get32 wait_msec_st modify pure
read_scr_ends n hw zero r s shows h = absurd (omega arith)
read_scr_ends n hw (suc fuel) r s shows h = elim (Bool-cases (ltb r 2)) [
  | inr e ↦ rw e
  | inl e ↦ elim (Bool-cases (shows_data hw s.history)) [
    | inl d ↦
        rw (e, d)
          (read_scr_ends n hw fuel (r + 1) _ shows
            (omega (arith, waits-set_scr r _ _, ltb→lt r 2 e)))
    | inr d ↦
        rw (e, d)
          (read_scr_ends n hw fuel r _ shows (omega (arith, not_yet n hw s.history shows d)))
  ]
]

-- A part that returns whatever the state.
abbrev Returns : M (Option ℕ) → Hardware → Type 0
Returns m hw = (s : Sd) → (w : ℕ) × ((m hw s).0 ≡ some w)

then_stage-Returns :
    (m k : M (Option ℕ)) (hw : Hardware) → Returns k hw → Returns (then_stage m k) hw
unfolding then_stage or_go_on ◌>>=◌ pure
then_stage-Returns m k hw r s = elim (Option-cases (m hw s).0) [
  | inl e ↦ rw e (r (m hw s).1)
  | inr (w, e) ↦ (w, rw e)
]

finish_init-Returns :
    (n ccs : ℕ) (hw : Hardware) → ShowsData n hw → Returns (finish_init (n + 3) ccs) hw
unfolding finish_init with_scr set_ccs ◌>>=◌ pure modify
finish_init-Returns n ccs hw shows s =
    rw (read_scr_ends n hw (n + 3) 0 s shows (omega arith))
      (then_stage-Returns set_width (set_ccs ccs) hw (λ s'. (_, refl)) _)

setup_card-Returns : (n : ℕ) (hw : Hardware) → ShowsData n hw → Returns (setup_card (n + 3)) hw
unfolding setup_card ◌>>=◌
setup_card-Returns n hw shows = then_stage-Returns identify _ hw λ s.
    let ccs = (accept (poll_op_cond 0 6 hw s).0).1 in
    then_stage-Returns (pure (accept (poll_op_cond 0 6 hw s).0).0) _ hw
      (then_stage-Returns select_card _ hw
        (then_stage-Returns ask_scr _ hw (finish_init-Returns n ccs hw shows)))
      _

-- With a controller that shows data after `n` waits at most, sd_init returns, whatever else the
-- controller and the card answer; `n + 3` rounds of its last loop are enough.
pub sd_init-Returns :
    (n : ℕ) (hw : Hardware) (s : Sd)
    → ShowsData n hw
    → (w : ℕ) × ((sd_init (n + 3) hw s).0 ≡ some w)
unfolding sd_init ◌>>=◌ pure
sd_init-Returns n hw s shows =
    let (in_time, s₁) = (setup_gpio >> reset) hw s in
    let (r, s₂) = start_clock hw s₁ in
    elim (Bool-cases in_time) [
      | inr e ↦ rw e (_, refl)
      | inl e ↦ elim (Bool-cases (r == 0)) [
        | inr f ↦ rw (e, f) (_, refl)
        | inl f ↦ rw (e, f) (setup_card-Returns n hw shows s₂)
      ]
    ]
