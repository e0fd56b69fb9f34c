-- ===== src/Delays/Returns.antt =====
-- The waits end, and not too early.
use avisor.Prelude.{
  ℕ, zero, suc, ◌+◌, ◌-◌, ◌*◌, ◌/◌, ◌%◌, ◌^◌, ◌≤◌, ◌<◌, ◌≡◌, ◌≢◌, ◌∙◌, some, ltb, refl, arith,
  Bool-cases, inl, inr, ==_of_ne,
}
use avisor.Timer.{get_system_timer}
use avisor.Timer.Laws.{get_system_timer_lem}
use avisor.Delays.{wait_until, wait_msec, wait_msec_st}

-- Up to reading `last`, each is higher than the one before.
abbrev pub Rises : (ℕ → ℕ) → (last : ℕ) → Type 0
Rises read last = (j : ℕ) → j < last → read j < read (j + 1)

-- `j` is the first of the readings from `i` to `last` that is not below `t`.
record IsFirst (read : ℕ → ℕ) (i last t j : ℕ) : Type 0 where
  after : i ≤ j
  before : j ≤ last
  reached : t ≤ read j
  waited : (k : ℕ) → i ≤ k → k < j → read k < t

here : (read : ℕ → ℕ) (i last t : ℕ) → i ≤ last → t ≤ read i → IsFirst read i last t i
here read i last t le h = record {
  after = omega arith;
  before = le;
  reached = h;
  waited = λ k a b. absurd (omega (arith, a, b));
}

step :
    (read : ℕ → ℕ) (i last t j : ℕ)
    → read i < t
    → IsFirst read (i + 1) last t j
    → IsFirst read i last t j
step read i last t j h first = record {
  after = let a = first.after in omega arith;
  before = first.before;
  reached = first.reached;
  waited = λ k a b. elim (Bool-cases (ltb i k)) [
    | inl above ↦ first.waited k (ground arith) b
    | inr not_above ↦ let same : k ≡ i = ground arith in rw same h
  ];
}

-- The loop ends at the first reading that is not below `t`, with a round for each count up to it.
wait_until-IsFirst :
    (rounds : ℕ) (read : ℕ → ℕ) (i last t : ℕ)
    → i + rounds ≤ last
    → Rises read last
    → t ≤ read i + rounds
    → (j : ℕ) × (wait_until (suc rounds) read i t ≡ some j) × IsFirst read i last t j
unfolding wait_until
wait_until-IsFirst zero read i last t le rises enough =
    (i, ground arith, here read i last t (omega arith) (omega arith))
wait_until-IsFirst (suc rounds) read i last t le rises enough = elim (Bool-cases (ltb (read i) t)) [
  | inl below ↦
      let low : read i < t = ground arith in
      let further = rises i (omega arith) in
      let (j, e, first) =
        wait_until-IsFirst rounds read (i + 1) last t (omega arith) rises (omega arith) in
      (j, rw below e, step read i last t j low first)
  | inr there ↦ (i, rw there refl, here read i last t (omega arith) (ground arith))
]

wait_msec-wait_until :
    (rounds khz : ℕ) (read : ℕ → ℕ) (n : ℕ)
    → khz * n < 2 ^ 64
    → read 0 + khz * n / 1000 < 2 ^ 64
    → wait_msec rounds (khz * 1000) read n ≡ wait_until rounds read 1 (read 0 + khz * n / 1000)
unfolding wait_msec
wait_msec-wait_until rounds khz read n fits room =
    let frequency : khz * 1000 / 1000 ≡ khz = omega arith in
    let target : (read 0 + khz * n % 2 ^ 64 / 1000) % 2 ^ 64 ≡ read 0 + khz * n / 1000 =
      omega arith in
    rw frequency (rw target refl)

-- On a counter of `khz` thousand counts a second that rises from reading to reading and does not
-- overflow, wait_msec ends, and not
-- before `n` microseconds less one count.
wait_msec_lem :
    (khz : ℕ) (read : ℕ → ℕ) (n : ℕ)
    → Rises read (1 + khz * n / 1000)
    → khz * n < 2 ^ 64
    → read 0 + khz * n / 1000 < 2 ^ 64
    → (j : ℕ) × (wait_msec (suc (khz * n / 1000)) (khz * 1000) read n ≡ some j)
      × (khz * n < (read j - read 0 + 1) * 1000)
wait_msec_lem khz read n rises fits room =
    let t = read 0 + khz * n / 1000 in
    let first_rise : read 0 < read 1 = rises 0 (omega arith) in
    let (j, e, first) =
      wait_until-IsFirst (khz * n / 1000) read 1 (1 + khz * n / 1000) t (omega arith) rises
        (omega arith) in
    let reached : t ≤ read j = first.reached in
    (j, wait_msec-wait_until _ khz read n fits room ∙ e, late (read j) (read 0) (khz * n) reached)
  where
    late : (r s m : ℕ) → s + m / 1000 ≤ r → m < (r - s + 1) * 1000
    late r s m h = omega arith

-- What get_system_timer's reads see: a counter that does not fall, whose high half changes at most
-- once, and that does not overflow.
pub record IsReading (count : ℕ → ℕ) : Type 0 where
  pub first : count 0 ≤ count 1
  pub second : count 1 ≤ count 2
  pub third : count 2 ≤ count 3
  pub fourth : count 3 ≤ count 4
  pub fits : count 4 < 2 ^ 64
  pub once : count 4 / 2 ^ 32 ≤ count 0 / 2 ^ 32 + 1

reading-bounds :
    (count : ℕ → ℕ)
    → IsReading count
    → (count 0 ≤ get_system_timer count) × (get_system_timer count ≤ count 4)
reading-bounds count h = get_system_timer_lem count h.first h.second h.third h.fourth h.fits h.once

-- Up to call `last` of get_system_timer: what the calls see, and that the counter rises between
-- them.
pub record AreReadings (count : ℕ → ℕ → ℕ) (last : ℕ) : Type 0 where
  pub each : (i : ℕ) → i ≤ last → IsReading (count i)
  pub rise : (i : ℕ) → i < last → count i 4 < count (i + 1) 0

readings-Rises :
    (count : ℕ → ℕ → ℕ) (last : ℕ)
    → AreReadings count last
    → Rises (λ i. get_system_timer (count i)) last
readings-Rises count last h i lt =
    let (_, high) = reading-bounds (count i) (h.each i (omega arith)) in
    let (low, _) = reading-bounds (count (i + 1)) (h.each (i + 1) (omega arith)) in
    let between = h.rise i lt in omega (arith, high, low, between)

-- On a counter that rises from call to call of get_system_timer, does not fall within a call, passes
-- at most one border of its low half in it, and stays `n` below its overflow at first,
-- wait_msec_st ends with the counter risen by `n`, if the first call returned other than 0.
pub wait_msec_st_lem :
    (count : ℕ → ℕ → ℕ) (n : ℕ)
    → AreReadings count (1 + n)
    → count 0 4 + n < 2 ^ 64
    → get_system_timer (count 0) ≢ 0
    → (j : ℕ) × (wait_msec_st (suc n) count n ≡ some j) × (count 0 0 + n ≤ count j 4)
unfolding wait_msec_st
wait_msec_st_lem count n h room runs =
    let t = get_system_timer (count 0) + n in
    let (low, high) = reading-bounds (count 0) (h.each 0 (omega arith)) in
    let target : t % 2 ^ 64 ≡ t = omega arith in
    let rising = readings-Rises count (1 + n) h in
    let further = rising 0 (omega arith) in
    let (j, e, first) =
      wait_until-IsFirst n (λ i. get_system_timer (count i)) 1 (1 + n) t (omega arith) rising
        (omega arith) in
    let (_, last) = reading-bounds (count j) (h.each j first.before) in
    let loops : wait_msec_st (suc n) count n
        ≡ wait_until (suc n) (λ i. get_system_timer (count i)) 1 t =
      rw (==_of_ne _ 0 runs) (rw target refl) in
    (j, loops ∙ e, between low first.reached last)
  where
    between : {a b c d : ℕ} → a ≤ b → b + n ≤ c → c ≤ d → a + n ≤ d
    between p q r = omega arith
