-- ===== src/Shell/Line.antt =====
-- The two lines of the shell while a line is typed.
use mathlib.Core.Path.{subst}
use avisor.Prelude.{
  ℕ, ◌+◌, ◌-◌, ◌≤◌, ◌<◌, ◌≡◌, ◌≢◌, inl, inr, refl, sym, ap, ◌∙◌, Bool, true, false, ◌&&◌, ◌||◌,
  Option, none, some, List, [], ◌∷◌, ◌==◌, if◌then◌else◌, ltb, leb, get_or, set, length, arith,
  length-set, get_or-set_self, get_or-set_ne, ==_iff, Bool-cases, ltb→lt,
}
use avisor.Shell.{
  Shell, Typed, active_line, with_line, erase, end_line, add_char, shell_handle_special_char,
  shell_input_line,
}

-- A line is a string in a buffer of its size.
abbrev pub IsLine : List ℕ → Type 0
IsLine l = (length l ≡ 101) × (get_or l 100 0 ≡ 0)

pub record IsSound (sh : Shell) : Type 0 where
  pub lines : length sh.input_line ≡ 2
  pub active_in : sh.input_line_active < 2
  pub buffers : (i : ℕ) → i < 2 → IsLine (get_or sh.input_line i [])

-- The active line holds the printable characters that have been typed, and zeros behind them.
pub record IsValid (sh : Shell) : Type 0 where
  pub sound : IsSound sh
  pub len_in : sh.input_line_len ≤ 100
  pub typed :
      (i : ℕ)
      → i < sh.input_line_len
      → (32 ≤ get_or (active_line sh) i 0) × (get_or (active_line sh) i 0 ≤ 126)
  pub behind : (i : ℕ) → sh.input_line_len ≤ i → get_or (active_line sh) i 0 ≡ 0

-- What a shell is after an input: as before, or with a line that is done.
abbrev pub Ready : Bool → Shell → Type 0
Ready true sh = IsSound sh × (sh.input_line_len ≡ 0)
Ready false sh = IsValid sh

abbrev pub After : Option Typed → Type 0
After none = Unit
After (some t) = Ready t.done t.shell

pub record Kept (o : Option Typed) : Type 0 where
  pub after : After o

pub with_line-active : (sh : Shell) (l : List ℕ) → IsSound sh → active_line (with_line sh l) ≡ l
with_line-active sh l v =
    get_or-set_self sh.input_line sh.input_line_active l [] (omega (arith, v.lines, v.active_in))

clash : (b : Bool) → b ≡ true → ¬ (b ≡ false)
clash b e h = grind arith

pub with_line-IsSound : (sh : Shell) (l : List ℕ) → IsSound sh → IsLine l → IsSound (with_line sh l)
with_line-IsSound sh l v h = record {
  lines = length-set sh.input_line sh.input_line_active l ∙ v.lines;
  active_in = v.active_in;
  buffers = λ i lt. elim (Bool-cases (i == sh.input_line_active)) [
    | inl e ↦
        subst IsLine
          (sym (
            ap (λ k. get_or (set sh.input_line sh.input_line_active l) k []) ((==_iff i _).0 e)
            ∙ with_line-active sh l v))
          h
    | inr e ↦
        subst IsLine
          (sym (
            get_or-set_ne sh.input_line sh.input_line_active i l []
              (λ same. absurd (clash _ ((==_iff i _).1 (sym same)) e))))
          (v.buffers i lt)
  ];
}

with_len : (sh : Shell) (n : ℕ) → IsSound sh → IsSound (record sh { input_line_len = n })
with_len sh n v = record { lines = v.lines; active_in = v.active_in; buffers = v.buffers }

-- A line with `n` typed characters.
abbrev IsTyped : ℕ → List ℕ → Type 0
IsTyped n l =
    ((i : ℕ) → i < n → (32 ≤ get_or l i 0) × (get_or l i 0 ≤ 126))
    × ((i : ℕ) → n ≤ i → get_or l i 0 ≡ 0)

pub new_line :
    (sh : Shell) (n : ℕ) (l : List ℕ)
    → IsSound sh
    → length l ≡ 101
    → n ≤ 100
    → IsTyped n l
    → IsValid (with_line (record sh { input_line_len = n }) l)
new_line sh n l v size n_in (typed, behind) =
    let same = with_line-active (record sh { input_line_len = n }) l (with_len sh n v) in
    record {
      sound =
          with_line-IsSound (record sh { input_line_len = n }) l (with_len sh n v)
            (size, behind 100 n_in);
      len_in = n_in;
      typed =
          subst (λ k. (i : ℕ) → i < n → (32 ≤ get_or k i 0) × (get_or k i 0 ≤ 126)) (sym same)
            typed;
      behind = subst (λ k. (i : ℕ) → n ≤ i → get_or k i 0 ≡ 0) (sym same) behind;
    }

erased : (l : List ℕ) (n : ℕ) → n < length l → IsTyped (n + 1) l → IsTyped n (set l n 0)
erased l n lt (typed, behind) = (
  λ i h.
      subst (λ c. (32 ≤ c) × (c ≤ 126)) (sym (get_or-set_ne l n i 0 0 (λ e. omega (arith, e))))
        (typed i (omega arith)),
  λ i h. elim (Bool-cases (i == n)) [
    | inl e ↦ ap (λ k. get_or (set l n 0) k 0) ((==_iff i n).0 e) ∙ get_or-set_self l n 0 0 lt
    | inr e ↦
        let ne : n ≢ i = λ same. absurd (clash _ ((==_iff i n).1 (sym same)) e) in
        get_or-set_ne l n i 0 0 ne ∙ behind i (omega (arith, ne))
  ],
)

added :
    (l : List ℕ) (n ch : ℕ)
    → n < length l
    → 32 ≤ ch
    → ch ≤ 126
    → IsTyped n l
    → IsTyped (n + 1) (set l n ch)
added l n ch lt low high (typed, behind) = (
  λ i h. elim (Bool-cases (i == n)) [
    | inl e ↦
        subst (λ c. (32 ≤ c) × (c ≤ 126))
          (sym (ap (λ k. get_or (set l n ch) k 0) ((==_iff i n).0 e) ∙ get_or-set_self l n ch 0 lt))
          (low, high)
    | inr e ↦
        let ne : n ≢ i = λ same. absurd (clash _ ((==_iff i n).1 (sym same)) e) in
        subst (λ c. (32 ≤ c) × (c ≤ 126)) (sym (get_or-set_ne l n i ch 0 ne))
          (typed i (omega (arith, ne)))
  ],
  λ i h. get_or-set_ne l n i ch 0 (λ e. omega (arith, e)) ∙ behind i (omega arith),
)

-- Both branches of a test.
either :
    (b : Bool) {t e : Option Typed}
    → (b ≡ true → Kept t)
    → (b ≡ false → Kept e)
    → Kept (if b then t else e)
either true p q = p refl
either false p q = q refl

active-IsTyped : (sh : Shell) → IsValid sh → IsTyped sh.input_line_len (active_line sh)
active-IsTyped sh v = (v.typed, v.behind)

end_line-Kept : (sh : Shell) (rest : List ℕ) → IsValid sh → Kept (end_line sh rest)
unfolding end_line
end_line-Kept sh rest v = record { after = (with_len sh 0 v.sound, refl) }

erase-Kept : (sh : Shell) (rest : List ℕ) → IsValid sh → Kept (erase sh rest)
unfolding erase
erase-Kept sh rest v =
    let n = sh.input_line_len in
    let size = (v.sound.buffers sh.input_line_active v.sound.active_in).0 in
    either (ltb 0 n)
      (λ some_char.
        let pos = ltb→lt 0 n some_char in
        let one : n ≡ n - 1 + 1 = omega arith in
        record {
          after =
              new_line sh (n - 1) (set (active_line sh) (n - 1) 0) v.sound
                (length-set (active_line sh) (n - 1) 0 ∙ size) (omega (arith, v.len_in))
                (erased (active_line sh) (n - 1) (omega (arith, size, v.len_in))
                  (subst (λ k. IsTyped k (active_line sh)) one (active-IsTyped sh v)));
        })
      (λ no_char. record { after = v })

special :
    (sh : Shell) (o : Option (List ℕ))
    → IsValid sh
    → Kept (elim o [
      | none ↦ none
      | some rest' ↦ some (record { done = false; shell = sh; rest = rest'; out = [] })
    ])
special sh none v = record { after = tt }
special sh (some r) v = record { after = v }

add_char-Kept : (sh : Shell) (ch : ℕ) (rest : List ℕ) → IsValid sh → Kept (add_char sh ch rest)
unfolding add_char
add_char-Kept sh ch rest v =
    let n = sh.input_line_len in
    let size = (v.sound.buffers sh.input_line_active v.sound.active_in).0 in
    either (ltb n 100)
      (λ room.
        either (leb 32 ch && leb ch 126)
          (λ plain.
            let (low, high) = printable ch plain in
            let lt = ltb→lt n 100 room in
            record {
              after =
                  new_line sh (n + 1) (set (active_line sh) n ch) v.sound
                    (length-set (active_line sh) n ch ∙ size) (omega arith)
                    (added (active_line sh) n ch (omega (arith, size)) low high
                      (active-IsTyped sh v));
            })
          (λ odd. special sh (shell_handle_special_char ch rest) v))
      (λ full. end_line-Kept sh rest v)
  where
    printable : (c : ℕ) → (leb 32 c && leb c 126) ≡ true → (32 ≤ c) × (c ≤ 126)
    printable c h = ground arith

-- Whatever is typed, the shell stays well formed: what is typed is stored within the line, as
-- printable characters with zeros behind them, until the line is done.
pub shell_input_line-Kept :
    (sh : Shell) (chars : List ℕ) → IsValid sh → Kept (shell_input_line sh chars)
unfolding shell_input_line
shell_input_line-Kept sh [] v = record { after = tt }
shell_input_line-Kept sh (ch ∷ rest) v =
    either ((ch == 8) || (ch == 127)) (λ e. erase-Kept sh rest v)
      (λ e.
        either (ch == 13) (λ f. end_line-Kept sh rest v)
          (λ f. either (ch == 10) (λ g. record { after = v }) (λ g. add_char-Kept sh ch rest v)))
