-- ===== src/Utils/Mem/Strings.antt =====
-- common/utils.c: strcpy and strncat, the functions on strings that write to memory.
use avisor.Prelude.{
  ℕ, zero, suc, ◌+◌, ◌<◌, ◌≤◌, ◌≡◌, ◌≢◌, ◌∙◌, sym, ap, ◌⊎◌, inl, inr, some, arith, ==_of_ne, ==_iff,
}
use avisor.Utils.Mem.{Memory, put_byte, strcpy, append_bytes}
use avisor.Utils.Mem.Laws.{moved}

-- At `src` stands a string of `n` characters.
pub record IsStringAt (mem : Memory) (src n : ℕ) : Type 0 where
  pub characters : (i : ℕ) → i < n → mem (src + i) ≢ 0
  pub end : mem (src + n) ≡ 0

-- No byte from `src` on is one of the `n` bytes from `dest` on.
abbrev pub AreApart : (dest src n : ℕ) → Type 0
AreApart dest src n = (src + n ≤ dest) ⊎ (dest + n ≤ src)

put-other : (mem : Memory) (a v b : ℕ) → b ≢ a → put_byte mem a v b ≡ mem b
put-other mem a v b h = rw (==_of_ne b a h)

apart-ne : (dest src n i : ℕ) → AreApart dest src n → i < n → src + i ≢ dest
apart-ne dest src n i (inl h) lt e = omega arith
apart-ne dest src n i (inr h) lt e = omega arith

-- The first byte, and the rest.
moved-suc :
    (mem : Memory) (dest src n a : ℕ)
    → AreApart dest src (suc n)
    → moved (put_byte mem dest (mem src)) (dest + 1) (src + 1) n a ≡ moved mem dest src (suc n) a
moved-suc mem dest src n a (inl h) = ground arith
moved-suc mem dest src n a (inr h) = ground arith

moved-none : (mem : Memory) (dest src a : ℕ) → mem a ≡ moved mem dest src 0 a
moved-none mem dest src a = ground arith

put_self : (mem : Memory) (dest src : ℕ) → put_byte mem dest (mem src) src ≡ mem src
put_self mem dest src = ground arith

-- What is left of a string after its first character, when that is copied.
rest-IsStringAt :
    (mem : Memory) (dest src n : ℕ)
    → AreApart dest src (suc (suc n))
    → IsStringAt mem src (suc n)
    → IsStringAt (put_byte mem dest (mem src)) (src + 1) n
rest-IsStringAt mem dest src n apart h = record {
  characters = λ i lt. rw (keep i (omega arith)) (h.characters (suc i) (omega arith));
  end = keep n (omega arith) ∙ h.end;
}
  where
    keep : (i : ℕ) → i ≤ n → put_byte mem dest (mem src) (src + 1 + i) ≡ mem (src + suc i)
    keep i le =
        put-other mem dest (mem src) (src + 1 + i)
          (λ e. apart-ne dest src (suc (suc n)) (suc i) apart (omega arith) (omega (arith, e)))
        ∙ ap mem (omega arith)

-- A string that does not overlap its destination is copied with the zero that ends it, and nothing
-- else is written.
pub strcpy_lem :
    (n : ℕ) (mem : Memory) (dest src : ℕ)
    → IsStringAt mem src n
    → AreApart dest src (suc n)
    → (mem' : Memory) × (strcpy (suc n) mem dest src ≡ some mem')
      × ((a : ℕ) → mem' a ≡ moved mem dest src (suc n) a)
unfolding strcpy
strcpy_lem zero mem dest src h apart =
    let ends : put_byte mem dest (mem src) src ≡ 0 =
      put_self mem dest src ∙ ap mem (omega arith) ∙ h.end in
    (
      put_byte mem dest (mem src),
      (rw ((==_iff _ 0).1 ends)),
      λ a.
          moved-none (put_byte mem dest (mem src)) (dest + 1) (src + 1) a
          ∙ moved-suc mem dest src 0 a apart,
    )
strcpy_lem (suc n) mem dest src h apart =
    let more : put_byte mem dest (mem src) src ≢ 0 =
      λ e. h.characters 0 (omega arith) (ap mem (omega arith) ∙ sym (put_self mem dest src) ∙ e) in
    let (mem', e, all) =
      strcpy_lem n (put_byte mem dest (mem src)) (dest + 1) (src + 1)
        (rest-IsStringAt mem dest src n apart h) (shorter apart) in
    (mem', (rw (==_of_ne _ 0 more) e), λ a. all a ∙ moved-suc mem dest src (suc n) a apart)
  where
    shorter : AreApart dest src (suc (suc n)) → AreApart (dest + 1) (src + 1) (suc n)
    shorter (inl q) = inl (omega arith)
    shorter (inr q) = inr (omega arith)

-- strncat moves n bytes to the end of a string that does not overlap them, whatever they are, and
-- puts a zero after them.
append_bytes-moved :
    (n : ℕ) (mem : Memory) (dest src destlen i : ℕ)
    → AreApart (dest + destlen + i) (src + i) n
    → (a : ℕ)
    → append_bytes mem dest src destlen i n a
      ≡ put_byte (moved mem (dest + destlen + i) (src + i) n) (dest + destlen + i + n) 0 a
unfolding append_bytes
append_bytes-moved zero mem dest src destlen i apart a = ground arith
append_bytes-moved (suc n) mem dest src destlen i apart a =
    append_bytes-moved n (put_byte mem (dest + destlen + i) (mem (src + i))) dest src destlen
      (i + 1) (shorter apart) a
    ∙ last apart
  where
    shorter :
        AreApart (dest + destlen + i) (src + i) (suc n)
        → AreApart (dest + destlen + (i + 1)) (src + (i + 1)) n
    shorter (inl q) = inl (omega arith)
    shorter (inr q) = inr (omega arith)

    last :
        AreApart (dest + destlen + i) (src + i) (suc n)
        → put_byte
            (moved
              (put_byte mem (dest + destlen + i) (mem (src + i)))
              (dest + destlen + (i + 1))
              (src + (i + 1))
              n)
            (dest + destlen + (i + 1) + n)
            0
            a
          ≡ put_byte
              (moved mem (dest + destlen + i) (src + i) (suc n))
              (dest + destlen + i + suc n)
              0
              a
    last (inl q) = ground arith
    last (inr q) = ground arith
