-- ===== src/Utils/Str.antt =====
-- hypervisor/common/utils.c: the functions on strings. A string is the list of its characters,
-- without the zero that ends it; a buffer is the list of its bytes.
mod Tests
pub mod Laws
use avisor.Prelude.{
  ℕ, zero, suc, ◌+◌, ◌-◌, ◌%◌, ◌^◌, Bool, true, false, not, ◌&&◌, ◌||◌, Option, none, some, List,
  [], ◌∷◌, ◌++◌, ◌==◌, if◌then◌else◌, leb,
}

-- The `int` of a difference of two characters, as a word.
abbrev pub difference : ℕ → ℕ → ℕ
difference a b = (a + 2 ^ 32 - b) % 2 ^ 32

-- Both loops of `strncpy`; a buffer that is too short ends it, where the code writes past the end.
unfoldable pub strncpy : (dest src : List ℕ) → (n : ℕ) → List ℕ
strncpy dest src zero = dest
strncpy [] src (suc n) = []
strncpy (d ∷ dest) [] (suc n) = 0 ∷ strncpy dest [] n
strncpy (d ∷ dest) (c ∷ src) (suc n) = c ∷ strncpy dest src n

pub strlen : List ℕ → ℕ
strlen [] = 0
strlen (c ∷ s) = strlen s + 1

pub strnlen : List ℕ → ℕ → ℕ
strnlen s zero = 0
strnlen [] (suc n) = 0
strnlen (c ∷ s) (suc n) = strnlen s n + 1

unfoldable pub strcmp : List ℕ → List ℕ → ℕ
strcmp [] [] = difference 0 0
strcmp [] (d ∷ t) = difference 0 d
strcmp (c ∷ s) [] = difference c 0
strcmp (c ∷ s) (d ∷ t) = let rest = strcmp s t in if c == d then rest else difference c d

pub strncmp : List ℕ → List ℕ → ℕ → ℕ
strncmp s t zero = 0
strncmp [] [] (suc n) = difference 0 0
strncmp [] (d ∷ t) (suc n) = difference 0 d
strncmp (c ∷ s) [] (suc n) = difference c 0
strncmp (c ∷ s) (d ∷ t) (suc n) =
    let rest = strncmp s t n in if c == d then rest else difference c d

-- The result is the rest of the string from the character on, or none for NULL.
pub strchr : List ℕ → ℕ → Option (List ℕ)
strchr [] c = none
strchr (d ∷ s) c = let rest = strchr s c in if d == c then some (d ∷ s) else rest

pub strcat : (dest src : List ℕ) → List ℕ
strcat [] src = src
strcat (d ∷ dest) src = d ∷ strcat dest src

abbrev pub toupper : ℕ → ℕ
toupper c = if leb 0x61 c && leb c 0x7a then c - 0x20 else c

abbrev pub tolower : ℕ → ℕ
tolower c = if leb 0x41 c && leb c 0x5a then c + 0x20 else c

pub strcasecmp : List ℕ → List ℕ → ℕ
strcasecmp [] [] = difference 0 0
strcasecmp [] (d ∷ t) = difference 0 (tolower d)
strcasecmp (c ∷ s) [] = difference (tolower c) 0
strcasecmp (c ∷ s) (d ∷ t) =
    let rest = strcasecmp s t in
    if tolower c == tolower d then rest else difference (tolower c) (tolower d)

-- The result of the loop with the first `len` characters, which is not 0. A string that ends is
-- compared without its case.
strncase : List ℕ → List ℕ → ℕ → ℕ
strncase [] [] len = difference 0 0
strncase [] (d ∷ t) len = difference 0 d
strncase (c ∷ s) [] len = difference c 0
strncase (c ∷ s) (d ∷ t) zero = difference (tolower c) (tolower d)
strncase (c ∷ s) (d ∷ t) (suc len) =
    let rest = strncase s t len in
    if c == d
    then rest
    else if tolower c == tolower d
    then rest
    else difference (tolower c) (tolower d)

pub strncasecmp : List ℕ → List ℕ → ℕ → ℕ
unfolding strncase
strncasecmp s t zero = 0
strncasecmp s t (suc len) = strncase s t len
