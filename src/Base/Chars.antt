-- ===== src/Base/Chars.antt =====
-- C strings as the list of their bytes before the terminator, the byte classes of the C locale,
-- and the string functions of the C library that the sources call. `xstrdup` and `xstrndup` are
-- libmhe/xmalloc.c's (under src/).
use Prim.Native.Char.{code}
use Prim.Native.Nat.{◌/◌, ◌%◌, ℕ, zero, suc, ◌*◌, ◌-◌, ◌+◌, ◌<◌}
use Prim.Native.String.{String}
use mathlib.Core.Bool.{Bool, true, false, ◌&&◌, ◌||◌}
use mathlib.Core.List.{List, [], ◌∷◌, map}
use mathlib.Core.Logic.{◌≢◌, ◌↔◌}
use mathlib.Core.Option.{Option, none, some}
use mathlib.Core.Path.{◌≡◌, refl, ap}
use native.Mathlib.Omega.{arith}
use yafc.Base.Lists.{take, All}
use yafc.Base.Tests.{ltb, leb, ◌==◌, if◌then◌else◌}

abbrev pub Bytes : Type 0
Bytes = List ℕ

abbrev pub codes : String → Bytes
codes String.[] = []
codes (String.◌∷◌ c s) = code c ∷ codes s

-- A byte of a C string: not the terminator, and one byte wide.
pub record IsChar (c : ℕ) : Type 0 where
  pub positive : 0 < c
  pub narrow : c < 256

abbrev pub IsText : Bytes → Type 0
IsText = All IsChar

abbrev pub within : ℕ → ℕ → ℕ → Bool
within lo hi c = leb lo c && leb c hi

abbrev pub is_space : ℕ → Bool
is_space c = c == 0x20 || within 0x09 0x0d c

abbrev pub is_cntrl : ℕ → Bool
is_cntrl c = leb c 0x1f || c == 0x7f

abbrev pub is_digit : ℕ → Bool
is_digit = within b'0' b'9'

abbrev pub is_xdigit : ℕ → Bool
is_xdigit c = is_digit c || within b'a' b'f' c || within b'A' b'F' c

abbrev pub to_lower : ℕ → ℕ
to_lower c = if within b'A' b'Z' c then c + 32 else c

-- Whether `strchr(set, c)` finds the byte `c`, which is not the terminator.
abbrev pub has : Bytes → ℕ → Bool
has [] c = false
has (x ∷ xs) c = x == c || has xs c

-- strcmp(a, b) == 0
unfoldable pub str_eq : Bytes → Bytes → Bool
str_eq [] [] = true
str_eq [] (y ∷ ys) = false
str_eq (x ∷ xs) [] = false
str_eq (x ∷ xs) (y ∷ ys) = x == y && str_eq xs ys

-- strncmp(s, prefix, strlen(prefix)) == 0
unfoldable pub starts_with : Bytes → Bytes → Bool
starts_with [] s = true
starts_with (x ∷ xs) [] = false
starts_with (x ∷ xs) (y ∷ ys) = x == y && starts_with xs ys

-- strcasecmp(a, b) == 0
unfoldable pub strcase_eq : Bytes → Bytes → Bool
unfolding str_eq
strcase_eq a b = str_eq (map to_lower a) (map to_lower b)

-- The bytes before the first `c`, and what stands behind it; `none` where `strchr` finds nothing.
unfoldable pub split_at : ℕ → Bytes → Option (Bytes × Bytes)
split_at c [] = none
split_at c (x ∷ xs) =
    if x == c
    then some ([], xs)
    else elim (split_at c xs) [ none ↦ none | some (a, b) ↦ some (x ∷ a, b) ]

-- The same at the last `c`, where `strrchr` points.
unfoldable pub split_last : ℕ → Bytes → Option (Bytes × Bytes)
split_last c [] = none
split_last c (x ∷ xs) = elim (split_last c xs) [
  | some (a, b) ↦ some (x ∷ a, b)
  | none ↦ if x == c then some ([], xs) else none
]

-- What a C function reads of a buffer: the bytes before the first terminator.
unfoldable pub c_string : Bytes → Bytes
c_string [] = []
c_string (x ∷ xs) = let rest = c_string xs in if x == 0 then [] else x ∷ rest

-- `negsuc n` is -(n + 1).
pub data ℤ : Type 0 where
  pos : ℕ → ℤ
  negsuc : ℕ → ℤ

abbrev pub negate : ℕ → ℤ
negate zero = pos 0
negate (suc n) = negsuc n

-- The digits at the head of a text, behind those that gave `n`.
unfoldable pub digits_value : ℕ → Bytes → ℕ
digits_value n [] = n
digits_value n (c ∷ s) =
    let more = digits_value (10 * n + (c - b'0')) s in if is_digit c then more else n

abbrev pub signed_value : Bytes → ℤ
signed_value [] = pos 0
signed_value (c ∷ s) =
    if c == b'-'
    then negate (digits_value 0 s)
    else if c == b'+'
    then pos (digits_value 0 s)
    else pos (digits_value 0 (c ∷ s))

-- atoi, whose result C defines only where it fits an `int`.
unfoldable pub atoi : Bytes → ℤ
atoi [] = pos 0
atoi (c ∷ s) = if is_space c then atoi s else signed_value (c ∷ s)

abbrev pub drop_trailing : Bytes → ℕ → Bytes → Bytes
drop_trailing set c [] = if has set c then [] else c ∷ []
drop_trailing set c (d ∷ s) = c ∷ d ∷ s

-- strip_trailing_chars of libmhe/strq.c: the string without the bytes of the set at its end.
unfoldable pub strip_trailing_chars : Bytes → Bytes → Bytes
strip_trailing_chars set [] = []
strip_trailing_chars set (c ∷ s) = drop_trailing set c (strip_trailing_chars set s)

-- xstrdup: the empty string gives the null pointer.
abbrev pub xstrdup : Bytes → Option Bytes
xstrdup [] = none
xstrdup (c ∷ s) = some (c ∷ s)

-- xstrndup
abbrev pub xstrndup : Bytes → ℕ → Option Bytes
xstrndup [] n = none
xstrndup (c ∷ s) n = some (take n (c ∷ s))

-- "%i" and "%d", for a number of at most ten digits
unfoldable pub digits : ℕ → ℕ → Bytes → Bytes
digits zero n acc = acc
digits (suc fuel) n acc =
    let more = digits fuel (n / 10) ((b'0' + n % 10) ∷ acc) in
    if ltb n 10 then (b'0' + n) ∷ acc else more

abbrev pub decimal : ℤ → Bytes
decimal (pos n) = digits 10 n []
decimal (negsuc n) = b'-' ∷ digits 10 (n + 1) []

pub str_eq_iff : (a b : Bytes) → (str_eq a b ≡ true) ↔ (a ≡ b)
unfolding str_eq
str_eq_iff [] [] = ground arith
str_eq_iff [] (y ∷ ys) = ground arith
str_eq_iff (x ∷ xs) [] = ground arith
str_eq_iff (x ∷ xs) (y ∷ ys) = ground (arith, str_eq_iff xs ys)

pub c_string-IsText : (s : Bytes) → IsText s → c_string s ≡ s
unfolding c_string
c_string-IsText [] h = refl
c_string-IsText (x ∷ xs) h = ground (arith, c_string-IsText xs h.1)

pub has-ne : (set : Bytes) (b c : ℕ) → has set b ≡ true → has set c ≡ false → c ≢ b
has-ne set b c h k e = cc (ap (has set) e)
