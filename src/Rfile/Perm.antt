-- ===== src/Rfile/Perm.antt =====
-- Permission strings: `str2mode_t` of ftp/rfile.c and `perm2string` of ftp/ftp.c (under src/).
-- Modes are numbers, with the bits of POSIX's `S_I*` constants. Each `|=` of `str2mode_t` sets a
-- bit that is still clear, so it adds.
pub mod RoundTrip
use yafc.Base.{
  ℕ, ◌+◌, ◌-◌, ◌/◌, ◌%◌, ◌^◌, Bool, Option, none, some, [], ◌∷◌, leb, ◌==◌, if◌then◌else◌, length,
  get_or, Bytes,
}

-- test(m, 1 << k)
abbrev pub bit : ℕ → ℕ → Bool
bit m k = m / 2 ^ k % 2 == 1

-- m & S_IFMT, in units of its lowest bit
abbrev pub file_type : ℕ → ℕ
file_type m = m / 2 ^ 12 % 16

abbrev pub dash : ℕ
dash = b'-'

-- S_ISDIR, S_ISLNK, S_ISCHR, S_ISBLK, S_ISFIFO and S_ISSOCK in turn.
unfoldable pub type_char : ℕ → ℕ
type_char m =
    if file_type m == 4
    then b'd'
    else if file_type m == 10
    then b'l'
    else if file_type m == 2
    then b'c'
    else if file_type m == 6
    then b'b'
    else if file_type m == 1
    then b'p'
    else if file_type m == 12
    then b's'
    else dash

unfoldable pub flag_char : ℕ → Bool → ℕ
flag_char c set = if set then c else dash

-- `both` where the execute bit and the special bit are set, `alone` for the special bit alone.
unfoldable pub exec_char : ℕ → ℕ → Bool → Bool → ℕ
exec_char both alone x special =
    if x then (if special then both else b'x') else if special then alone else dash

unfoldable pub perm2string : ℕ → Bytes
perm2string m =
    type_char m
    ∷ flag_char b'r' (bit m 8)
    ∷ flag_char b'w' (bit m 7)
    ∷ exec_char b's' b'S' (bit m 6) (bit m 11)
    ∷ flag_char b'r' (bit m 5)
    ∷ flag_char b'w' (bit m 4)
    ∷ exec_char b's' b'S' (bit m 3) (bit m 10)
    ∷ flag_char b'r' (bit m 2)
    ∷ flag_char b'w' (bit m 1)
    ∷ exec_char b't' b'T' (bit m 0) (bit m 9)
    ∷ []

unfoldable pub flag_bits : ℕ → ℕ → ℕ → ℕ
flag_bits flag value c = if c == flag then value else 0

-- The bits that the execute character of a class adds.
unfoldable pub exec_bits : ℕ → ℕ → ℕ → ℕ → ℕ → ℕ
exec_bits both alone x special c =
    if c == b'x' then x else if c == alone then special else if c == both then special + x else 0

-- `none`: the ninth character behind the first is read, and the string is too short for that.
unfoldable pub str2mode_t : Bytes → Option ℕ
str2mode_t p =
    let at = λ (i : ℕ). get_or p i 0 in
    if leb 9 (length p)
    then some (
        flag_bits b'r' (2 ^ 8) (at 1)
        + flag_bits b'w' (2 ^ 7) (at 2)
        + exec_bits b's' b'S' (2 ^ 6) (2 ^ 11) (at 3)
        + flag_bits b'r' (2 ^ 5) (at 4)
        + flag_bits b'w' (2 ^ 4) (at 5)
        + exec_bits b's' b'S' (2 ^ 3) (2 ^ 10) (at 6)
        + flag_bits b'r' (2 ^ 2) (at 7)
        + flag_bits b'w' (2 ^ 1) (at 8)
        + exec_bits b't' b'T' (2 ^ 0) (2 ^ 9) (at 9))
    else none
