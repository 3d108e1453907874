-- ===== src/Rfile/Perm/RoundTrip.antt =====
-- `str2mode_t` (ftp/rfile.c, under src/) behind `perm2string` (ftp/ftp.c).
use yafc.Base.{
  ℕ, ◌+◌, ◌*◌, ◌/◌, ◌%◌, ◌^◌, ◌≡◌, refl, ap, Bool, false, some, arith, ◌==◌, if◌then◌else◌,
}
use yafc.Rfile.Perm.{flag_char, flag_bits, bit, dash, exec_char, perm2string, exec_bits, str2mode_t}

flag_bits-flag_char :
    (c value : ℕ) (set : Bool)
    → (dash == c) ≡ false
    → flag_bits c value (flag_char c set) ≡ (if set then value else 0)
unfolding flag_bits flag_char
flag_bits-flag_char c value set h = ground arith

bit-value : (m k : ℕ) → (if bit m k then 2 ^ k else 0) ≡ (m / 2 ^ k % 2) * 2 ^ k
bit-value m k = ground arith

exec_bits-exec_char :
    (both alone x special : ℕ) (e s : Bool)
    → (both == alone) ≡ false
    → (alone == b'x') ≡ false
    → (both == b'x') ≡ false
    → (alone == dash) ≡ false
    → (both == dash) ≡ false
    → exec_bits both alone x special (exec_char both alone e s)
      ≡ (if e then x else 0) + (if s then special else 0)
unfolding exec_bits exec_char
exec_bits-exec_char both alone x special e s h1 h2 h3 h4 h5 = ground arith

-- The bits below the file type.
bits-sum :
    (m : ℕ)
    → (if bit m 8 then 2 ^ 8 else 0)
        + (if bit m 7 then 2 ^ 7 else 0)
        + ((if bit m 6 then 2 ^ 6 else 0) + (if bit m 11 then 2 ^ 11 else 0))
        + (if bit m 5 then 2 ^ 5 else 0)
        + (if bit m 4 then 2 ^ 4 else 0)
        + ((if bit m 3 then 2 ^ 3 else 0) + (if bit m 10 then 2 ^ 10 else 0))
        + (if bit m 2 then 2 ^ 2 else 0)
        + (if bit m 1 then 2 ^ 1 else 0)
        + ((if bit m 0 then 2 ^ 0 else 0) + (if bit m 9 then 2 ^ 9 else 0))
      ≡ m % 2 ^ 12
bits-sum m =
    rw
      (
        bit-value m 8,
        bit-value m 7,
        bit-value m 6,
        bit-value m 11,
        bit-value m 5,
        bit-value m 4,
        bit-value m 3,
        bit-value m 10,
        bit-value m 2,
        bit-value m 1,
        bit-value m 0,
        bit-value m 9,
      )
      (omega arith)

-- A mode that was written as a permission string is read back, but for its file type.
pub str2mode_t-perm2string : (m : ℕ) → str2mode_t (perm2string m) ≡ some (m % 2 ^ 12)
unfolding str2mode_t perm2string
str2mode_t-perm2string m = ap some (
    simp
      (
        flag_bits-flag_char b'r' (2 ^ 8) (bit m 8) refl,
        flag_bits-flag_char b'w' (2 ^ 7) (bit m 7) refl,
        exec_bits-exec_char b's' b'S' (2 ^ 6) (2 ^ 11) (bit m 6) (bit m 11) refl refl refl refl
            refl,
        flag_bits-flag_char b'r' (2 ^ 5) (bit m 5) refl,
        flag_bits-flag_char b'w' (2 ^ 4) (bit m 4) refl,
        exec_bits-exec_char b's' b'S' (2 ^ 3) (2 ^ 10) (bit m 3) (bit m 10) refl refl refl refl
            refl,
        flag_bits-flag_char b'r' (2 ^ 2) (bit m 2) refl,
        flag_bits-flag_char b'w' (2 ^ 1) (bit m 1) refl,
        exec_bits-exec_char b't' b'T' (2 ^ 0) (2 ^ 9) (bit m 0) (bit m 9) refl refl refl refl refl,
      )
      (bits-sum m))
