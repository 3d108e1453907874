-- ===== src/ModeChange/Mode.antt =====
-- Modes and mode changes of utils/modechange.c (under src/). A `mode_t` is its bits, so `|`, `&`, `~`
-- and the shifts act bit by bit.
use yafc.Base.{
  ℕ, ◌+◌, ◌-◌, ◌/◌, ◌%◌, ◌^◌, Bool, false, not, ◌&&◌, ◌||◌, List, [], ◌∷◌, ltb, leb, ◌==◌, has,
}

abbrev pub Mode : Type 0
Mode = ℕ → Bool

-- The bits of a number, and the bits of a list of their indices.
abbrev pub bits_of : ℕ → Mode
bits_of n i = n / 2 ^ i % 2 == 1

abbrev pub mask : List ℕ → Mode
mask = has

infixl 35 ◌∩◌
infixl 30 ◌∪◌
abbrev pub ◌∩◌ : Mode → Mode → Mode
(a ∩ b) i = a i && b i

abbrev pub ◌∪◌ : Mode → Mode → Mode
(a ∪ b) i = a i || b i

abbrev pub complement : Mode → Mode
complement a i = not (a i)

abbrev pub shift_right : Mode → ℕ → Mode
shift_right a k i = a (i + k)

abbrev pub shift_left : Mode → ℕ → Mode
shift_left a k i = leb k i && a (i - k)

abbrev pub no_bits : Mode
no_bits i = false

-- S_IRWXU, S_IRWXG, S_IRWXO and MAX_MODE
abbrev pub rwx_user : Mode
rwx_user = mask (6 ∷ 7 ∷ 8 ∷ [])

abbrev pub rwx_group : Mode
rwx_group = mask (3 ∷ 4 ∷ 5 ∷ [])

abbrev pub rwx_other : Mode
rwx_other = mask (0 ∷ 1 ∷ 2 ∷ [])

abbrev pub max_mode : Mode
max_mode i = ltb i 12

-- S_IXUSR | S_IXGRP | S_IXOTH
abbrev pub execute : Mode
execute = mask (0 ∷ 3 ∷ 6 ∷ [])

-- Whether a mode within MAX_MODE is not 0.
unfoldable pub nonzero : Mode → Bool
nonzero m = m 0 || m 1 || m 2 || m 3 || m 4 || m 5 || m 6 || m 7 || m 8 || m 9 || m 10 || m 11

pub data Operation : Type 0 where
  assign plus minus : Operation

-- `flags` is its two bits, MF_X_IF_ANY and MF_COPY_EXISTING; `next` is the list's.
pub record Change : Type 0 where
  pub affected : Mode
  pub value : Mode
  pub op : Operation
  pub x_if_any : Bool
  pub copy_existing : Bool

-- The MODE_MASK_* bits of the caller's flags.
pub record Flags : Type 0 where
  pub mask_equals : Bool
  pub mask_plus : Bool
  pub mask_minus : Bool

abbrev pub no_flags : Flags
no_flags = record { mask_equals = false; mask_plus = false; mask_minus = false }
