-- ===== src/ModeChange/Compile.antt =====
-- `mode_compile` of utils/modechange.c (under src/): an octal mode, or clauses and commas.
pub mod Clauses
pub mod Fuel
use yafc.Base.{
  ℕ, zero, suc, ◌+◌, ◌-◌, ◌*◌, Bool, true, false, not, ◌&&◌, ◌||◌, Option, none, some, List, [],
  ◌∷◌, ltb, ◌==◌, if◌then◌else◌, length, Bytes, within, is_space,
}
use yafc.ModeChange.Mode.{
  Mode, bits_of, mask, ◌∩◌, ◌∪◌, complement, shift_right, shift_left, no_bits, rwx_user, rwx_group,
  rwx_other, max_mode, execute, nonzero, Operation, assign, plus, minus, Change, Flags, no_flags,
}
use yafc.ModeChange.Parse.{mode_parse}

pub data Octal : Type 0 where
  not_octal out_of_range : Octal
  octal : ℕ → Octal

abbrev pub is_octal_digit : ℕ → Bool
is_octal_digit = within b'0' b'7'

-- The digits at the head of a string, as strtol reads them behind the blanks and the sign.
unfoldable pub octal_value : ℕ → Bytes → ℕ
octal_value n [] = n
octal_value n (c ∷ s) =
    let more = octal_value (8 * n + (c - b'0')) s in if is_octal_digit c then more else n

abbrev pub octal_number : Bool → Bytes → Octal
octal_number negative [] = not_octal
octal_number negative (c ∷ s) =
    let n = octal_value 0 (c ∷ s) in
    if not (is_octal_digit c)
    then not_octal
    else if (negative && ltb 0 n) || ltb 4095 n
    then out_of_range
    else octal n

abbrev pub signed_octal : Bytes → Octal
signed_octal [] = not_octal
signed_octal (c ∷ s) =
    if c == b'-'
    then octal_number true s
    else if c == b'+'
    then octal_number false s
    else octal_number false (c ∷ s)

-- strtol(mode, &endptr, 8), and the test of its range. What stands behind the digits is not read.
unfoldable pub parse_octal : Bytes → Octal
unfolding octal_value
parse_octal [] = not_octal
parse_octal (c ∷ s) = if is_space c then parse_octal s else signed_octal (c ∷ s)

-- if (!list) list = next; else list->next = next;
abbrev pub link : List Change → Change → List Change
link [] next = next ∷ []
link (c ∷ cs) next = c ∷ next ∷ []

-- Behind a clause: the end, or a comma and what follows it. The call that `more` makes is bound,
-- and waits.
abbrev pub behind_clause :
    Bytes → List Change → (Bytes → Option (List Change)) → Option (List Change)
behind_clause [] list more = some list
behind_clause (c ∷ []) list more = if c == b',' then some list else none
behind_clause (c ∷ d ∷ rest) list more = if c == b',' then more (d ∷ rest) else none

-- The loop of `mode_compile`: each round takes three bytes at least.
unfoldable pub compile_from : ℕ → Flags → Mode → Bytes → List Change → Option (List Change)
compile_from zero flags umask mode list = none
compile_from (suc fuel) flags umask mode list = elim (mode_parse flags umask mode) [
  | none ↦ none
  | some (next, rest) ↦
      behind_clause rest (link list next) λ m. compile_from fuel flags umask m (link list next)
]

abbrev pub octal_change : ℕ → Change
octal_change n = record {
  affected = max_mode;
  value = bits_of n;
  op = assign;
  x_if_any = false;
  copy_existing = false;
}

abbrev pub compile_octal : Octal → Option (List Change) → Option (List Change)
compile_octal not_octal symbolic = symbolic
compile_octal out_of_range symbolic = none
compile_octal (octal n) symbolic = some (octal_change n ∷ [])

unfoldable pub mode_compile : Flags → Mode → Bytes → Option (List Change)
mode_compile flags umask [] = none
mode_compile flags umask (c ∷ s) =
    compile_octal (parse_octal (c ∷ s)) (compile_from (length (c ∷ s)) flags umask (c ∷ s) [])
