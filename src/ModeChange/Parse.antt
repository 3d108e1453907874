-- ===== src/ModeChange/Parse.antt =====
-- `mode_parse` of utils/modechange.c (under src/): one clause, such as `ug+rw`. What `calloc` returns is not null.
use yafc.Base.{
  ℕ, Bool, true, false, Option, none, some, [], ◌∷◌, ◌==◌, if◌then◌else◌, Bytes, codes, has,
}
use yafc.ModeChange.Mode.{
  Mode, mask, ◌∩◌, ◌∪◌, complement, no_bits, rwx_user, rwx_group, rwx_other, max_mode, execute,
  nonzero, Operation, assign, plus, minus, Change, Flags, no_flags,
}

-- strspn: the prefix, and what stands behind it.
unfoldable pub span : Bytes → Bytes → Bytes × Bytes
span set [] = ([], [])
span set (c ∷ s) = let (a, b) = span set s in if has set c then (c ∷ a, b) else ([], c ∷ s)

unfoldable pub affected_by : Bytes → Mode → Mode
affected_by [] m = m
affected_by (c ∷ s) m = affected_by s (
    if c == b'u'
    then m ∪ mask (11 ∷ []) ∪ rwx_user
    else if c == b'g'
    then m ∪ mask (10 ∷ []) ∪ rwx_group
    else if c == b'o'
    then m ∪ mask (9 ∷ []) ∪ rwx_other
    else if c == b'a'
    then m ∪ max_mode
    else m)

unfoldable pub operation : ℕ → Flags → Option (Operation × Bool)
operation c f =
    if c == b'+'
    then some (plus, f.mask_plus)
    else if c == b'-'
    then some (minus, f.mask_minus)
    else if c == b'='
    then some (assign, f.mask_equals)
    else none

abbrev pub add_value : Change → Mode → Change
add_value r m = record r { value = r.value ∪ (m ∩ r.affected) }

-- `u`, `g` and `o` as permissions, which must come first.
abbrev pub copy_from : Mode → Change → Option Change
copy_from m r =
    if nonzero r.value then none else some (record r { value = m; copy_existing = true })

unfoldable pub parse_value : ℕ → Change → Option Change
parse_value c r =
    if c == b'r'
    then some (add_value r (mask (2 ∷ 5 ∷ 8 ∷ [])))
    else if c == b'w'
    then some (add_value r (mask (1 ∷ 4 ∷ 7 ∷ [])))
    else if c == b'X'
    then some (add_value (record r { x_if_any = true }) execute)
    else if c == b'x'
    then some (add_value r execute)
    else if c == b's'
    then some (add_value r (mask (10 ∷ 11 ∷ [])))
    else if c == b't'
    then some (add_value r (mask (9 ∷ [])))
    else if c == b'u'
    then copy_from rwx_user r
    else if c == b'g'
    then copy_from rwx_group r
    else if c == b'o'
    then copy_from rwx_other r
    else none

unfoldable pub parse_values : Bytes → Change → Option Change
parse_values [] r = some r
parse_values (c ∷ s) r = elim (parse_value c r) [ none ↦ none | some r' ↦ parse_values s r' ]

-- The change before its values are read.
abbrev pub start : Mode → Mode → Operation × Bool → Change
start affected umask (op, masked) = record {
  affected = if masked then affected ∩ complement umask else affected;
  value = no_bits;
  op = op;
  x_if_any = false;
  copy_existing = false;
}

abbrev pub parse_start : Mode → Mode → Bytes → Option (Operation × Bool) → Option Change
parse_start affected umask values none = none
parse_start affected umask values (some found) = parse_values values (start affected umask found)

-- Behind the `strspn` checks: the parts of one clause. Flags count only where no class is named.
unfoldable pub build_change : Flags → Mode → Bytes → ℕ → Bytes → Option Change
build_change flags umask classes c values =
    let named = affected_by classes no_bits in
    if nonzero named
    then parse_start named umask values (operation c no_flags)
    else parse_start max_mode umask values (operation c flags)

abbrev pub with_rest : Option Change → Bytes → Option (Change × Bytes)
with_rest none rest = none
with_rest (some r) rest = some (r, rest)

abbrev pub take_values : Flags → Mode → Bytes → Bytes → Bytes × Bytes → Option (Change × Bytes)
take_values flags umask classes (c ∷ []) ([], rest) = none
take_values flags umask classes (c ∷ []) (v ∷ vs, rest) =
    with_rest (build_change flags umask classes c (v ∷ vs)) rest
take_values flags umask classes _ _ = none

-- The clause at the head of the string, and the string behind it.
unfoldable pub mode_parse : Flags → Mode → Bytes → Option (Change × Bytes)
mode_parse flags umask mode =
    let (classes, behind) = span (codes "ugoa") mode in
    let (ops, values) = span (codes "+-=") behind in
    take_values flags umask classes ops (span (codes "rwxXstugo") values)
