-- ===== src/Tests/Modes.antt =====
-- Permissions, mode changes and dates at samples.
use yafc.Base.{ℕ, ◌+◌, ◌≡◌, refl, false, some, List, [], ◌∷◌, arith, Bytes, codes}
use yafc.Rfile.Perm.{perm2string, str2mode_t}
use yafc.Rfile.Perm.RoundTrip.{str2mode_t-perm2string}
use yafc.Time.{gmt_mktime}
use yafc.Time.Civil.{Civil, to_tm, IsDate, next_second}
use yafc.Time.Calendar.{gmt_mktime-next_second}
use yafc.ModeChange.Mode.{bits_of, mask, no_bits, nonzero, ◌∪◌, ◌∩◌, plus, Change, no_flags}
use yafc.ModeChange.Parse.{
  span, affected_by, operation, parse_value, parse_values, build_change, mode_parse,
}
use yafc.ModeChange.Compile.{parse_octal, compile_from, mode_compile}
use yafc.ModeChange.Compile.Clauses.{mode_compile_three}
use yafc.ModeChange.Adjust.{mode_adjust}
use yafc.ModeChange.Adjust.Unaffected.{mode_adjust-unaffected}

str2mode_t-perm2string_example : str2mode_t (perm2string 0x89ed) ≡ some 0x9ed
str2mode_t-perm2string_example = str2mode_t-perm2string 0x89ed

abbrev leap_day : Civil
leap_day = record { year = 100; mon = 1; mday = 29; hour = 23; min = 59; sec = 59 }

leap_day-IsDate : IsDate leap_day
leap_day-IsDate = record {
  years = (omega arith, omega arith);
  months = omega arith;
  days = (omega arith, omega arith);
  hours = omega arith;
  mins = omega arith;
  secs = omega arith;
}

gmt_mktime-next_second_example :
    (t : ℕ) × (gmt_mktime (to_tm leap_day) ≡ some t)
    × (gmt_mktime (to_tm (next_second leap_day)) ≡ some (t + 1))
gmt_mktime-next_second_example = gmt_mktime-next_second leap_day leap_day-IsDate (omega arith)

-- The change of a clause that adds one permission to one class.
abbrev added : Bytes → List ℕ → Change
added class bits =
    let affected = affected_by class no_bits in
    record {
      affected = affected;
      value = no_bits ∪ (mask bits ∩ affected);
      op = plus;
      x_if_any = false;
      copy_existing = false;
    }

abbrev read_user : Change
read_user = added (codes "u") (2 ∷ 5 ∷ 8 ∷ [])

abbrev write_group : Change
write_group = added (codes "g") (1 ∷ 4 ∷ 7 ∷ [])

abbrev run_other : Change
run_other = added (codes "o") (0 ∷ 3 ∷ 6 ∷ [])

parsed :
    (mode_parse no_flags no_bits (codes "u+r,g+w,o+x") ≡ some (read_user, codes ",g+w,o+x"))
    × (mode_parse no_flags no_bits (codes "g+w,o+x") ≡ some (write_group, codes ",o+x"))
    × (mode_parse no_flags no_bits (codes "o+x") ≡ some (run_other, []))
parsed =
    unfold mode_parse span build_change affected_by operation parse_values parse_value nonzero in
    (refl, refl, refl)

mode_compile_three_example :
    mode_compile no_flags no_bits (codes "u+r,g+w,o+x") ≡ some (read_user ∷ run_other ∷ [])
mode_compile_three_example =
    mode_compile_three no_flags no_bits (codes "u+r,g+w,o+x") (unfold parse_octal in refl)
      (parsed.0) (parsed.1) (parsed.2) (omega arith)

only_user : mode_compile no_flags no_bits (codes "u+r") ≡ some (read_user ∷ [])
only_user =
    unfold mode_compile parse_octal compile_from mode_parse span build_change affected_by operation
      parse_values parse_value nonzero in
    refl

mode_adjust-unaffected_example : mode_adjust 0x1b6 (read_user ∷ []) 5 ≡ bits_of 0x1b6 5
mode_adjust-unaffected_example =
    mode_adjust-unaffected no_flags no_bits (codes "u+r") (read_user ∷ []) 0x1b6 5 only_user
      (omega arith) (unfold affected_by in (refl, tt))
