-- ===== src/Session/Passive/Numbers.antt =====
-- The numbers of a reply to PASV for `ftp_pasv` of ftp/ftpsend.c (under src/).
use yafc.Base.{
  ℕ, ◌+◌, ◌-◌, ◌*◌, ◌%◌, ◌≡◌, refl, sym, ap, ◌∙◌, true, false, Option, none, some, List, [], ◌∷◌,
  ◌++◌, map, arith, ◌==◌, if◌then◌else◌, length, is_nil, All, Bytes, is_space, is_digit,
  digits_value,
}
use yafc.Rfile.Dates.{unsigned_value, starts_digit, skip_digits}
use yafc.Rfile.Unix.{scan_byte}
use yafc.Session.Passive.{
  digits_from, scan_unsigned, put_number, scan_rest, scan_six, find_digit, Passive, pasv, overrun,
  six, parse_pasv,
}

abbrev pub IsNumber : Bytes → Type 0
IsNumber w = (is_nil w ≡ false) × All (λ c. is_digit c ≡ true) w

-- The byte that a number stands for.
abbrev pub byte_of : Bytes → ℕ
byte_of w = unsigned_value false (digits_value 0 w) % 256

abbrev pub rest_text : List Bytes → Bytes → Bytes
rest_text [] tail = tail
rest_text (w ∷ ws) tail = b',' ∷ (w ++ rest_text ws tail)

digits_value-append :
    (n : ℕ) (w u : Bytes)
    → All (λ c. is_digit c ≡ true) w
    → starts_digit u ≡ false
    → digits_value n (w ++ u) ≡ digits_value n w
unfolding digits_value starts_digit
digits_value-append n [] [] h e = refl
digits_value-append n [] (c ∷ u) h e = rw e
digits_value-append n (c ∷ w) u h e =
    ap (λ m. if is_digit c then m else n) (digits_value-append (10 * n + (c - b'0')) w u h.1 e)

skip_digits-append :
    (w u : Bytes)
    → All (λ c. is_digit c ≡ true) w
    → starts_digit u ≡ false
    → skip_digits (w ++ u) ≡ u
unfolding skip_digits starts_digit
skip_digits-append [] [] h e = refl
skip_digits-append [] (c ∷ u) h e = rw e
skip_digits-append (c ∷ w) u h e = rw h.0 (skip_digits-append w u h.1 e)

digits_from-IsNumber :
    (c : ℕ) (w u : Bytes)
    → IsNumber (c ∷ w)
    → starts_digit u ≡ false
    → digits_from false (c ∷ (w ++ u)) ≡ some (unsigned_value false (digits_value 0 (c ∷ w)), u)
unfolding starts_digit
digits_from-IsNumber c w u h e =
    let s = c ∷ (w ++ u) in
    let number : ℕ → Bytes → Option (ℕ × Bytes) = λ n t. some (unsigned_value false n, t) in
    ap (λ b. if b then number (digits_value 0 s) (skip_digits s) else none) h.1.0
    ∙ ap (λ n. number n (skip_digits s)) (digits_value-append 0 (c ∷ w) u h.1 e)
    ∙ ap (number (digits_value 0 (c ∷ w))) (skip_digits-append (c ∷ w) u h.1 e)

scan_unsigned-IsNumber :
    (w u : Bytes)
    → IsNumber w
    → starts_digit u ≡ false
    → scan_unsigned (w ++ u) ≡ some (unsigned_value false (digits_value 0 w), u)
unfolding scan_unsigned
scan_unsigned-IsNumber [] u h e = absurd (ground (arith, h.0))
scan_unsigned-IsNumber (c ∷ w) u h e =
    let digit : is_digit c ≡ true = h.1.0 in
    let no_space : is_space c ≡ false = ground arith in
    let no_minus : (c == b'-') ≡ false = ground arith in
    let no_plus : (c == b'+') ≡ false = ground arith in
    rw (no_space, no_minus, no_plus) (digits_from-IsNumber c w u h e)

find_digit-behind :
    (front s : Bytes) → All (λ c. is_digit c ≡ false) front → find_digit (front ++ s) ≡ find_digit s
unfolding find_digit
find_digit-behind [] s h = refl
find_digit-behind (c ∷ front) s h = rw h.0 (find_digit-behind front s h.1)

starts_digit-rest :
    (ws : List Bytes) (tail : Bytes)
    → starts_digit tail ≡ false
    → starts_digit (rest_text ws tail) ≡ false
unfolding starts_digit
starts_digit-rest [] tail e = e
starts_digit-rest (w ∷ ws) tail e = refl

scan_rest-text :
    (ws : List Bytes) (tail : Bytes)
    → All IsNumber ws
    → starts_digit tail ≡ false
    → scan_rest (length ws) (rest_text ws tail) ≡ some (map byte_of ws)
unfolding scan_rest scan_byte
scan_rest-text [] tail h e = refl
scan_rest-text (w ∷ ws) tail h e =
    let found = λ (o : Option (ℕ × Bytes)). elim o as (λ x. Option (List ℕ)) [
      | none ↦ none
      | some (x, u) ↦ put_number x (scan_rest (length ws) u)
    ] in
    ap found (scan_unsigned-IsNumber w (rest_text ws tail) h.0 (starts_digit-rest ws tail e))
    ∙ ap (put_number (unsigned_value false (digits_value 0 w))) (scan_rest-text ws tail h.1 e)

find_digit-here : (w u : Bytes) → IsNumber w → find_digit (w ++ u) ≡ some (w ++ u)
unfolding find_digit
find_digit-here [] u h = absurd (ground (arith, h.0))
find_digit-here (c ∷ w) u h = rw h.1.0

-- In a reply to PASV that holds six numbers with commas between them, the first digit of the reply in the
-- first number and no digit right behind the last, the six numbers are found, each as a byte.
pub parse_pasv-numbers :
    (front w : Bytes) (ws : List Bytes) (tail : Bytes)
    → All (λ c. is_digit c ≡ false) front
    → All IsNumber (w ∷ ws)
    → length ws ≡ 5
    → starts_digit tail ≡ false
    → parse_pasv false (front ++ (w ++ rest_text ws tail)) ≡ pasv (map byte_of (w ∷ ws))
unfolding parse_pasv scan_six
parse_pasv-numbers front w ws tail f h n e =
    let text = w ++ rest_text ws tail in
    let found = λ (o : Option Bytes). elim o as (λ x. Passive) [
      | none ↦ overrun
      | some s ↦ six (scan_six s)
    ] in
    let first = λ (o : Option (ℕ × Bytes)). elim o as (λ x. Option (List ℕ)) [
      | none ↦ none
      | some (x, u) ↦ put_number x (scan_rest 5 u)
    ] in
    let more : scan_rest 5 (rest_text ws tail) ≡ some (map byte_of ws) =
      ap (λ k. scan_rest k (rest_text ws tail)) (sym n) ∙ scan_rest-text ws tail h.1 e in
    ap found (find_digit-behind front text f ∙ find_digit-here w (rest_text ws tail) h.0)
    ∙ ap (λ o. six (first o))
        (scan_unsigned-IsNumber w (rest_text ws tail) h.0 (starts_digit-rest ws tail e))
    ∙ ap (λ o. six (put_number (unsigned_value false (digits_value 0 w)) o)) more
