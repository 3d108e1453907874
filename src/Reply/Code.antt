-- ===== src/Reply/Code.antt =====
-- The numbers that start the lines of a reply, as `atoi` reads them for `ftp_gets` of ftp/ftp.c (under
-- src/).
use yafc.Base.{
  ℕ, ◌+◌, ◌-◌, ◌*◌, ◌<◌, ◌≡◌, ap, ◌∙◌, true, false, ◌∷◌, arith, ◌==◌, Bytes, is_space, is_digit,
  pos, digits_value, atoi,
}

-- The three digits of a reply's number.
pub record Code : Type 0 where
  pub first : ℕ
  pub second : ℕ
  pub third : ℕ
  pub first_fits : first < 10
  pub second_fits : second < 10
  pub third_fits : third < 10

abbrev pub value : Code → ℕ
value n = 100 * n.first + 10 * n.second + n.third

-- The number, the byte behind it, and the text.
abbrev pub reply_line : Code → ℕ → Bytes → Bytes
reply_line n sep u = (b'0' + n.first) ∷ (b'0' + n.second) ∷ (b'0' + n.third) ∷ sep ∷ u

digits_value-digit :
    (n d : ℕ) (s : Bytes) → d < 10 → digits_value n ((b'0' + d) ∷ s) ≡ digits_value (10 * n + d) s
unfolding digits_value
digits_value-digit n d s h =
    let e : is_digit (b'0' + d) ≡ true = ground arith in
    let k : b'0' + d - b'0' ≡ d = omega arith in rw (e, k)

atoi-digit :
    (d : ℕ) (s : Bytes) → d < 10 → atoi ((b'0' + d) ∷ s) ≡ pos (digits_value 0 ((b'0' + d) ∷ s))
unfolding atoi
atoi-digit d s h =
    let e : is_space (b'0' + d) ≡ false = ground arith in
    let k : ((b'0' + d) == b'-') ≡ false = ground arith in
    let l : ((b'0' + d) == b'+') ≡ false = ground arith in rw (e, k, l)

digits_value-stop : (n c : ℕ) (s : Bytes) → is_digit c ≡ false → digits_value n (c ∷ s) ≡ n
unfolding digits_value
digits_value-stop n c s h = rw h

pub atoi-reply_line :
    (n : Code) (sep : ℕ) (u : Bytes)
    → is_digit sep ≡ false
    → atoi (reply_line n sep u) ≡ pos (value n)
atoi-reply_line n sep u h =
    let e = digits_value-digit 0 n.first _ n.first_fits in
    let f = digits_value-digit (10 * 0 + n.first) n.second _ n.second_fits in
    let g = digits_value-digit (10 * (10 * 0 + n.first) + n.second) n.third _ n.third_fits in
    let s = digits_value-stop _ sep u h in
    let a : 10 * (10 * (10 * 0 + n.first) + n.second) + n.third ≡ value n = omega arith in
    atoi-digit n.first _ n.first_fits ∙ ap pos (e ∙ f ∙ g ∙ s ∙ a)
