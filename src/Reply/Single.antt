-- ===== src/Reply/Single.antt =====
-- A line that ends in CR LF, as `ftp_gets` of ftp/ftp.c (under src/) leaves it.
use yafc.Base.{
  ℕ, ◌+◌, ◌-◌, ◌≤◌, ◌<◌, ◌≡◌, refl, ap, ◌∙◌, true, false, [], ◌∷◌, ◌++◌, append_assoc, arith, ◌==◌,
  if◌then◌else◌, lt→ltb, length, take, drop, length-append, take-all, All, Bytes, codes, c_string,
  ℤ, negsuc, atoi, strip_trailing_chars, drop_trailing,
}
use yafc.Reply.{
  max_reply, Conn, hundreds, line, iac, store, read_line, overwrite, strip_array, finish_line,
  after_line, ftp_gets,
}

-- A byte of a reply's text: no terminator, no line end and no telnet command.
pub record IsPlain (c : ℕ) : Type 0 where
  pub not_null : (c == 0) ≡ false
  pub not_newline : (c == b'\n') ≡ false
  pub not_return : (c == b'\r') ≡ false
  pub not_iac : (c == iac) ≡ false

-- The text of a line that fits the reply, and the bytes that carry it.
pub record IsLine (t : Bytes) : Type 0 where
  pub plain : All IsPlain t
  pub fits : length t < max_reply

abbrev pub wire : Bytes → Bytes → Bytes
wire t rest = t ++ b'\r' ∷ b'\n' ∷ rest

store-fits : (acc : Bytes) (c : ℕ) → length acc < max_reply → store acc c ≡ acc ++ c ∷ []
store-fits acc c h = rw (lt→ltb (length acc) max_reply h)

read_line-plain :
    (acc sent : Bytes) (c d e : ℕ) (s : Bytes)
    → IsPlain c
    → read_line acc sent (c ∷ d ∷ e ∷ s) ≡ read_line (store acc c) sent (d ∷ e ∷ s)
unfolding read_line
read_line-plain acc sent c d e s p = rw (p.not_iac, p.not_newline, p.not_return)

read_line-end :
    (acc sent rest : Bytes) → read_line acc sent (wire [] rest) ≡ line (acc ++ b'\r' ∷ []) rest sent
unfolding read_line
read_line-end acc sent [] = refl
read_line-end acc sent (x ∷ rest) = refl

read_line-first :
    (acc sent : Bytes) (c : ℕ) (t rest : Bytes)
    → IsPlain c
    → read_line acc sent (wire (c ∷ t) rest) ≡ read_line (store acc c) sent (wire t rest)
read_line-first acc sent c [] rest p = read_line-plain acc sent c b'\r' b'\n' rest p
read_line-first acc sent c (d ∷ []) rest p = read_line-plain acc sent c d b'\r' (b'\n' ∷ rest) p
read_line-first acc sent c (d ∷ e ∷ t) rest p = read_line-plain acc sent c d e (wire t rest) p

read_line-wire :
    (t acc sent rest : Bytes)
    → All IsPlain t
    → length acc + length t < max_reply
    → read_line acc sent (wire t rest) ≡ line (acc ++ (t ++ b'\r' ∷ [])) rest sent
read_line-wire [] acc sent rest p h = read_line-end acc sent rest
read_line-wire (c ∷ t) acc sent rest p h =
    let e = read_line-first acc sent c t rest p.0 in
    let f = store-fits acc c (omega arith) in
    let fits : length (acc ++ c ∷ []) + length t < max_reply =
      omega (arith, length-append acc (c ∷ [])) in
    let more = read_line-wire t (acc ++ c ∷ []) sent rest p.1 fits in
    rw (e, f, more, append_assoc acc (c ∷ []) (t ++ b'\r' ∷ []))

pub c_string-ended : (t x : Bytes) → All IsPlain t → c_string (t ++ 0 ∷ x) ≡ t
unfolding c_string
c_string-ended [] x p = refl
c_string-ended (c ∷ t) x p = rw (p.0.not_null) (ap (◌∷◌ c) (c_string-ended t x p.1))

c_string-return : (t x : Bytes) → All IsPlain t → c_string (t ++ b'\r' ∷ 0 ∷ x) ≡ t ++ b'\r' ∷ []
unfolding c_string
c_string-return [] x p = refl
c_string-return (c ∷ t) x p = rw (p.0.not_null) (ap (◌∷◌ c) (c_string-return t x p.1))

drop_trailing-plain : (c : ℕ) (t : Bytes) → IsPlain c → drop_trailing (codes "\n\r") c t ≡ c ∷ t
drop_trailing-plain c [] p = ground (arith, p.not_newline, p.not_return)
drop_trailing-plain c (d ∷ t) p = refl

strip-return :
    (t : Bytes) → All IsPlain t → strip_trailing_chars (codes "\n\r") (t ++ b'\r' ∷ []) ≡ t
unfolding strip_trailing_chars
strip-return [] p = refl
strip-return (c ∷ t) p = rw (strip-return t p.1) (drop_trailing-plain c t p.0)

-- What one line leaves behind.
pub record Got (t rest : Bytes) (sent : Bytes) (after : Conn × ℤ) : Type 0 where
  pub array : (x : Bytes) × (after.0.reply ≡ t ++ 0 ∷ x)
  pub unread : after.0.input ≡ rest
  pub still_open : after.0.is_open ≡ true
  pub unsent : after.0.sent ≡ sent
  pub number : after.0.fullcode ≡ atoi (t ++ b'\r' ∷ [])
  pub coded : after.0.code ≡ hundreds (after.0.fullcode)
  pub result : after.1 ≡ atoi (t ++ b'\r' ∷ [])

line_array :
    (t r : Bytes)
    → IsLine t
    → (x : Bytes) × (overwrite (take max_reply (t ++ b'\r' ∷ []) ++ 0 ∷ []) r ≡ t ++ b'\r' ∷ 0 ∷ x)
line_array t r l =
    let fits : length (t ++ b'\r' ∷ []) ≤ max_reply =
      omega (arith, length-append t (b'\r' ∷ []), l.fits) in
    let e = take-all max_reply (t ++ b'\r' ∷ []) fits in
    let x = drop (length ((t ++ b'\r' ∷ []) ++ 0 ∷ [])) r in
    (x, rw (e, append_assoc (t ++ b'\r' ∷ []) (0 ∷ []) x, append_assoc t (b'\r' ∷ []) (0 ∷ x)))

strip_array-line :
    (t x array : Bytes)
    → All IsPlain t
    → array ≡ t ++ b'\r' ∷ 0 ∷ x
    → (y : Bytes) × (strip_array array ≡ t ++ 0 ∷ y)
unfolding strip_array
strip_array-line t x array p e =
    let s : c_string array ≡ t ++ b'\r' ∷ [] = rw e (c_string-return t x p) in
    let k : length (t ++ b'\r' ∷ []) - length t ≡ 1 = omega (arith, length-append t (b'\r' ∷ [])) in
    let y = drop (length (t ++ 0 ∷ [])) array in
    (y, rw (s, strip-return t p, k) (append_assoc t (0 ∷ []) y))

finish_line-Got :
    (c : Conn) (t rest sent : Bytes)
    → IsLine t
    → c.is_open ≡ true
    → let done = finish_line c (t ++ b'\r' ∷ []) rest sent in Got t rest sent (done, done.fullcode)
unfolding finish_line
finish_line-Got c t rest sent l o =
    let (x, e) = line_array t (overwrite (t ++ b'\r' ∷ []) c.reply) l in
    let (y, k) = strip_array-line t x _ l.plain e in
    let n = ap atoi (ap c_string e ∙ c_string-return t x l.plain) in
    record {
      array = (y, k);
      unread = refl;
      still_open = o;
      unsent = refl;
      number = n;
      coded = refl;
      result = n;
    }

ftp_gets-open :
    (c : Conn)
    → c.is_open ≡ true
    → ftp_gets c
      ≡ after_line (record c { reply = overwrite (0 ∷ []) c.reply }) (read_line [] c.sent c.input)
unfolding ftp_gets
ftp_gets-open c o =
    let cleared = record c { reply = overwrite (0 ∷ []) c.reply } in
    ap (λ b. if b then after_line cleared (read_line [] c.sent c.input) else (cleared, negsuc 0)) o

pub ftp_gets-Got :
    (c : Conn) (t rest : Bytes)
    → IsLine t
    → c.is_open ≡ true
    → c.input ≡ wire t rest
    → Got t rest c.sent (ftp_gets c)
ftp_gets-Got c t rest l o e =
    let w = read_line-wire t [] c.sent rest l.plain (omega (arith, l.fits)) in
    let cleared = record c { reply = overwrite (0 ∷ []) c.reply } in
    let q = ftp_gets-open c o ∙ ap (after_line cleared) (ap (read_line [] c.sent) e ∙ w) in
    rw q (finish_line-Got cleared t rest c.sent l o)
