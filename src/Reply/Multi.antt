-- ===== src/Reply/Multi.antt =====
-- A whole reply, as `ftp_read_reply` of ftp/ftp.c (under src/) takes it from the connection.
use yafc.Base.{
  ℕ, zero, suc, ◌+◌, ◌≤◌, ◌<◌, ◌≡◌, refl, sym, ap, ◌∙◌, true, false, not, ◌&&◌, List, [], ◌∷◌, ◌++◌,
  arith, ◌==◌, if◌then◌else◌, length, get_or, take, length-append, All, Bytes, str_eq, starts_with,
  c_string, pos, negsuc, atoi,
}
use yafc.Reply.{Conn, ftp_gets, is_minus_one, is_last, read_lines, mark, ftp_read_reply}
use yafc.Reply.Code.{Code, value, reply_line, atoi-reply_line}
use yafc.Reply.Single.{IsPlain, IsLine, wire, Got, ftp_gets-Got}

abbrev pub wires : List Bytes → Bytes → Bytes
wires [] rest = rest
wires (m ∷ ms) rest = wire m (wires ms rest)

-- A line between the first and the last one.
pub record IsMiddle (n : Code) (m : Bytes) : Type 0 where
  pub is_line : IsLine m
  pub not_last : starts_with (reply_line n b' ' []) m ≡ false
  pub not_error : is_minus_one (atoi (m ++ b'\r' ∷ [])) ≡ false

-- The test for the last line looks at no more than the line.
str_eq-starts_with :
    (p m x : Bytes)
    → All IsPlain m
    → str_eq p (c_string (take (length p) (m ++ 0 ∷ x))) ≡ starts_with p m
unfolding str_eq starts_with c_string
str_eq-starts_with [] m x h = refl
str_eq-starts_with (a ∷ p) [] x h = refl
str_eq-starts_with (a ∷ p) (c ∷ m) x h =
    rw (h.0.not_null) (ap (◌&&◌ (a == c)) (str_eq-starts_with p m x h.1))

starts_with_self : (p s : Bytes) → starts_with p (p ++ s) ≡ true
unfolding starts_with
starts_with_self [] s = refl
starts_with_self (a ∷ p) s = let e : (a == a) ≡ true = ground arith in rw (e, starts_with_self p s)

read_lines-last :
    (f : ℕ) (tmp : Bytes) (c : Conn)
    → is_minus_one ((ftp_gets c).1) ≡ false
    → is_last tmp ((ftp_gets c).0) ≡ true
    → read_lines (suc f) tmp c ≡ (ftp_gets c).0
unfolding read_lines
read_lines-last f tmp c h k = rw (h, k)

read_lines-middle :
    (f : ℕ) (tmp : Bytes) (c : Conn)
    → is_minus_one ((ftp_gets c).1) ≡ false
    → is_last tmp ((ftp_gets c).0) ≡ false
    → read_lines (suc f) tmp c ≡ read_lines f tmp ((ftp_gets c).0)
unfolding read_lines
read_lines-middle f tmp c h k = rw (h, k)

c_string-mark : (n : Code) → c_string (reply_line n b' ' []) ≡ reply_line n b' ' []
unfolding c_string
c_string-mark n =
    let e : ((b'0' + n.first) == 0) ≡ false = ground arith in
    let f : ((b'0' + n.second) == 0) ≡ false = ground arith in
    let g : ((b'0' + n.third) == 0) ≡ false = ground arith in rw (e, f, g)

is_last-Got :
    (n : Code) (c : Conn) (m x : Bytes)
    → All IsPlain m
    → c.reply ≡ m ++ 0 ∷ x
    → is_last (reply_line n b' ' []) c ≡ starts_with (reply_line n b' ' []) m
is_last-Got n c m x p e =
    ap (λ s. str_eq s (c_string (take 4 c.reply))) (c_string-mark n)
    ∙ ap (λ r. str_eq (reply_line n b' ' []) (c_string (take 4 r))) e
    ∙ str_eq-starts_with (reply_line n b' ' []) m x p

read_lines-Got :
    (f : ℕ) (n : Code) (ms : List Bytes) (v rest : Bytes) (c : Conn)
    → length ms < f
    → All (IsMiddle n) ms
    → IsLine (reply_line n b' ' v)
    → c.is_open ≡ true
    → c.input ≡ wires ms (wire (reply_line n b' ' v) rest)
    → let after = read_lines f (reply_line n b' ' []) c in
      Got (reply_line n b' ' v) rest c.sent (after, after.fullcode)
read_lines-Got zero n ms v rest c h p l o e = absurd (omega arith)
read_lines-Got (suc f) n [] v rest c h p l o e =
    let t = reply_line n b' ' v in
    let got = ftp_gets-Got c t rest l o e in
    let fine : is_minus_one (ftp_gets c).1 ≡ false =
      ap is_minus_one (got.result ∙ atoi-reply_line n b' ' (v ++ b'\r' ∷ []) refl) in
    let final : is_last (reply_line n b' ' []) (ftp_gets c).0 ≡ true =
      is_last-Got n (ftp_gets c).0 t got.array.0 l.plain got.array.1
      ∙ starts_with_self (reply_line n b' ' []) v in
    let q = read_lines-last f (reply_line n b' ' []) c fine final in
    rw q record {
      array = got.array;
      unread = got.unread;
      still_open = got.still_open;
      unsent = got.unsent;
      number = got.number;
      coded = got.coded;
      result = got.number;
    }
read_lines-Got (suc f) n (m ∷ ms) v rest c h p l o e =
    let mid = p.0 in
    let below = wires ms (wire (reply_line n b' ' v) rest) in
    let got = ftp_gets-Got c m below mid.is_line o e in
    let fine : is_minus_one (ftp_gets c).1 ≡ false = ap is_minus_one got.result ∙ mid.not_error in
    let more : is_last (reply_line n b' ' []) (ftp_gets c).0 ≡ false =
      is_last-Got n (ftp_gets c).0 m got.array.0 mid.is_line.plain got.array.1 ∙ mid.not_last in
    let q = read_lines-middle f (reply_line n b' ' []) c fine more in
    let next = (ftp_gets c).0 in
    let ih = read_lines-Got f n ms v rest next (omega arith) p.1 l got.still_open got.unread in
    rw q record {
      array = ih.array;
      unread = ih.unread;
      still_open = ih.still_open;
      unsent = ih.unsent ∙ got.unsent;
      number = ih.number;
      coded = ih.coded;
      result = ih.result;
    }

read_reply-one :
    (c : Conn)
    → (ftp_gets c).0.is_open ≡ true
    → is_minus_one (ftp_gets c).1 ≡ false
    → (get_or (ftp_gets c).0.reply 3 0 == b'-') ≡ false
    → ftp_read_reply c ≡ ftp_gets c
unfolding ftp_read_reply
read_reply-one c o m d =
    let first = (ftp_gets c).0 in
    let r = (ftp_gets c).1 in
    rw (m, d) (ap (λ b. if not b then (first, negsuc 0) else (first, r)) o)

read_reply-more :
    (c : Conn)
    → (ftp_gets c).0.is_open ≡ true
    → is_minus_one (ftp_gets c).1 ≡ false
    → (get_or (ftp_gets c).0.reply 3 0 == b'-') ≡ true
    → let first = (ftp_gets c).0 in
      ftp_read_reply c ≡ (read_lines (length first.input + 1) (mark first) first, (ftp_gets c).1)
unfolding ftp_read_reply
read_reply-more c o m d =
    let first = (ftp_gets c).0 in
    let r = (ftp_gets c).1 in
    let whole = read_lines (length first.input + 1) (mark first) first in
    rw (m, d) (ap (λ b. if not b then (first, negsuc 0) else (whole, r)) o)

-- On an open connection whose input starts with a line `ddd text` that fits the reply, the reply
-- is that line, its number is the result, and what stands behind it is left to read.
pub ftp_read_reply-single :
    (c : Conn) (n : Code) (v rest : Bytes)
    → IsLine (reply_line n b' ' v)
    → c.is_open ≡ true
    → c.input ≡ wire (reply_line n b' ' v) rest
    → Got (reply_line n b' ' v) rest c.sent (ftp_read_reply c)
      × ((ftp_read_reply c).1 ≡ pos (value n))
ftp_read_reply-single c n v rest l o e =
    let t = reply_line n b' ' v in
    let got = ftp_gets-Got c t rest l o e in
    let number : (ftp_gets c).1 ≡ pos (value n) =
      got.result ∙ atoi-reply_line n b' ' (v ++ b'\r' ∷ []) refl in
    let blank = ap (λ r. get_or r 3 0 == b'-') got.array.1 in
    let q = read_reply-one c got.still_open (ap is_minus_one number) blank in rw q (got, number)

length-wires : (ms : List Bytes) (rest : Bytes) → length ms ≤ length (wires ms rest)
length-wires [] rest = omega arith
length-wires (m ∷ ms) rest =
    omega (arith, length-wires ms rest, length-append m (b'\r' ∷ b'\n' ∷ wires ms rest))

-- On an open connection whose input starts with a line `ddd-text`, lines that neither start with
-- the same number and a space nor read as -1, and a line `ddd text`, each of which fits the reply,
-- the reply is the last of these lines, the number is the result, and what stands behind the last
-- line is left to read.
pub ftp_read_reply-multi :
    (c : Conn) (n : Code) (u : Bytes) (ms : List Bytes) (v rest : Bytes)
    → IsLine (reply_line n b'-' u)
    → All (IsMiddle n) ms
    → IsLine (reply_line n b' ' v)
    → c.is_open ≡ true
    → c.input ≡ wire (reply_line n b'-' u) (wires ms (wire (reply_line n b' ' v) rest))
    → Got (reply_line n b' ' v) rest c.sent (ftp_read_reply c)
      × ((ftp_read_reply c).1 ≡ pos (value n))
ftp_read_reply-multi c n u ms v rest k p l o e =
    let t = reply_line n b'-' u in
    let below = wires ms (wire (reply_line n b' ' v) rest) in
    let got = ftp_gets-Got c t below k o e in
    let number : (ftp_gets c).1 ≡ pos (value n) =
      got.result ∙ atoi-reply_line n b'-' (u ++ b'\r' ∷ []) refl in
    let dash = ap (λ r. get_or r 3 0 == b'-') got.array.1 in
    let q = read_reply-more c got.still_open (ap is_minus_one number) dash in
    let first = (ftp_gets c).0 in
    let fuel : length ms < length first.input + 1 =
      omega (arith, ap length got.unread, length-wires ms (wire (reply_line n b' ' v) rest)) in
    let tmp : mark first ≡ reply_line n b' ' [] = ap (λ r. take 3 r ++ b' ' ∷ []) got.array.1 in
    let f = length first.input + 1 in
    let whole = read_lines-Got f n ms v rest first fuel p l got.still_open got.unread in
    let same = atoi-reply_line n b' ' (v ++ b'\r' ∷ []) refl in
    rw (q, tmp)
      (
        record {
          array = whole.array;
          unread = whole.unread;
          still_open = whole.still_open;
          unsent = whole.unsent ∙ got.unsent;
          number = whole.number;
          coded = whole.coded;
          result = number ∙ sym same;
        },
        number,
      )
