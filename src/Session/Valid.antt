-- ===== src/Session/Valid.antt =====
-- What the operations of ftp/ftp.c (under src/) keep of every session: the connection of one that is
-- logged in.
pub mod Commands
pub mod Directories
use yafc.Base.{
  ℕ, zero, suc, ◌+◌, ◌-◌, ◌*◌, ◌/◌, ◌%◌, ◌^◌, ◌≤◌, ◌<◌, ◌≡◌, refl, sym, ap, ◌∙◌, ◌≢◌, ◌↔◌, ◌⊎◌, inl,
  inr, Bool, true, false, not, ◌&&◌, ◌||◌, Option, none, some, List, [], ◌∷◌, ◌++◌, map, append-nil,
  append_assoc, arith, ltb, leb, ◌==◌, if◌then◌else◌, ltb→lt, lt→ltb, leb→le, le→leb, ==_iff,
  if-both, Bool-cases, Option-cases, some-eq, &&-true, ||-false, length, get_elem?, get_or, take,
  drop, is_nil, length-append, take-append-drop, length-take, length-drop, length-map, take-all,
  All, All-append, All-append_left, All-append_right, All-mono, Bytes, codes, IsChar, IsText,
  within, is_space, is_cntrl, is_digit, is_xdigit, to_lower, has, str_eq, starts_with, strcase_eq,
  split_at, split_last, c_string, xstrdup, xstrndup, str_eq_iff, c_string-IsText, has-ne, ℤ, pos,
  negsuc, negate, digits_value, atoi, strip_trailing_chars, take-append, drop-append, drop-drop,
  take-take, drop-all, drop-take, get_or-append,
}
use mathlib.Core.Path.{subst}
use yafc.Reply.{Conn, is_minus_one, ftp_read_reply}
use yafc.Strq.Path.{stripslash}
use yafc.Session.Directories.{is_number}
use yafc.Session.{
  Session, Client, Verbosity, vb_unset, vb_none, vb_error, vb_command, ftp_set_tmp_verbosity,
  ftp_reset_vars, ftp_connected, ftp_loggedin, with_conn, read_reply, write, no_reply, exchange,
  is_closing, reconnects, closing, second_reply, first_reply, ftp_cmd,
}

-- By `loggedin`, `connected`, whether the socket is open, and `code`.
pub record Holds (l c b : Bool) (code : ℤ) : Type 0 where
  pub loggedin_open : l ≡ true → b ≡ true
  pub open_connected : b ≡ true → c ≡ true
  pub closed_code : b ≡ false → is_number 2 code ≡ false

-- A session that is logged in has an open socket, one with an open socket is connected, and without one
-- the last code is not that of a completed command.
abbrev pub IsValid : Session → Type 0
IsValid s = Holds (s.loggedin) (s.connected) (s.conn.is_open) (s.conn.code)

-- The client does not reconnect: `ftp_reopen` is not called.
abbrev pub StaysClosed : Client → Type 0
StaysClosed o = o.auto_reconnect ≡ false

-- Another code that is not of a completed command.
coded-Holds : (l c b : Bool) (m n : ℤ) → Holds l c b m → is_number 2 n ≡ false → Holds l c b n
coded-Holds l c b m n h e = record {
  loggedin_open = h.loggedin_open;
  open_connected = h.open_connected;
  closed_code = λ x. e;
}

with_conn_if :
    (o : Client) (s : Session) (c : Conn) (b : Bool)
    → c.is_open ≡ b
    → s.connected ≡ true
    → IsValid (if b then record s { conn = c } else ftp_reset_vars o (record s { conn = c }))
unfolding ftp_reset_vars
with_conn_if o s c true e k = record {
  loggedin_open = λ x. e;
  open_connected = λ x. k;
  closed_code = λ x. absurd (let y = sym x ∙ e in ground (arith, y));
}
with_conn_if o s c false e k = record {
  loggedin_open = λ x. absurd (ground (arith, x));
  open_connected = λ x. absurd (ground (arith, x));
  closed_code = λ x. refl;
}

read_reply-IsValid : (o : Client) (s : Session) → s.connected ≡ true → IsValid ((read_reply o s).0)
unfolding read_reply
read_reply-IsValid o s k =
    let c = (ftp_read_reply s.conn).0 in
    let after = with_conn o s c in
    let valid = with_conn_if o s c (c.is_open) refl k in
    if-both IsValid (is_minus_one ((ftp_read_reply s.conn).1)) after
      (record after { tmp_verbosity = vb_unset }) valid valid

-- The second choice is taken of an open connection only.
pick :
    (b e : Bool) (x y : Session × ℤ × Bool)
    → IsValid (x.0)
    → (b ≡ true → IsValid (y.0))
    → IsValid ((if not b || e then x else y).0)
pick false e x y h k = h
pick true false x y h k = k refl
pick true true x y h k = h

exchange-IsValid :
    (o : Client) (cmd : Bytes) (s : Session) → IsValid s → IsValid ((exchange o cmd s).0)
unfolding exchange
exchange-IsValid o cmd s h =
    let w = write cmd s in
    let silent = coded-Holds _ _ _ _ (pos 0) h refl in
    pick (s.conn.is_open) (o.stream_error (w.conn.sent)) (no_reply w, negsuc 0, false)
      ((read_reply o w).0, (read_reply o w).1, true) silent
      (λ e. read_reply-IsValid o w (h.open_connected e))

second_reply-IsValid :
    (o : Client) (cmd : Bytes) (x : Session × ℤ × Bool)
    → IsValid (x.0)
    → IsValid ((second_reply o cmd x).0)
unfolding second_reply
second_reply-IsValid o cmd (s, r, replied) h =
    if-both (λ (y : Session × ℤ). IsValid (y.0))
      (replied && is_closing r && not (reconnects o cmd s)) (closing s, negsuc 0) (s, r)
      (coded-Holds _ _ _ _ (pos 4) h refl) h

first_reply-IsValid :
    (o : Client) (cmd : Bytes) (x : Session × ℤ × Bool)
    → StaysClosed o
    → IsValid (x.0)
    → IsValid ((first_reply o cmd x).0)
unfolding first_reply
first_reply-IsValid o cmd (s, r, replied) stays h =
    let valid = λ (y : Session × ℤ). IsValid (y.0) in
    let closed = coded-Holds _ _ _ _ (pos 4) h refl in
    let again = second_reply o cmd (exchange o cmd (o.reopen s)) in
    let stop : Session × ℤ = (closing s, negsuc 0) in
    let choice = λ (b : Bool).
      if b && ftp_loggedin s && not (strcase_eq cmd (codes "QUIT")) then again else stop in
    if-both valid (replied && is_closing r) (if reconnects o cmd s then again else stop) (s, r)
      (subst valid (sym (ap choice stays)) closed) h

pub ftp_cmd-IsValid :
    (o : Client) (cmd : Bytes) (s : Session)
    → StaysClosed o
    → IsValid s
    → IsValid ((ftp_cmd o cmd s).0)
unfolding ftp_cmd
ftp_cmd-IsValid o cmd s stays h =
    let replied = first_reply-IsValid o cmd _ stays (exchange-IsValid o cmd s h) in
    if-both (λ (y : Session × ℤ). IsValid (y.0)) (s.conn.is_open)
      (first_reply o cmd (exchange o cmd s)) (no_reply s, negsuc 0) replied
      (coded-Holds _ _ _ _ (pos 0) h refl)
