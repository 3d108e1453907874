-- ===== src/Session/Exchange.antt =====
-- A command and its reply, as `ftp_cmd` of ftp/ftp.c (under src/) exchanges them.
use yafc.Base.{
  ℕ, ◌/◌, ◌≡◌, refl, ap, ◌∙◌, Bool, true, false, not, ◌||◌, [], ◌∷◌, ◌++◌, ◌==◌, if◌then◌else◌, All,
  Bytes, codes, c_string, ℤ, pos, negsuc,
}
use yafc.Reply.{Conn, is_minus_one, hundreds, ftp_read_reply}
use yafc.Reply.Code.{Code, value, reply_line}
use yafc.Reply.Single.{IsPlain, IsLine, wire}
use yafc.Reply.Code.{atoi-reply_line}
use yafc.Reply.Multi.{ftp_read_reply-single}
use yafc.Session.{
  Session, Client, Verbosity, vb_unset, ftp_set_tmp_verbosity, with_conn, read_reply, is_closing,
  no_reply, exchange, first_reply, ftp_cmd, ftp_reset_vars,
}

abbrev pub crlf : Bytes
crlf = codes "\r\n"

-- What a command that is answered with the line, of the number `n`, leaves behind.
pub record Answered (cmd line rest : Bytes) (n : ℕ) (s : Session) (x : Session × ℤ) : Type 0 where
  pub after : Conn
  pub kept : x.0 ≡ record s { conn = after; tmp_verbosity = vb_unset }
  pub text : c_string after.reply ≡ line
  pub unread : after.input ≡ rest
  pub wrote : after.sent ≡ s.conn.sent ++ cmd ++ crlf
  pub still_open : after.is_open ≡ true
  pub number : after.fullcode ≡ pos n
  pub coded : after.code ≡ pos (n / 100)
  pub result : x.1 ≡ pos n

-- A server that answers the next command with the line `n text`, on a connection that carries it.
pub record Answers (o : Client) (cmd : Bytes) (n : Code) (text rest : Bytes) (s : Session)
    : Type 0 where
  pub is_line : IsLine (reply_line n b' ' text)
  pub open_conn : s.conn.is_open ≡ true
  pub incoming : s.conn.input ≡ wire (reply_line n b' ' text) rest
  pub no_error : o.stream_error (s.conn.sent ++ cmd ++ crlf) ≡ false
  pub not_closing : (value n == 421) ≡ false

line_string : (t x : Bytes) → All IsPlain t → c_string (t ++ 0 ∷ x) ≡ t
unfolding c_string
line_string [] x h = refl
line_string (c ∷ t) x h = rw (h.0.not_null) (ap (◌∷◌ c) (line_string t x h.1))

read_reply-open :
    (o : Client) (s : Session)
    → (ftp_read_reply s.conn).0.is_open ≡ true
    → is_minus_one ((ftp_read_reply s.conn).1) ≡ false
    → read_reply o s ≡ (
      record s { conn = (ftp_read_reply s.conn).0; tmp_verbosity = vb_unset },
      (ftp_read_reply s.conn).1,
    )
unfolding read_reply
read_reply-open o s h k =
    let c = (ftp_read_reply s.conn).0 in
    let r = (ftp_read_reply s.conn).1 in
    let with =
      λ (b : Bool). if b then record s { conn = c } else ftp_reset_vars o (record s { conn = c }) in
    let unset =
      λ (a : Session) (b : Bool). if b then a else record a { tmp_verbosity = vb_unset } in
    ap {B = Session × ℤ} (λ b. (unset (with_conn o s c) b, r)) k
    ∙ ap {B = Session × ℤ} (λ b. (unset (with b) false, r)) h

-- The session with the command written.
abbrev pub sent_to : Bytes → Session → Session
sent_to cmd s = record s { conn = record (s.conn) { sent = s.conn.sent ++ cmd ++ crlf } }

-- `exchange` by whether the connection is open and the stream has an error.
abbrev exchange_if : Client → Session → Bool → Bool → Session × ℤ × Bool
exchange_if o w is_open error =
    let x = read_reply o w in
    if not is_open || error then (no_reply w, negsuc 0, false) else (x.0, x.1, true)

exchange-open :
    (o : Client) (cmd : Bytes) (s : Session)
    → s.conn.is_open ≡ true
    → o.stream_error (s.conn.sent ++ cmd ++ crlf) ≡ false
    → let x = read_reply o (sent_to cmd s) in exchange o cmd s ≡ (x.0, x.1, true)
unfolding exchange
exchange-open o cmd s h k =
    let sent = s.conn.sent ++ cmd ++ crlf in
    let written = λ (b : Bool). record s {
      conn = record (s.conn) { sent = if b then sent else s.conn.sent };
    } in
    let full = exchange_if o in
    let x = read_reply o (sent_to cmd s) in
    ap (λ b. full (written b) b (o.stream_error ((written b).conn.sent))) h
    ∙ ap (full (sent_to cmd s) true) k

pub ftp_cmd-open :
    (o : Client) (cmd : Bytes) (s : Session)
    → s.conn.is_open ≡ true
    → ftp_cmd o cmd s ≡ first_reply o cmd (exchange o cmd s)
unfolding ftp_cmd
ftp_cmd-open o cmd s h =
    ap (λ b. if b then first_reply o cmd (exchange o cmd s) else (no_reply s, negsuc 0)) h

pub first_reply-not_closing :
    (o : Client) (cmd : Bytes) (s : Session) (r : ℤ)
    → is_closing r ≡ false
    → first_reply o cmd (s, r, true) ≡ (s, r)
unfolding first_reply
first_reply-not_closing o cmd s r h = rw h refl

-- A command that a server answers with a line other than 421, on an open connection, is sent once, with
-- its line end; the reply is read whole, its number is the result, and nothing of the state outside the
-- connection changes but the temporary verbosity, which is unset.
pub ftp_cmd-Answered :
    (o : Client) (cmd : Bytes) (n : Code) (v rest : Bytes) (s : Session)
    → Answers o cmd n v rest s
    → Answered cmd (reply_line n b' ' v) rest (value n) s (ftp_cmd o cmd s)
ftp_cmd-Answered o cmd n v rest s h =
    let line = reply_line n b' ' v in
    let t = sent_to cmd s in
    let (got, number) = ftp_read_reply-single t.conn n v rest h.is_line h.open_conn h.incoming in
    let x = ftp_read_reply t.conn in
    let after : Session = record s { conn = x.0; tmp_verbosity = vb_unset } in
    let read : read_reply o t ≡ (after, x.1) =
      read_reply-open o t got.still_open (ap is_minus_one number) in
    let e : ftp_cmd o cmd s ≡ (after, x.1) =
      ftp_cmd-open o cmd s h.open_conn
      ∙ ap (first_reply o cmd) (exchange-open o cmd s h.open_conn h.no_error)
      ∙ ap (λ (y : Session × ℤ). first_reply o cmd (y.0, y.1, true)) read
      ∙ first_reply-not_closing o cmd after (x.1) (ap is_closing number ∙ h.not_closing) in
    let full : x.0.fullcode ≡ pos (value n) =
      got.number ∙ atoi-reply_line n b' ' (v ++ b'\r' ∷ []) refl in
    rw e record {
      after = x.0;
      kept = refl;
      text = ap c_string (got.array.1) ∙ line_string line (got.array.0) (h.is_line.plain);
      unread = got.unread;
      wrote = got.unsent;
      still_open = got.still_open;
      number = full;
      coded = got.coded ∙ unfold hundreds in ap hundreds full;
      result = number;
    }

-- The verbosity has no part in it.
pub quietly :
    (o : Client) (cmd : Bytes) (n : Code) (text rest : Bytes) (s : Session) (v : Verbosity)
    → Answers o cmd n text rest s
    → Answers o cmd n text rest (ftp_set_tmp_verbosity v s)
unfolding ftp_set_tmp_verbosity
quietly o cmd n text rest s v h = record {
  is_line = h.is_line;
  open_conn = h.open_conn;
  incoming = h.incoming;
  no_error = h.no_error;
  not_closing = h.not_closing;
}

-- The state that an answered command leaves.
abbrev pub answered_with : Conn → Session → Session
answered_with c s = record s { conn = c; tmp_verbosity = vb_unset }

-- The next line of the same server.
pub next-Answers :
    (o : Client) (cmd line : Bytes) (m : ℕ) (next : Bytes) (n : Code) (text rest : Bytes)
    (s : Session) (x : Session × ℤ)
    → (a : Answered cmd line (wire (reply_line n b' ' text) rest) m s x)
    → IsLine (reply_line n b' ' text)
    → o.stream_error ((s.conn.sent ++ cmd ++ crlf) ++ next ++ crlf) ≡ false
    → (value n == 421) ≡ false
    → Answers o next n text rest (answered_with a.after s)
next-Answers o cmd line m next n text rest s x a l e k = record {
  is_line = l;
  open_conn = a.still_open;
  incoming = a.unread;
  no_error = ap (λ b. o.stream_error (b ++ next ++ crlf)) a.wrote ∙ e;
  not_closing = k;
}
