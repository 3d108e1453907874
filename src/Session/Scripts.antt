-- ===== src/Session/Scripts.antt =====
-- A server that goes on answering the commands of ftp/ftp.c (under src/).
use yafc.Base.{◌/◌, ◌≡◌, true, false, List, [], ◌∷◌, ◌++◌, ◌==◌, All, Bytes, c_string, pos}
use yafc.Reply.{Conn}
use yafc.Reply.Code.{Code, value, reply_line}
use yafc.Reply.Single.{IsLine, wire}
use yafc.Session.{Session, Client, ftp_cmd}
use yafc.Session.Exchange.{Answers, crlf, answered_with, ftp_cmd-Answered}

-- The answers of a server, by their numbers and texts.
abbrev pub answers_wire : List (Code × Bytes) → Bytes → Bytes
answers_wire [] rest = rest
answers_wire (x ∷ xs) rest = wire (reply_line (x.0) b' ' (x.1)) (answers_wire xs rest)

abbrev pub IsAnswer : Code × Bytes → Type 0
IsAnswer x = IsLine (reply_line (x.0) b' ' (x.1)) × ((value (x.0) == 421) ≡ false)

pub record Script (o : Client) (xs : List (Code × Bytes)) (rest : Bytes) (c : Conn) : Type 0 where
  pub open_conn : c.is_open ≡ true
  pub incoming : c.input ≡ answers_wire xs rest
  pub answers : All IsAnswer xs
  pub no_error : (sent : Bytes) → o.stream_error sent ≡ false

-- The first answer goes to the first command.
pub first-Answers :
    (o : Client) (x : Code × Bytes) (xs : List (Code × Bytes)) (rest cmd : Bytes) (s : Session)
    → Script o (x ∷ xs) rest (s.conn)
    → Answers o cmd (x.0) (x.1) (answers_wire xs rest) s
first-Answers o x xs rest cmd s h = record {
  is_line = h.answers.0.0;
  open_conn = h.open_conn;
  incoming = h.incoming;
  no_error = h.no_error (s.conn.sent ++ cmd ++ crlf);
  not_closing = h.answers.0.1;
}

-- What the first answer leaves, and the rest of the script.
pub record Next (o : Client) (cmd : Bytes) (x : Code × Bytes) (xs : List (Code × Bytes))
    (rest : Bytes) (s : Session) : Type 0 where
  pub after : Conn
  pub state : (ftp_cmd o cmd s).0 ≡ answered_with after s
  pub script : Script o xs rest after
  pub wrote : after.sent ≡ s.conn.sent ++ cmd ++ crlf
  pub text : c_string after.reply ≡ reply_line (x.0) b' ' (x.1)
  pub number : after.fullcode ≡ pos (value (x.0))
  pub coded : after.code ≡ pos (value (x.0) / 100)

pub next :
    (o : Client) (cmd : Bytes) (x : Code × Bytes) (xs : List (Code × Bytes)) (rest : Bytes)
    (s : Session)
    → Script o (x ∷ xs) rest (s.conn)
    → Next o cmd x xs rest s
next o cmd x xs rest s h =
    let a =
      ftp_cmd-Answered o cmd (x.0) (x.1) (answers_wire xs rest) s
        (first-Answers o x xs rest cmd s h) in
    record {
      after = a.after;
      state = a.kept;
      script = record {
        open_conn = a.still_open;
        incoming = a.unread;
        answers = h.answers.1;
        no_error = h.no_error;
      };
      wrote = a.wrote;
      text = a.text;
      number = a.number;
      coded = a.coded;
    }
