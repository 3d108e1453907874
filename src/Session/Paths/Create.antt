-- ===== src/Session/Paths/Create.antt =====
-- The commands that `ftp_mkpath` of ftp/ftp.c (under src/) sends to a server that goes on answering.
use yafc.Base.{
  ◌/◌, ◌≡◌, refl, ap, ◌∙◌, Bool, true, false, ◌||◌, Option, some, List, [], ◌∷◌, ◌++◌, ◌==◌,
  if◌then◌else◌, if-both, Bytes, codes, str_eq, ℤ, pos, negsuc,
}
use yafc.Strq.Path.{stripslash}
use yafc.Reply.{Conn}
use yafc.Reply.Code.{Code, value}
use yafc.Session.{Session, Client, Verbosity, vb_unset, vb_none, ftp_set_tmp_verbosity, ftp_cmd}
use yafc.Session.Exchange.{Answers, crlf, answered_with, quietly, ftp_cmd-Answered}
use yafc.Session.Marks.{ftp_path_absolute, add_mark, ftp_cache_flush_mark_for}
use yafc.Session.Marks.Flush.{holder, mark_for-holder}
use yafc.Session.Directories.{is_number, completed}
use yafc.Session.Commands.{status, marking, ftp_mkdir_verb}
use yafc.Session.Paths.{is_created, longer, mkpath_step}

-- The paths that the loop goes through.
abbrev pub prefixes : Option Bytes → List Bytes → List Bytes
prefixes e [] = []
prefixes e (name ∷ names) = longer e name ∷ prefixes (some (longer e name)) names

abbrev pub is_skipped : Bytes → Option Bytes → Bytes → Bool
is_skipped e last_mkpath curdir = is_created e last_mkpath curdir || str_eq e (codes ".")

-- Those that are to be created.
abbrev pub wanted : Option Bytes → Bytes → List Bytes → List Bytes
wanted last curdir [] = []
wanted last curdir (e ∷ es) =
    if is_skipped e last curdir then wanted last curdir es else e ∷ wanted last curdir es

abbrev pub mkd_command : Bytes → Bytes
mkd_command e = codes "MKD " ++ stripslash e

abbrev pub mkd_commands : List Bytes → Bytes
mkd_commands [] = []
mkd_commands (e ∷ es) = (mkd_command e ++ crlf) ++ mkd_commands es

abbrev pub is_done : Code × Bytes → Bool
is_done x = value (x.0) / 100 == 2

-- Whether the last command was carried out; `made` if there was none.
abbrev pub last_done : Bool → List (Code × Bytes) → Bool
last_done made [] = made
last_done made (x ∷ xs) = last_done (is_done x) xs

-- What creating the paths `es` leaves of the session.
pub record Created (es : List Bytes) (rest : Bytes) (s t : Session) : Type 0 where
  pub wrote : t.conn.sent ≡ s.conn.sent ++ mkd_commands es
  pub unread : t.conn.input ≡ rest
  pub still_open : t.conn.is_open ≡ true
  pub curdir : t.curdir ≡ s.curdir
  pub homedir : t.homedir ≡ s.homedir
  pub last_mkpath : t.last_mkpath ≡ s.last_mkpath

-- The session behind one MKD command.
abbrev pub behind_mkd : Client → Bytes → Bool → Conn → Session → Session
behind_mkd o p done c s = record s {
  conn = c;
  tmp_verbosity = vb_unset;
  dirs_to_flush = if done then add_mark (holder o p s) (s.dirs_to_flush) else s.dirs_to_flush;
}

status-state : (t : Session) → (status t).0 ≡ t
unfolding status
status-state t =
    if-both (λ (x : Session × ℤ). x.0 ≡ t) (completed t) (t, pos 0) (t, negsuc 0) refl refl

mark_if :
    (o : Client) (p : Bytes) (done : Bool) (c : Conn) (s : Session)
    → (if done then ftp_cache_flush_mark_for o p (answered_with c s) else answered_with c s)
      ≡ behind_mkd o p done c s
unfolding ftp_path_absolute
mark_if o p true c s = mark_for-holder o p (answered_with c s)
mark_if o p false c s = refl

mkdir_verb-Answered :
    (o : Client) (path text rest : Bytes) (n : Code) (v : Verbosity) (s : Session)
    → Answers o (mkd_command path) n text rest s
    → (c : Conn) × ((ftp_mkdir_verb o path v s).0
        ≡ behind_mkd o (stripslash path) (value n / 100 == 2) c s)
      × (c.sent ≡ s.conn.sent ++ mkd_command path ++ crlf)
      × (c.input ≡ rest)
      × (c.is_open ≡ true)
      × (c.code ≡ pos (value n / 100))
unfolding ftp_mkdir_verb ftp_set_tmp_verbosity
mkdir_verb-Answered o path text rest n v s h =
    let p = stripslash path in
    let start = ftp_set_tmp_verbosity v s in
    let a =
      ftp_cmd-Answered o (mkd_command path) n text rest start
        (quietly o (mkd_command path) n text rest s v h) in
    let t = answered_with a.after start in
    let mark = ftp_cache_flush_mark_for o p in
    let run =
      status-state (marking mark (ftp_cmd o (mkd_command path) start).0)
      ∙ ap (marking mark) a.kept
      ∙ ap (λ c. if is_number 2 c then mark t else t) a.coded
      ∙ mark_if o p (value n / 100 == 2) (a.after) s in
    (a.after, run, a.wrote, a.unread, a.still_open, a.coded)

-- One round for a path that is created.
pub mkpath_step-wanted :
    (o : Client) (e text rest : Bytes) (n : Code) (s : Session) (made : Bool)
    → Answers o (mkd_command e) n text rest s
    → is_skipped e (s.last_mkpath) (s.curdir) ≡ false
    → (c : Conn) × (mkpath_step o e (s, made)
        ≡ (behind_mkd o (stripslash e) (value n / 100 == 2) c s, value n / 100 == 2))
      × (c.sent ≡ s.conn.sent ++ mkd_command e ++ crlf)
      × (c.input ≡ rest)
      × (c.is_open ≡ true)
unfolding mkpath_step
mkpath_step-wanted o e text rest n s made h k =
    let (c, run, w, u, p, code) = mkdir_verb-Answered o e text rest n vb_none s h in
    let x = (ftp_mkdir_verb o e vb_none s).0 in
    let t = behind_mkd o (stripslash e) (value n / 100 == 2) c s in
    let step : mkpath_step o e (s, made) ≡ (t, value n / 100 == 2) =
      ap {B = Session × Bool} (λ b. if b then (s, made) else (x, completed x)) k
      ∙ ap {B = Session × Bool} (λ y. (y, completed y)) run
      ∙ ap {B = Session × Bool} (λ d. (t, is_number 2 d)) code in
    (c, step, w, u, p)

pub mkpath_step-skipped :
    (o : Client) (e : Bytes) (s : Session) (made : Bool)
    → is_skipped e (s.last_mkpath) (s.curdir) ≡ true
    → mkpath_step o e (s, made) ≡ (s, made)
unfolding mkpath_step
mkpath_step-skipped o e s made k =
    let x = (ftp_mkdir_verb o e vb_none s).0 in
    ap {B = Session × Bool} (λ b. if b then (s, made) else (x, completed x)) k
