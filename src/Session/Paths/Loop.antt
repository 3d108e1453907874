-- ===== src/Session/Paths/Loop.antt =====
-- The loop of `ftp_mkpath` of ftp/ftp.c (under src/).
use yafc.Base.{◌≡◌, Bool, some, List, ◌++◌, Bytes}
use yafc.Strq.Scan.{split_all}
use yafc.Strq.Quote.{unquote}
use yafc.Strq.Path.{path_collapse}
use yafc.Reply.Code.{Code}
use yafc.Session.{Session, Client}
use yafc.Session.Marks.{ftp_path_absolute}
use yafc.Session.Paths.{root_of}
use yafc.Session.Paths.Create.{prefixes, wanted, mkd_commands, last_done, Created}

record Finished (o : Client) (es : List Bytes) (xs : List (Code × Bytes)) (rest : Bytes)
    (s : Session) (made : Bool) (y : Session × Bool) : Type 0 where
  created : Created es rest s (y.0)
  flag : y.1 ≡ last_done made xs

-- The paths that `ftp_mkpath` is to create.
abbrev pub wanted_for : Bytes → Session → List Bytes
wanted_for path s =
    let p = unquote (path_collapse path) in
    wanted (s.last_mkpath) (s.curdir) (prefixes (root_of p) (split_all b'/' p))

pub record Made (o : Client) (path rest : Bytes) (s t : Session) : Type 0 where
  pub wrote : t.conn.sent ≡ s.conn.sent ++ mkd_commands (wanted_for path s)
  pub unread : t.conn.input ≡ rest
  pub curdir : t.curdir ≡ s.curdir
  pub last_mkpath : t.last_mkpath ≡ ftp_path_absolute o (some path) s
