-- ===== src/Tests/Sessions.antt =====
-- Sessions with a sample server.
use yafc.Base.{
  ℕ, ◌<◌, ◌≡◌, refl, ◌↔◌, true, false, none, some, List, [], ◌∷◌, arith, ◌==◌, if◌then◌else◌,
  length, is_nil, Bytes, codes, has, str_eq, pos,
}
use yafc.Strq.Path.{stripslash, strip_last}
use yafc.Reply.{zeros}
use yafc.Reply.Code.{Code, value, reply_line}
use yafc.Reply.Single.{IsLine, wire}
use yafc.Session.{Session, Client, vb_unset, vb_command, all_features, ftp_cmd}
use yafc.Session.Exchange.{Answered, Answers, ftp_cmd-Answered}
use yafc.Session.Scripts.{answers_wire}
use yafc.Session.Marks.{is_marked, ftp_cache_flush, cache_find}
use yafc.Session.Marks.Flush.{IsDistinct, ftp_cache_flush-find}
use yafc.Session.Directories.{ftp_chdir}
use yafc.Session.Directories.Change.{code_250, by_troll, Changed, ftp_chdir-Names}
use yafc.Strq.Path.Resolve.{IsPart}
use yafc.Session.Commands.Holders.{Holder, resolved, in_path, in_current}
use yafc.Session.Commands.{ftp_rename}
use yafc.Session.Commands.Rename.{Renamed, ftp_rename-Renamed}
use yafc.Session.Paths.{ftp_path_part_of}
use yafc.Session.Paths.Parts.{IsWithin, ftp_path_part_of-IsWithin}
use yafc.Url.{url_create}
use yafc.Url.Parse.{url_parse}
use yafc.Url.Parse.RoundTrip.{Address, url_text, filled, url_parse-text}
use yafc.Tests.{every, is_plain, plains, texts}

abbrev pub sample_client : Client
sample_client = record {
  auto_reconnect = false;
  command_timeout = 42;
  cache_timeout = 0;
  reopen = λ s. s;
  stream_error = λ sent. false;
  getpwnam = λ user. none;
  own_dir = none;
}

-- A session at /home that is to read these bytes.
abbrev pub session_with : Bytes → Session
session_with input = record {
  conn = record {
    input = input;
    sent = [];
    is_open = true;
    reply = zeros 513;
    fullcode = pos 0;
    code = pos 0;
  };
  connected = true;
  loggedin = true;
  features = all_features;
  verbosity = vb_command;
  tmp_verbosity = vb_unset;
  reply_timeout = 42;
  prev_type = b'?';
  homedir = some (codes "/home");
  curdir = codes "/home";
  prevdir = none;
  last_mkpath = none;
  dirs_to_flush = [];
  cache = [];
}

abbrev pub fits : (s : Bytes) → every is_plain s ≡ true → length s < 512 → IsLine s
fits s p h = record { plain = plains s p; fits = h }

abbrev pub number : (a b c : ℕ) → a < 10 → b < 10 → c < 10 → Code
number a b c h k l = record {
  first = a;
  second = b;
  third = c;
  first_fits = h;
  second_fits = k;
  third_fits = l;
}

abbrev pub code_350 : Code
code_350 = number 3 5 0 (omega arith) (omega arith) (omega arith)

abbrev pub code_257 : Code
code_257 = number 2 5 7 (omega arith) (omega arith) (omega arith)

abbrev pub code_550 : Code
code_550 = number 5 5 0 (omega arith) (omega arith) (omega arith)

-- One answer to a command.
abbrev answering :
    (cmd : Bytes) (n : Code) (text rest : Bytes)
    → IsLine (reply_line n b' ' text)
    → (value n == 421) ≡ false
    → Answers sample_client cmd n text rest (session_with (wire (reply_line n b' ' text) rest))
answering cmd n text rest l h = record {
  is_line = l;
  open_conn = refl;
  incoming = refl;
  no_error = refl;
  not_closing = h;
}

ftp_cmd-Answered_example :
    Answered
      (codes "NOOP")
      (codes "250 ok")
      []
      250
      (session_with (wire (codes "250 ok") []))
      (ftp_cmd sample_client (codes "NOOP") (session_with (wire (codes "250 ok") [])))
ftp_cmd-Answered_example =
    ftp_cmd-Answered sample_client (codes "NOOP") code_250 (codes "ok") []
      (session_with (wire (codes "250 ok") []))
      (answering (codes "NOOP") code_250 (codes "ok") [] (fits (codes "250 ok") refl (omega arith))
        refl)

abbrev at_home : Session
at_home = session_with (wire (codes "250 Changed to \\b") [])

ftp_chdir-Names_example :
    (t : Session) × (ftp_chdir sample_client (codes "b") at_home ≡ some (t, pos 0))
    × Changed sample_client (codes "b") (codes "\\b") [] at_home t
ftp_chdir-Names_example =
    ftp_chdir-Names sample_client (codes "b") (codes "Changed to \\b") (codes "\\b") [] at_home
      (answering (codes "CWD b") code_250 (codes "Changed to \\b") []
        (fits (codes "250 Changed to \\b") refl (omega arith)) refl)
      (by_troll (codes "\\b")) (λ e. absurd (ground (arith, e)))

abbrev rename_replies : Bytes
rename_replies = wire (codes "350 go on") (wire (codes "250 done") [])

abbrev cached : Session
cached = record (session_with rename_replies) {
  cache =
      record { path = codes "/home"; timestamp = 0; files = [] }
      ∷ record { path = codes "/srv"; timestamp = 0; files = [] }
      ∷ [];
}

cached-IsDistinct : IsDistinct (cached.cache)
unfolding cache_find str_eq
cached-IsDistinct = (refl, (refl, tt))

part : (w : Bytes) → is_nil w ≡ false → has w b'/' ≡ false → IsPart w
part w h k = record { not_empty = h; no_slash = k }

in_home : Holder (codes "/home") (codes "a") (codes "home") []
unfolding str_eq
in_home = record {
  stands = in_current refl;
  parts = (part (codes "home") refl refl, tt);
  no_dot = refl;
  no_dos = refl;
  long = omega arith;
}

in_srv : Holder (codes "/home") (codes "/srv/b") (codes "srv") []
unfolding str_eq
in_srv = record {
  stands = in_path (codes "/srv") (codes "b") refl refl;
  parts = (part (codes "srv") refl refl, tt);
  no_dot = refl;
  no_dos = refl;
  long = omega arith;
}

ftp_rename-Renamed_example :
    (t : Session) × (ftp_rename sample_client (codes "a/") (codes "/srv/b") cached ≡ (t, pos 0))
    × Renamed sample_client
        (codes "a")
        (codes "/srv/b")
        (resolved (codes "home") [])
        (resolved (codes "srv") [])
        []
        cached
        t
unfolding stripslash strip_last
ftp_rename-Renamed_example =
    ftp_rename-Renamed sample_client (codes "a/") (codes "/srv/b") code_350 code_250 (codes "go on")
      (codes "done") [] (codes "home") (codes "srv") [] [] cached
      record {
        answer = record {
          is_line = fits (codes "350 go on") refl (omega arith);
          open_conn = refl;
          incoming = refl;
          no_error = refl;
          not_closing = refl;
        };
        is_line = fits (codes "250 done") refl (omega arith);
        no_error = refl;
        continues = refl;
        completes = refl;
      }
      cached-IsDistinct in_home in_srv

ftp_cache_flush-find_example :
    let s = record cached { dirs_to_flush = codes "/srv" ∷ [] } in
    cache_find (codes "/srv") ((ftp_cache_flush s).cache) ≡ (
      if is_marked (codes "/srv") (s.dirs_to_flush)
      then none
      else cache_find (codes "/srv") (s.cache))
ftp_cache_flush-find_example =
    ftp_cache_flush-find (codes "/srv") (record cached { dirs_to_flush = codes "/srv" ∷ [] })
      cached-IsDistinct

ftp_path_part_of-IsWithin_example :
    (ftp_path_part_of (codes "/a") (some (codes "/a/b")) ≡ true)
    ↔ IsWithin (codes "/a") (codes "/a/b")
ftp_path_part_of-IsWithin_example = ftp_path_part_of-IsWithin (codes "/a") (codes "/a/b")

abbrev mkd_answers : List (Code × Bytes)
mkd_answers = (code_257, codes "made") ∷ (code_550, codes "exists") ∷ []

abbrev mkd_session : Session
mkd_session = session_with (answers_wire mkd_answers [])

abbrev address : Address
address = record {
  protocol = codes "FTP";
  username = codes "me";
  password = codes "p@ss:";
  hostname = codes "host";
  port = codes "2121";
  directory = codes "/pub";
}

url_parse-text_example :
    url_parse (λ s. none) (url_text address) url_create ≡ some (filled address url_create)
url_parse-text_example =
    url_parse-text (λ s. none) address url_create
      record {
        protocol_part = (refl, (refl, (refl, tt)));
        username_text = texts (codes "me") refl;
        password_text = texts (codes "p@ss:") refl;
        password_some = λ e. absurd (ground (arith, e));
        hostname_text = texts (codes "host") refl;
        port_part = (refl, (refl, (refl, (refl, tt))));
        directory_text = texts (codes "/pub") refl;
      }
