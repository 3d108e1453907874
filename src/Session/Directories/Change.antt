-- ===== src/Session/Directories/Change.antt =====
-- The replies to CWD that `ftp_chdir` of ftp/ftp.c (under src/) takes the new directory from.
use yafc.Base.{
  ◌≡◌, refl, sym, ap, ◌∙◌, ◌≢◌, true, false, Option, none, some, [], ◌∷◌, ◌++◌, append_assoc, arith,
  ◌==◌, if◌then◌else◌, All, Bytes, codes, starts_with, strcase_eq, split_at, pos, negsuc,
}
use mathlib.Core.Option
use yafc.Strq.Path.{stripslash, path_dos2unix}
use yafc.Reply.Code.{Code, reply_line}
use yafc.Session.{Session, Client, vb_unset, vb_command, ftp_set_tmp_verbosity}
use yafc.Session.Exchange.{Answers, crlf, ftp_cmd-Answered, quietly}
use yafc.Session.Directories.{
  is_number, reply_text, war, serv_u, Source, named, unnamed, asked, starts_with_case, contains,
  war_source, quoted_part, before_quote, chdir_reply, cwd_source, with_result, enter,
  ftp_update_curdir_x, ftp_chdir,
}

-- No byte is a double quote.
abbrev pub IsUnquoted : Bytes → Type 0
IsUnquoted dir = All (λ c. (c == b'"') ≡ false) dir

-- How the text behind the number names the directory.
pub data Names : Bytes → Bytes → Type 0 where
  by_troll : (dir : Bytes) → Names (codes "Changed to " ++ dir) dir
  by_pure : (dir : Bytes) → Names (codes "OK. Current directory is " ++ dir) dir
  by_war : (dir : Bytes) → IsUnquoted dir → Names (b'"' ∷ (dir ++ b'"' ∷ war)) (stripslash dir)
  by_serv_u :
      (dir : Bytes)
      → contains war (serv_u ++ dir) ≡ false
      → Names (codes "Directory changed to " ++ dir) dir

abbrev pub code_250 : Code
code_250 = record {
  first = 2;
  second = 5;
  third = 0;
  first_fits = omega arith;
  second_fits = omega arith;
  third_fits = omega arith;
}

contains-war : (s : Bytes) → contains war (s ++ war) ≡ true
unfolding contains starts_with
contains-war [] = refl
contains-war (c ∷ s) = rw (contains-war s) (ground arith)

split_at-quote : (dir t : Bytes) → IsUnquoted dir → split_at b'"' (dir ++ b'"' ∷ t) ≡ some (dir, t)
unfolding split_at
split_at-quote [] t h = refl
split_at-quote (c ∷ dir) t h = rw (h.0, split_at-quote dir t h.1) refl

quoted_part-quote :
    (dir t : Bytes) → IsUnquoted dir → quoted_part (codes "250 \"" ++ (dir ++ b'"' ∷ t)) ≡ some dir
unfolding quoted_part split_at
quoted_part-quote dir t h = ap before_quote (split_at-quote dir t h)

cwd_source-Names :
    (text dir : Bytes) → Names text dir → cwd_source (reply_line code_250 b' ' text) ≡ named dir
unfolding cwd_source starts_with_case strcase_eq
cwd_source-Names _ _ (by_troll dir) = refl
cwd_source-Names _ _ (by_pure dir) = refl
cwd_source-Names _ _ (by_war dir h) =
    let r = codes "250 \"" ++ (dir ++ b'"' ∷ war) in
    let whole = append_assoc (codes "250 \"" ++ dir) (b'"' ∷ []) war in
    let found : contains war r ≡ true =
      ap (contains war) (sym whole) ∙ contains-war (codes "250 \"" ++ dir ++ b'"' ∷ []) in
    let source = λ (q : Option Bytes). elim q as (λ x. Source) [
      | none ↦ unnamed
      | some d ↦ named (stripslash d)
    ] in
    ap (λ b. if b then war_source r else asked) found ∙ ap source (quoted_part-quote dir war h)
cwd_source-Names _ _ (by_serv_u dir h) =
    ap (λ b. if b then war_source (serv_u ++ dir) else named dir) h

update_curdir_x-some :
    (dir : Bytes) (s : Session)
    → dir ≢ []
    → ftp_update_curdir_x dir s
      ≡ some (record s { prevdir = some (s.curdir); curdir = path_dos2unix dir })
unfolding ftp_update_curdir_x
update_curdir_x-some [] s h = absurd (h refl)
update_curdir_x-some (c ∷ dir) s h = refl

-- What changing to `dir` leaves behind.
pub record Changed (o : Client) (path dir rest : Bytes) (s t : Session) : Type 0 where
  pub curdir : t.curdir ≡ path_dos2unix dir
  pub prevdir : t.prevdir ≡ some (s.curdir)
  pub homedir : t.homedir ≡ s.homedir
  pub wrote : t.conn.sent ≡ s.conn.sent ++ (codes "CWD " ++ path) ++ crlf
  pub unread : t.conn.input ≡ rest

-- When the server answers CWD with 250 and a text that names a directory, which is not empty, in one of
-- the four known ways, `ftp_chdir` returns 0 and has sent that one command; the named directory, with
-- its backslashes as slashes, is the current one, and the old one the previous one.
pub ftp_chdir-Names :
    (o : Client) (path text dir rest : Bytes) (s : Session)
    → Answers o (codes "CWD " ++ path) code_250 text rest s
    → Names text dir
    → dir ≢ []
    → (t : Session) × (ftp_chdir o path s ≡ some (t, pos 0)) × Changed o path dir rest s t
unfolding ftp_chdir chdir_reply ftp_set_tmp_verbosity enter
ftp_chdir-Names o path text dir rest s h n e =
    let cmd = codes "CWD " ++ path in
    let start = ftp_set_tmp_verbosity vb_command s in
    let a =
      ftp_cmd-Answered o cmd code_250 text rest start
        (quietly o cmd code_250 text rest s vb_command h) in
    let t : Session = record start { conn = a.after; tmp_verbosity = vb_unset } in
    let goal = λ (x : Option Session). Option.map (with_result (pos 0)) x in
    let end : Session = record t { prevdir = some (s.curdir); curdir = path_dos2unix dir } in
    let run : ftp_chdir o path s ≡ some (end, pos 0) =
      ap (chdir_reply o) a.kept
      ∙ ap
          (λ c.
            if is_number 2 c
            then goal (enter o (cwd_source (reply_text t)) t)
            else some (t, negsuc 0))
          a.coded
      ∙ ap (λ x. goal (enter o (cwd_source x) t)) a.text
      ∙ ap (λ x. goal (enter o x t)) (cwd_source-Names text dir n)
      ∙ ap goal (update_curdir_x-some dir t e) in
    (
      end,
      run,
      record { curdir = refl; prevdir = refl; homedir = refl; wrote = a.wrote; unread = a.unread },
    )
