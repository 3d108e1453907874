-- ===== src/Session/Commands/Rename.antt =====
-- `ftp_rename` of ftp/ftp.c and the flush of ftp/cache.c (under src/) that follows it.
use yafc.Base.{
  ℕ, ◌/◌, ◌≡◌, ap, ◌∙◌, true, false, none, some, List, ◌++◌, arith, ◌==◌, if◌then◌else◌, Bytes,
  codes, pos, negsuc,
}
use yafc.Strq.Path.{stripslash}
use yafc.Reply.Code.{Code, value, reply_line}
use yafc.Reply.Single.{IsLine, wire}
use yafc.Session.{Session, Client, ftp_cmd}
use yafc.Session.Exchange.{Answers, crlf, answered_with, ftp_cmd-Answered, next-Answers}
use yafc.Session.Marks.{
  ftp_path_absolute, is_marked, add_mark, ftp_cache_flush, cache_find, ftp_cache_flush_mark_for,
}
use yafc.Session.Marks.Flush.{
  IsDistinct, holder, marked, mark_for-holder, flush-marked, add_mark-is_marked, add_mark-kept,
}
use yafc.Session.Directories.{is_number}
use yafc.Session.Commands.Holders.{Holder, resolved, holder-Holder}
use yafc.Session.Commands.{renamed, ftp_rename}

-- Both directories are marked.
marked_both :
    (a b : Bytes) (ds : List Bytes)
    → let ms = add_mark (some b) (add_mark (some a) ds) in
      (is_marked (stripslash a) ms ≡ true) × (is_marked (stripslash b) ms ≡ true)
marked_both a b ds = (
  add_mark-kept (stripslash a) (some b) (add_mark (some a) ds) (add_mark-is_marked a ds),
  add_mark-is_marked b (add_mark (some a) ds),
)

marks_of :
    (o : Client) (on nn a b : Bytes) (s : Session)
    → holder o on s ≡ some a
    → holder o nn s ≡ some b
    → ftp_cache_flush_mark_for o nn (ftp_cache_flush_mark_for o on s)
      ≡ marked (some b) (marked (some a) s)
unfolding ftp_path_absolute
marks_of o on nn a b s h k =
    ap (ftp_cache_flush_mark_for o nn) (mark_for-holder o on s ∙ ap (λ x. marked x s) h)
    ∙ mark_for-holder o nn (marked (some a) s)
    ∙ ap (λ x. marked x (marked (some a) s)) k

-- A server that answers RNFR with the first code and RNTO with the second.
pub record Renames (o : Client) (on nn : Bytes) (m n : Code) (first second rest : Bytes)
    (s : Session) : Type 0 where
  pub answer : Answers o (codes "RNFR " ++ on) m first (wire (reply_line n b' ' second) rest) s
  pub is_line : IsLine (reply_line n b' ' second)
  pub no_error :
      o.stream_error
        ((s.conn.sent ++ (codes "RNFR " ++ on) ++ crlf) ++ (codes "RNTO " ++ nn) ++ crlf)
      ≡ false
  pub continues : value m / 100 ≡ 3
  pub completes : value n / 100 ≡ 2

pub record Renamed (o : Client) (on nn a b rest : Bytes) (s t : Session) : Type 0 where
  pub wrote :
      t.conn.sent ≡ (s.conn.sent ++ (codes "RNFR " ++ on) ++ crlf) ++ (codes "RNTO " ++ nn) ++ crlf
  pub unread : t.conn.input ≡ rest
  pub old_gone : cache_find (stripslash a) ((ftp_cache_flush t).cache) ≡ none
  pub new_gone : cache_find (stripslash b) ((ftp_cache_flush t).cache) ≡ none

not_421 : (n : ℕ) → n / 100 ≡ 2 → (n == 421) ≡ false
not_421 n h = ground (arith, h)

rename_both :
    (o : Client) (oldname newname : Bytes) (m n : Code) (first second rest a b : Bytes)
    (s : Session)
    → Renames o (stripslash oldname) (stripslash newname) m n first second rest s
    → IsDistinct (s.cache)
    → holder o (stripslash oldname) s ≡ some a
    → holder o (stripslash newname) s ≡ some b
    → (t : Session) × (ftp_rename o oldname newname s ≡ (t, pos 0))
      × Renamed o (stripslash oldname) (stripslash newname) a b rest s t
unfolding ftp_rename renamed ftp_path_absolute
rename_both o oldname newname m n first second rest a b s h d ha hb =
    let on = stripslash oldname in
    let nn = stripslash newname in
    let from_cmd = codes "RNFR " ++ on in
    let to_cmd = codes "RNTO " ++ nn in
    let r = ftp_cmd-Answered o from_cmd m first _ s h.answer in
    let u = answered_with r.after s in
    let k =
      next-Answers o from_cmd _ _ to_cmd n second rest s _ r h.is_line h.no_error
        (not_421 _ h.completes) in
    let q = ftp_cmd-Answered o to_cmd n second rest u k in
    let v = answered_with q.after u in
    let end = marked (some b) (marked (some a) v) in
    let steps = λ (x : Session).
      if is_number 3 (x.conn.code) then renamed o on nn (ftp_cmd o to_cmd x).0 else (x, negsuc 0) in
    let run : ftp_rename o oldname newname s ≡ (end, pos 0) =
      ap steps r.kept
      ∙ ap (λ c. if is_number 3 c then renamed o on nn (ftp_cmd o to_cmd u).0 else (u, negsuc 0))
          (r.coded ∙ ap pos h.continues)
      ∙ ap (renamed o on nn) q.kept
      ∙ ap
          (λ c.
            if is_number 2 c
            then (ftp_cache_flush_mark_for o nn (ftp_cache_flush_mark_for o on v), pos 0)
            else (v, negsuc 0))
          (q.coded ∙ ap pos h.completes)
      ∙ ap (λ (x : Session). (x, pos 0)) (marks_of o on nn a b v ha hb) in
    let (x, y) = marked_both a b (v.dirs_to_flush) in
    (
      end,
      run,
      record {
        wrote = q.wrote ∙ ap (λ z. z ++ to_cmd ++ crlf) r.wrote;
        unread = q.unread;
        old_gone = flush-marked (stripslash a) end d x;
        new_gone = flush-marked (stripslash b) end d y;
      },
    )

-- When the server answers RNFR with a 3xx line and RNTO with a 2xx line, `ftp_rename` returns 0 and has
-- sent just these two commands, with the names' trailing slashes off. Let the directory of each name, what
-- stands before its last slash or else the current directory, be written as an absolute path of at least
-- three bytes, with no empty component, not ending in `.` and no DOS path. If no two directories of the cache
-- have the same path, the next flush takes the directories that these paths lead to from the root out of it.
pub ftp_rename-Renamed :
    (o : Client) (oldname newname : Bytes) (m n : Code) (first second rest a b : Bytes)
    (xs ys : List Bytes) (s : Session)
    → Renames o (stripslash oldname) (stripslash newname) m n first second rest s
    → IsDistinct (s.cache)
    → Holder (s.curdir) (stripslash oldname) a xs
    → Holder (s.curdir) (stripslash newname) b ys
    → (t : Session) × (ftp_rename o oldname newname s ≡ (t, pos 0))
      × Renamed o (stripslash oldname) (stripslash newname) (resolved a xs) (resolved b ys) rest s t
ftp_rename-Renamed o oldname newname m n first second rest a b xs ys s h d ha hb =
    rename_both o oldname newname m n first second rest (resolved a xs) (resolved b ys) s h d
      (holder-Holder o (stripslash oldname) a xs s ha)
      (holder-Holder o (stripslash newname) b ys s hb)
