-- ===== src/Session/Operations/Runs.antt =====
-- What every sequence of operations of ftp/ftp.c (under src/) keeps.
use yafc.Base.{codes}
use mathlib.Core.Path.{subst}
use yafc.Session.{Session, Client, vb_error, vb_command, ftp_set_verbosity}
use yafc.Session.Valid.Commands.{
  quiet-IsValid, mkdir_verb-IsValid, rmdir-IsValid, unlink-IsValid, chmod-IsValid, idle-IsValid,
  noop-IsValid, help-IsValid, size-IsValid, rename-IsValid,
}
use yafc.Session.Valid.Directories.{
  Maybe, cdup-IsValid, chdir-Maybe, mkpath-Maybe, type-IsValid, pasv-IsValid, quit-IsValid,
}
use yafc.Session.Valid.{IsValid, StaysClosed}
use yafc.Session.Marks.{ftp_cache_flush, ftp_cache_clear}
use yafc.Session.Commands.{ftp_pwd, ftp_reply_timeout}
use yafc.Session.Operations.{
  Operation, chdir, mkdir, rmdir, unlink, size, chmod, rename, idle, help, mkpath, cdup, noop, pwd,
  flush, clear, quit, verbosity, timeout, type, pasv, perform, Reaches, here, step,
}

perform-Maybe :
    (o : Client)
    → StaysClosed o
    → (op : Operation) (s : Session) → IsValid s
    → Maybe (perform o op s)
unfolding perform ftp_set_verbosity ftp_reply_timeout ftp_pwd ftp_cache_flush ftp_cache_clear
perform-Maybe o r (chdir path) s h = chdir-Maybe o r path s h
perform-Maybe o r (mkdir path) s h = mkdir_verb-IsValid o r path vb_error s h
perform-Maybe o r (rmdir path) s h = rmdir-IsValid o r path s h
perform-Maybe o r (unlink path) s h = unlink-IsValid o r path s h
perform-Maybe o r (size path) s h = size-IsValid o r path s h
perform-Maybe o r (chmod path mode) s h = chmod-IsValid o r path mode s h
perform-Maybe o r (rename oldname newname) s h = rename-IsValid o r oldname newname s h
perform-Maybe o r (idle time) s h = idle-IsValid o r time s h
perform-Maybe o r (help arg) s h = help-IsValid o r arg s h
perform-Maybe o r (mkpath path) s h = mkpath-Maybe o r path s h
perform-Maybe o r (type byte) s h = type-IsValid o r byte s h
perform-Maybe o r (pasv ipv6) s h = pasv-IsValid o r ipv6 s h
perform-Maybe o r cdup s h = cdup-IsValid o r s h
perform-Maybe o r noop s h = noop-IsValid o r s h
perform-Maybe o r pwd s h = quiet-IsValid o r (codes "PWD") vb_command s h
perform-Maybe o r flush s h = h
perform-Maybe o r clear s h = h
perform-Maybe o r quit s h = quit-IsValid o r s
perform-Maybe o r (verbosity v) s h = h
perform-Maybe o r (timeout secs) s h = h

-- If the client does not reconnect, every sequence of operations from a valid session ends in a valid one,
-- whatever the server sends and where the connection breaks: a session that is logged in has an open socket,
-- one with an open socket is connected, and one without has no completed command as its last. The
-- operations are those of `Operation`, with changes of directory, commands on files, `ftp_mkpath`, `ftp_type`,
-- `ftp_pasv` and the flush of the cache, but no login.
pub Reaches-IsValid :
    (o : Client) (s t : Session) → StaysClosed o → IsValid s → Reaches o s t → IsValid t
Reaches-IsValid o _ _ r h (here s) = h
Reaches-IsValid o _ _ r h (step op s t u e next) =
    Reaches-IsValid o t u r (subst Maybe e (perform-Maybe o r op s h)) next
