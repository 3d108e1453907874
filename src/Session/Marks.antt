-- ===== src/Session/Marks.antt =====
-- The directory cache, ftp/cache.c (under src/), and `ftp_path_absolute` of ftp/ftp.c. The session's
-- current directory is not empty: only then is no path a null pointer.
pub mod Flush
use yafc.Base.{
  ℕ, zero, suc, ◌+◌, ◌-◌, ◌*◌, ◌/◌, ◌%◌, ◌^◌, ◌≤◌, ◌<◌, ◌≡◌, refl, sym, ap, ◌∙◌, ◌≢◌, ◌↔◌, ◌⊎◌, inl,
  inr, Bool, true, false, not, ◌&&◌, ◌||◌, Option, none, some, List, [], ◌∷◌, ◌++◌, map, append-nil,
  append_assoc, arith, ltb, leb, ◌==◌, if◌then◌else◌, ltb→lt, lt→ltb, leb→le, le→leb, ==_iff,
  Bool-cases, Option-cases, some-eq, &&-true, ||-false, length, get_elem?, get_or, take, drop,
  is_nil, length-append, take-append-drop, length-take, length-drop, length-map, take-all, All,
  All-append, All-append_left, All-append_right, All-mono, Bytes, codes, IsChar, IsText, within,
  is_space, is_cntrl, is_digit, is_xdigit, to_lower, has, str_eq, starts_with, strcase_eq, split_at,
  split_last, c_string, xstrdup, xstrndup, str_eq_iff, c_string-IsText, has-ne, ℤ, pos, negsuc,
  negate, digits_value, atoi, strip_trailing_chars, take-append, drop-append, drop-drop, take-take,
  drop-all, drop-take, get_or-append,
}
use yafc.Strq.Path.{stripslash, base_dir_xptr, base_name_ptr, path_absolute}
use yafc.Rfile.File.{File, rfile_search_filename}
use yafc.Session.{Session, Directory, Client}

unfoldable pub ftp_path_absolute : Client → Option Bytes → Session → Option Bytes
ftp_path_absolute o path s = path_absolute (o.getpwnam) (o.own_dir) path (s.curdir) (s.homedir)

-- list_search with strcmp
unfoldable pub is_marked : Bytes → List Bytes → Bool
is_marked p [] = false
is_marked p (d ∷ ds) = str_eq p d || is_marked p ds

-- Nothing is marked for a null pointer.
unfoldable pub add_mark : Option Bytes → List Bytes → List Bytes
add_mark none ds = ds
add_mark (some path) ds = let p = stripslash path in if is_marked p ds then ds else ds ++ p ∷ []

unfoldable pub ftp_cache_flush_mark : Client → Option Bytes → Session → Session
ftp_cache_flush_mark o path s = record s {
  dirs_to_flush = add_mark (ftp_path_absolute o path s) (s.dirs_to_flush);
}

-- The directory, or the current one for a null pointer.
abbrev pub or_curdir : Option Bytes → Bytes → Option Bytes
or_curdir (some e) curdir = some e
or_curdir none curdir = xstrdup curdir

-- Marks the directory that holds `path`.
unfoldable pub ftp_cache_flush_mark_for : Client → Bytes → Session → Session
ftp_cache_flush_mark_for o path s =
    ftp_cache_flush_mark o (or_curdir (base_dir_xptr path) (s.curdir)) s

-- list_delitem of the first item that `cache_search` finds
unfoldable pub flush_one : Bytes → List Directory → List Directory
flush_one dir [] = []
flush_one dir (r ∷ rs) = if str_eq dir (r.path) then rs else r ∷ flush_one dir rs

unfoldable pub flush_all : List Bytes → List Directory → List Directory
flush_all [] cache = cache
flush_all (dir ∷ dirs) cache = flush_all dirs (flush_one dir cache)

unfoldable pub ftp_cache_flush : Session → Session
ftp_cache_flush s = record s { cache = flush_all (s.dirs_to_flush) (s.cache); dirs_to_flush = [] }

unfoldable pub ftp_cache_clear : Session → Session
ftp_cache_clear s = record s { cache = []; dirs_to_flush = [] }

unfoldable pub cache_find : Bytes → List Directory → Option Directory
cache_find dir [] = none
cache_find dir (r ∷ rs) = if str_eq dir (r.path) then some r else cache_find dir rs

-- A time of 0 is no timeout.
abbrev pub has_timed_out : Client → ℕ → Directory → Bool
has_timed_out o now r = not (o.cache_timeout == 0) && leb (r.timestamp + o.cache_timeout) now

-- The path that is searched for.
abbrev pub searched : Client → Option Bytes → Session → Option Bytes
searched o none s = xstrdup (s.curdir)
searched o (some path) s = ftp_path_absolute o (some path) s

abbrev pub found_directory : Client → ℕ → Bytes → Session → Session × Option Directory
found_directory o now dir s = elim (cache_find dir (s.cache)) [
  | none ↦ (s, none)
  | some r ↦ (if has_timed_out o now r then ftp_cache_flush_mark o (some dir) s else s, some r)
]

-- `now` is the time in seconds.
unfoldable pub ftp_cache_get_directory :
    Client → ℕ → Option Bytes → Session → Session × Option Directory
ftp_cache_get_directory o now path s = elim (searched o path s) [
  | none ↦ (s, none)
  | some dir ↦ found_directory o now dir s
]

-- `rdir_get_file` of ftp/rdirectory.c
unfoldable pub rdir_get_file : Bytes → List File → Option File
rdir_get_file filename [] = none
rdir_get_file filename (f ∷ fs) =
    let rest = rdir_get_file filename fs in
    if rfile_search_filename f filename then some f else rest

unfoldable pub ftp_cache_get_file : Client → ℕ → Option Bytes → Session → Session × Option File
ftp_cache_get_file o now none s = (s, none)
ftp_cache_get_file o now (some path) s =
    let (after, dir) = ftp_cache_get_directory o now (base_dir_xptr path) s in
    elim dir [
      | none ↦ (after, none)
      | some r ↦ (after, rdir_get_file (base_name_ptr path) (r.files))
    ]
