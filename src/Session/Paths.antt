-- ===== src/Session/Paths.antt =====
-- `ftp_path_part_of` and `ftp_mkpath` of ftp/ftp.c (under src/). The allocations do not fail.
pub mod Parts
pub mod Create
pub mod Loop
use yafc.Base.{
  ℕ, zero, suc, ◌+◌, ◌-◌, ◌*◌, ◌/◌, ◌%◌, ◌^◌, ◌≤◌, ◌<◌, ◌≡◌, refl, sym, ap, ◌∙◌, ◌≢◌, ◌↔◌, ◌⊎◌, inl,
  inr, Bool, true, false, not, ◌&&◌, ◌||◌, Option, none, some, List, [], ◌∷◌, ◌++◌, map, append-nil,
  append_assoc, arith, ltb, leb, ◌==◌, if◌then◌else◌, ltb→lt, lt→ltb, leb→le, le→leb, ==_iff,
  Bool-cases, Option-cases, some-eq, &&-true, ||-false, length, get_elem?, get_or, take, drop,
  is_nil, length-append, take-append-drop, length-take, length-drop, length-map, take-all, All,
  All-append, All-append_left, All-append_right, All-mono, Bytes, codes, IsChar, IsText, within,
  is_space, is_cntrl, is_digit, is_xdigit, to_lower, has, str_eq, starts_with, strcase_eq, split_at,
  split_last, c_string, xstrdup, xstrndup, str_eq_iff, c_string-IsText, has-ne, ℤ, pos, negsuc,
  negate, digits_value, atoi, strip_trailing_chars, take-append, drop-append, drop-drop, take-take,
  drop-all, drop-take, get_or-append,
}
use yafc.Strq.Scan.{split_all, strqsep}
use yafc.Strq.Quote.{unquote}
use yafc.Strq.Path.{is_end, path_collapse}
use yafc.Session.{Session, Client, vb_none}
use yafc.Session.Marks.{ftp_path_absolute}
use yafc.Session.Directories.{completed}
use yafc.Session.Commands.{ftp_mkdir_verb}

unfoldable pub ftp_path_part_of : Bytes → Option Bytes → Bool
ftp_path_part_of a none = false
ftp_path_part_of a (some b) = starts_with a b && is_end (drop (length a) b)

-- A path that was created already, or that the current directory is in.
abbrev pub is_created : Bytes → Option Bytes → Bytes → Bool
is_created e last_mkpath curdir = ftp_path_part_of e last_mkpath || ftp_path_part_of e (some curdir)

-- The loop's path with the next name: `none` is the null pointer.
abbrev pub longer : Option Bytes → Bytes → Bytes
longer none name = name
longer (some e) name = e ++ b'/' ∷ name

-- One round of the loop, for the path `e`, with `one_created`.
unfoldable pub mkpath_step : Client → Bytes → Session × Bool → Session × Bool
mkpath_step o e (s, one_created) =
    let (after, r) = ftp_mkdir_verb o e vb_none s in
    if is_created e (s.last_mkpath) (s.curdir) || str_eq e (codes ".")
    then (s, one_created)
    else (after, completed after)

-- The loop over the names that `strqsep` takes from the path.
unfoldable pub mkpath_loop : Client → Option Bytes → List Bytes → Session × Bool → Session × Bool
mkpath_loop o e [] x = x
mkpath_loop o e (name ∷ names) x =
    mkpath_loop o (some (longer e name)) names (mkpath_step o (longer e name) x)

abbrev pub root_of : Bytes → Option Bytes
root_of p = if get_or p 0 0 == b'/' then some [] else none

-- Behind the copy of the path.
abbrev pub mkpath_copied : Client → Bytes → Session → Session × Bool
mkpath_copied o path s =
    let p = unquote (path_collapse path) in
    let (after, one_created) = mkpath_loop o (root_of p) (split_all b'/' p) (s, false) in
    (record after { last_mkpath = ftp_path_absolute o (some path) after }, one_created)

-- The result is `one_created`; no branch that is modelled returns -1. `none` is a crash: the copy of the
-- empty path is a null pointer, which `path_collapse` reads.
unfoldable pub ftp_mkpath : Client → Option Bytes → Session → Option (Session × Bool)
ftp_mkpath o none s = some (s, false)
ftp_mkpath o (some path) s =
    let copied = elim (xstrdup path) as (λ x. Option (Session × Bool)) [
      | none ↦ none
      | some org ↦ some (mkpath_copied o org s)
    ] in
    if is_created path (s.last_mkpath) (s.curdir) then some (s, false) else copied

abbrev pub made_state : Option (Session × Bool) → Option Session
made_state none = none
made_state (some (s, made)) = some s
