-- ===== src/Rfile/File.antt =====
-- The record `rfile` of ftp/rfile.c (under src/) and the functions on one. The colours of
-- ftp/lscolors.c are the parameter `color_of`. The functions that read `perm` take it for set.
pub mod Modes
use yafc.Base.{
  ℕ, zero, suc, ◌+◌, ◌-◌, ◌*◌, ◌/◌, ◌%◌, ◌^◌, ◌≤◌, ◌<◌, ◌≡◌, refl, sym, ap, ◌∙◌, ◌≢◌, ◌↔◌, ◌⊎◌, inl,
  inr, Bool, true, false, not, ◌&&◌, ◌||◌, Option, none, some, List, [], ◌∷◌, ◌++◌, map, append-nil,
  append_assoc, arith, ltb, leb, ◌==◌, if◌then◌else◌, ltb→lt, lt→ltb, leb→le, le→leb, ==_iff,
  Bool-cases, Option-cases, some-eq, &&-true, ||-false, length, get_elem?, get_or, take, drop,
  is_nil, length-append, take-append-drop, length-take, length-drop, length-map, take-all, All,
  All-append, All-append_left, All-append_right, All-mono, Bytes, codes, IsChar, IsText, within,
  is_space, is_cntrl, is_digit, is_xdigit, to_lower, has, str_eq, starts_with, strcase_eq, split_at,
  split_last, c_string, xstrdup, xstrndup, str_eq_iff, c_string-IsText, has-ne, ℤ, pos, negsuc,
  negate, digits_value, atoi, strip_trailing_chars, take-append, drop-append, drop-drop, take-take,
  drop-all, drop-take, get_or-append,
}
use yafc.Strq.Path.{base_name_ptr}
use yafc.Rfile.Perm.{str2mode_t}

-- A string is a null pointer or its bytes; `mtime` and `size` are 64 bits wide.
pub record File : Type 0 where
  pub perm : Option Bytes
  pub owner : Option Bytes
  pub group : Option Bytes
  pub color : Option Bytes
  pub date : Option Bytes
  pub mtime : ℕ
  pub nhl : ℕ
  pub link : Option Bytes
  pub path : Option Bytes
  pub size : ℕ

abbrev pub rfile_create : File
rfile_create = record {
  perm = none;
  owner = none;
  group = none;
  color = none;
  date = none;
  mtime = 0;
  nhl = 0;
  link = none;
  path = none;
  size = 0;
}

abbrev pub copy_string : Option Bytes → Option Bytes
copy_string none = none
copy_string (some s) = xstrdup s

unfoldable pub rfile_clone : File → File
rfile_clone f = record {
  perm = copy_string f.perm;
  owner = copy_string f.owner;
  group = copy_string f.group;
  color = copy_string f.color;
  date = copy_string f.date;
  mtime = f.mtime;
  nhl = f.nhl;
  link = copy_string f.link;
  path = copy_string f.path;
  size = f.size;
}

unfoldable pub rfile_clear : File → File
rfile_clear f = rfile_create

abbrev pub text_of : Option Bytes → Bytes
text_of none = []
text_of (some s) = s

abbrev pub has_type : ℕ → File → Bool
has_type c f = get_or (text_of f.perm) 0 0 == c

unfoldable pub risdir : File → Bool
risdir f = has_type b'd' f

unfoldable pub rispipe : File → Bool
rispipe f = has_type b'p' f

unfoldable pub rissock : File → Bool
rissock f = has_type b's' f

unfoldable pub rischardev : File → Bool
rischardev f = has_type b'c' f

unfoldable pub risblockdev : File → Bool
risblockdev f = has_type b'b' f

unfoldable pub rislink : File → Bool
rislink f = has_type b'l' f

unfoldable pub risexec : File → Bool
risexec f = has (text_of f.perm) b'x'

unfoldable pub risreg : File → Bool
risreg f = not (risdir f || rispipe f || rischardev f || risblockdev f)

unfoldable pub risdotdir : File → Bool
risdotdir f =
    let name = base_name_ptr (text_of f.path) in
    risdir f && (str_eq name (codes ".") || str_eq name (codes ".."))

-- `none` is the 0 of the source.
unfoldable pub rfile_classchar : File → Option ℕ
rfile_classchar f =
    if risdir f
    then some b'/'
    else if rislink f
    then some b'@'
    else if rissock f
    then some b'='
    else if rispipe f
    then some b'|'
    else if risexec f
    then some b'*'
    else none

pub data GotMode : Type 0 where
  no_mode overrun : GotMode
  got_mode : ℕ → GotMode

abbrev pub read_mode : Option ℕ → GotMode
read_mode none = overrun
read_mode (some m) = got_mode m

-- `overrun`: `str2mode_t` reads behind the string.
unfoldable pub rfile_getmode : File → GotMode
rfile_getmode f = elim f.perm [ none ↦ no_mode | some p ↦ read_mode (str2mode_t p) ]

-- strcmp(base_name_ptr(f->path), filename) == 0
unfoldable pub rfile_search_filename : File → Bytes → Bool
rfile_search_filename f filename = str_eq (base_name_ptr (text_of f.path)) filename

unfoldable pub rfile_search_path : File → Bytes → Bool
rfile_search_path f path = str_eq (text_of f.path) path

module _ (color_of : File → Option Bytes) where
  abbrev pub rfile_parse_colors : File → File
  rfile_parse_colors f = record f { color = color_of f }

  unfoldable pub rfile_fake : File → Bytes → File
  rfile_fake f path = rfile_parse_colors (record f {
    perm = some (codes "-rw-r-r-");
    owner = some (codes "owner");
    group = some (codes "group");
    link = none;
    path = xstrdup path;
    date = some (codes "Jan  0  1900");
    mtime = 0;
    nhl = 0;
    size = 2 ^ 64 - 1;
  })
