-- ===== src/Tests/Colors.antt =====
-- A sample of LS_COLORS for ftp/lscolors.c (under src/).
use yafc.Base.{ℕ, Bool, not, ◌&&◌, Option, some, ◌==◌, Bytes, codes, str_eq}
use yafc.Strq.Quote.{backslash, is_quote}
use yafc.Rfile.File.{File, rfile_create}
use yafc.Rfile.Colors.{Colors}

abbrev ls_colors : Option Bytes
ls_colors = some (codes "di=1:*.c=2")

abbrev exactly : Bytes → Bytes → Bool
exactly a b = str_eq a b

abbrev folder : File
folder = record rfile_create { perm = some (codes "drwxr-xr-x"); path = some (codes "/pub/src") }

abbrev is_bare : ℕ → Bool
is_bare c = not (is_quote c) && not (c == backslash)
