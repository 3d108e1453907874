-- ===== src/Tests/Paths.antt =====
-- Sample paths for `shortpath` of libmhe/shortpath.c (under src/).
use yafc.Base.{Option, some, Bytes, codes}

abbrev long_path : Bytes
long_path = codes "usr/local/include/X11/junk.txt"

abbrev home_dir : Option Bytes
home_dir = some (codes "/home/mhe")
