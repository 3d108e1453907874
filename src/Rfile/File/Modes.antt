-- ===== src/Rfile/File/Modes.antt =====
-- `rfile_getmode` of ftp/rfile.c (under src/).
use yafc.Base.{ℕ, ◌%◌, ◌^◌, ◌≡◌, refl, ap, ◌∙◌, Option, some, Bytes, xstrdup}
use yafc.Rfile.Perm.{perm2string, str2mode_t}
use yafc.Rfile.Perm.RoundTrip.{str2mode_t-perm2string}
use yafc.Rfile.File.{
  read_mode, File, overrun, got_mode, rfile_getmode, rfile_fake, rfile_clone, copy_string,
}

xstrdup-perm2string : (m : ℕ) → xstrdup (perm2string m) ≡ some (perm2string m)
unfolding perm2string
xstrdup-perm2string m = refl

getmode-some : (f : File) (p : Bytes) → f.perm ≡ some p → rfile_getmode f ≡ read_mode (str2mode_t p)
unfolding rfile_getmode
getmode-some f p e = rw e

clone-perm : (f : File) → (rfile_clone f).perm ≡ copy_string f.perm
unfolding rfile_clone
clone-perm f = refl

-- The mode of a copy of a file whose permissions were written from a mode is that mode, but for its
-- file type.
pub rfile_getmode-clone :
    (f : File) (m : ℕ)
    → f.perm ≡ some (perm2string m)
    → rfile_getmode (rfile_clone f) ≡ got_mode (m % 2 ^ 12)
rfile_getmode-clone f m e =
    getmode-some (rfile_clone f) (perm2string m)
      (clone-perm f ∙ ap copy_string e ∙ xstrdup-perm2string m)
    ∙ ap read_mode (str2mode_t-perm2string m)

-- The permissions of a faked file are one character short: reading its mode runs past their end.
pub rfile_getmode-fake :
    (color_of : File → Option Bytes) (f : File) (path : Bytes)
    → rfile_getmode (rfile_fake color_of f path) ≡ overrun
unfolding rfile_getmode rfile_fake str2mode_t
rfile_getmode-fake color_of f path = refl
