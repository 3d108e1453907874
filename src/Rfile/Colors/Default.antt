-- ===== src/Rfile/Colors/Default.antt =====
-- The colours of ftp/lscolors.c (under src/) that are left unset.
use yafc.Base.{◌≡◌, false, Option, some, is_nil, Bytes}
use yafc.Strq.Scan.{skip_delims}
use yafc.Rfile.File.{File}
use yafc.Rfile.Colors.{Colors}

abbrev pub IsGiven : Option Bytes → Type 0
IsGiven o = (s : Bytes) × (o ≡ some s)

-- Every colour but those of the masks.
pub record IsComplete (c : Colors) : Type 0 where
  pub lc : IsGiven c.lc
  pub rc : IsGiven c.rc
  pub ec : IsGiven c.ec
  pub ficlr : IsGiven c.ficlr
  pub diclr : IsGiven c.diclr

-- An entry with a byte before its equals sign.
abbrev pub HasMask : Bytes → Type 0
HasMask e = is_nil (skip_delims b'=' e) ≡ false

abbrev IsDone : Option Colors → Type 0
IsDone o = (c : Colors) × (o ≡ some c)
