-- ===== src/Rfile/Colors.antt =====
-- ftp/lscolors.c (under src/): the colours that LS_COLORS gives, as the first call of `init_colors` reads them
-- (later calls do nothing), and the colour of a file, whose path is set. `fnmatch` is a
-- parameter.
pub mod Default
use yafc.Base.{
  ℕ, zero, suc, ◌+◌, ◌-◌, ◌*◌, ◌/◌, ◌%◌, ◌^◌, ◌≤◌, ◌<◌, ◌≡◌, refl, sym, ap, ◌∙◌, ◌≢◌, ◌↔◌, ◌⊎◌, inl,
  inr, Bool, true, false, not, ◌&&◌, ◌||◌, Option, none, some, List, [], ◌∷◌, ◌++◌, map, append-nil,
  append_assoc, arith, ltb, leb, ◌==◌, if◌then◌else◌, ltb→lt, lt→ltb, leb→le, le→leb, ==_iff,
  if-both, Bool-cases, Option-cases, some-eq, &&-true, ||-false, length, get_elem?, get_or, take,
  drop, is_nil, length-append, take-append-drop, length-take, length-drop, length-map, take-all,
  All, All-append, All-append_left, All-append_right, All-mono, Bytes, codes, IsChar, IsText,
  within, is_space, is_cntrl, is_digit, is_xdigit, to_lower, has, str_eq, starts_with, strcase_eq,
  split_at, split_last, c_string, xstrdup, xstrndup, str_eq_iff, c_string-IsText, has-ne, ℤ, pos,
  negsuc, negate, digits_value, atoi, strip_trailing_chars, take-append, drop-append, drop-drop,
  take-take, drop-all, drop-take, get_or-append,
}
use yafc.Strq.Path.{base_name_ptr}
use yafc.Strq.Scan.{strqnchr, strqsep, split_all}
use yafc.Rfile.File.{
  File, risdir, rislink, rischardev, risblockdev, rispipe, rissock, risexec, text_of,
}

-- The variables of the file; `none` is a null pointer.
pub record Colors : Type 0 where
  pub diclr : Option Bytes
  pub lnclr : Option Bytes
  pub ficlr : Option Bytes
  pub exclr : Option Bytes
  pub bdclr : Option Bytes
  pub cdclr : Option Bytes
  pub piclr : Option Bytes
  pub soclr : Option Bytes
  pub lc : Option Bytes
  pub rc : Option Bytes
  pub ec : Option Bytes
  pub clrs : List (Bytes × Option Bytes)

abbrev pub no_colors : Colors
no_colors = record {
  diclr = none;
  lnclr = none;
  ficlr = none;
  exclr = none;
  bdclr = none;
  cdclr = none;
  piclr = none;
  soclr = none;
  lc = none;
  rc = none;
  ec = none;
  clrs = [];
}

unfoldable pub set_color : Bytes → Option Bytes → Colors → Colors
set_color msk clr c =
    if str_eq msk (codes "di")
    then record c { diclr = clr }
    else if str_eq msk (codes "ln")
    then record c { lnclr = clr }
    else if str_eq msk (codes "fi")
    then record c { ficlr = clr }
    else if str_eq msk (codes "ex")
    then record c { exclr = clr }
    else if str_eq msk (codes "bd")
    then record c { bdclr = clr }
    else if str_eq msk (codes "cd")
    then record c { cdclr = clr }
    else if str_eq msk (codes "pi")
    then record c { piclr = clr }
    else if str_eq msk (codes "so")
    then record c { soclr = clr }
    else if str_eq msk (codes "lc")
    then record c { lc = clr }
    else if str_eq msk (codes "rc")
    then record c { rc = clr }
    else if str_eq msk (codes "ec")
    then record c { ec = clr }
    else record c { clrs = c.clrs ++ (msk, clr) ∷ [] }

-- The colour of an entry, up to the next colon of what stands behind the equals sign.
abbrev pub color_text : Option (Bytes × Bytes) → Option Bytes
color_text none = none
color_text (some (clr, rest)) = some clr

-- A mask is written to the array `clrs`, which has `cells` places.
abbrev pub stored : ℕ → Colors → Option Colors
stored cells c = if leb (length c.clrs) cells then some c else none

abbrev pub add_entry : ℕ → Option (Bytes × Bytes) → Colors → Option Colors
add_entry cells none c = none
add_entry cells (some (msk, e)) c = stored cells (set_color msk (color_text (strqsep b':' e)) c)

-- The loop ends at the first token that is empty; `none` is a read of the null pointer, or a write behind
-- the array.
unfoldable pub set_colors : ℕ → List Bytes → Colors → Option Colors
set_colors cells [] c = some c
set_colors cells (e ∷ es) c = elim (add_entry cells (strqsep b'=' e) c) [
  | none ↦ if is_nil e then some c else none
  | some d ↦ let rest = set_colors cells es d in if is_nil e then some c else rest
]

-- The array has two places more than `strqnchr` counts colons, which may read behind the text.
abbrev pub read_colors : Bytes → Option ℕ → Option Colors
read_colors p none = none
read_colors p (some n) = set_colors (n + 2) (split_all b':' p) no_colors

-- ec is lc, fi and rc where these three are set.
abbrev pub framed : Option Bytes → Option Bytes → Option Bytes → Option Bytes
framed (some lc) (some fi) (some rc) = some ((lc ++ fi) ++ rc)
framed (some lc) (some fi) none = none
framed (some lc) none rc = none
framed none fi rc = none

abbrev pub or_color : Option Bytes → Option Bytes → Option Bytes
or_color (some s) other = some s
or_color none other = other

abbrev pub escape : Bytes → Option Bytes
escape s = some (0x1b ∷ s)

-- What is not set has a default.
unfoldable pub with_defaults : Colors → Colors
with_defaults c = record {
  diclr = or_color c.diclr (some (codes "01;34"));
  lnclr = or_color c.lnclr (some (codes "01;36"));
  ficlr = or_color c.ficlr (some (codes "00"));
  exclr = or_color c.exclr (some (codes "01;32"));
  bdclr = or_color c.bdclr (some (codes "40;01;33"));
  cdclr = or_color c.cdclr (some (codes "40;01;33"));
  piclr = or_color c.piclr (some (codes "40;33"));
  soclr = or_color c.soclr (some (codes "01;35"));
  lc = or_color c.lc (escape (codes "["));
  rc = or_color c.rc (some (codes "m"));
  ec = or_color c.ec (escape (codes "[0m"));
  clrs = c.clrs;
}

abbrev pub with_end : Colors → Colors
with_end c = record c { ec = or_color c.ec (framed c.lc c.ficlr c.rc) }

-- LS_COLORS, or else LS_COLOURS.
abbrev pub environment : Option Bytes → Option Bytes → Bytes
environment (some p) q = p
environment none (some q) = q
environment none none = []

abbrev pub start_colors : Option Colors → Option Colors
start_colors none = none
start_colors (some c) = some (with_defaults (with_end c))

unfoldable pub init_colors : Option Bytes → Option Bytes → Option Colors
init_colors colors colours =
    let p = environment colors colours in
    let parsed = start_colors (read_colors p (strqnchr p b':')) in
    if is_nil p then some (with_defaults no_colors) else parsed

module _ (fnmatch : Bytes → Bytes → Bool) where
  -- By the type of the file.
  unfoldable pub type_color : Colors → File → Option Bytes
  type_color c f =
      if risdir f
      then c.diclr
      else if rislink f
      then c.lnclr
      else if rischardev f
      then c.cdclr
      else if risblockdev f
      then c.bdclr
      else if rispipe f
      then c.piclr
      else if rissock f
      then c.soclr
      else none

  -- The first mask that fits and has a colour.
  unfoldable pub mask_color : List (Bytes × Option Bytes) → Bytes → Option Bytes
  mask_color [] name = none
  mask_color (m ∷ ms) name =
      let rest = mask_color ms name in if fnmatch (m.0) name then or_color (m.1) rest else rest

  abbrev pub chosen : Colors → File → Option Bytes
  chosen c f =
      let e = or_color (type_color c f) (mask_color c.clrs (base_name_ptr (text_of f.path))) in
      or_color (or_color e (if risexec f then c.exclr else none)) c.ficlr

  -- The colour that is stored; `none` is a read of the null pointer.
  unfoldable pub rfile_parse_colors_of : Colors → File → Option Bytes
  rfile_parse_colors_of c f = framed c.lc (chosen c f) c.rc
