-- ===== src/ShortPath.antt =====
-- libmhe/shortpath.c (under src/): the short form of a path. A buffer that `xmalloc` gives holds zeros,
-- so it is the empty string.
pub mod Slashes
pub mod Bounds
use yafc.Base.{
  ℕ, zero, suc, ◌+◌, ◌-◌, ◌*◌, ◌/◌, ◌%◌, ◌^◌, ◌≤◌, ◌<◌, ◌≡◌, refl, sym, ap, ◌∙◌, ◌≢◌, ◌↔◌, ◌⊎◌, inl,
  inr, Bool, true, false, not, ◌&&◌, ◌||◌, Option, none, some, List, [], ◌∷◌, ◌++◌, map, append-nil,
  append_assoc, arith, ltb, leb, ◌==◌, if◌then◌else◌, ltb→lt, lt→ltb, leb→le, le→leb, ==_iff,
  Bool-cases, Option-cases, some-eq, &&-true, ||-false, length, get_elem?, get_or, take, drop,
  is_nil, length-append, take-append-drop, length-take, length-drop, length-map, take-all, All,
  All-append, All-append_left, All-append_right, All-mono, Bytes, codes, IsChar, IsText, within,
  is_space, is_cntrl, is_digit, is_xdigit, to_lower, has, str_eq, starts_with, strcase_eq, split_at,
  split_last, c_string, xstrdup, xstrndup, str_eq_iff, c_string-IsText, has-ne, ℤ, pos, negsuc,
  negate, digits_value, atoi, strip_trailing_chars, take-append, drop-append, drop-drop, take-take,
  drop-all, drop-take, get_or-append,
}
use yafc.Strq.Path.{path_collapse, strpull}

-- The string that `strlcpy` leaves in a buffer of `size` bytes.
abbrev pub strlcpy : Bytes → ℕ → Bytes
strlcpy src size = take (size - 1) src

unfoldable pub strlcat : Bytes → Bytes → ℕ → Bytes
strlcat dst src size = if ltb (length dst) size then take (size - 1) (dst ++ src) else dst

-- strchr(s, '/')
unfoldable pub from_slash : Bytes → Option Bytes
from_slash [] = none
from_slash (c ∷ s) = if c == b'/' then some (c ∷ s) else from_slash s

-- The length up to the first slash, which counts; 0 without one.
abbrev pub start_len : Bytes → ℕ
start_len path = elim (split_at b'/' path) [ none ↦ 0 | some (a, b) ↦ length a + 1 ]

abbrev pub ellipsis : Bytes
ellipsis = codes "..."

-- Where the copied part begins, if there is a slash in what fits.
unfoldable pub slash_tail : Bytes → ℕ → Option Bytes
slash_tail path maxlen =
    if ltb (start_len path + 3) maxlen
    then from_slash (drop (length path - (maxlen - start_len path - 3)) path)
    else none

abbrev pub with_tail : Bytes → Bytes → ℕ → Bytes
with_tail start tail maxlen = strlcat (strlcat start ellipsis (maxlen + 1)) tail (maxlen + 1)

abbrev pub shortened : Bytes → ℕ → Option Bytes → Bytes
shortened path maxlen none = with_tail [] (drop (length path - (maxlen - 3)) path) maxlen
shortened path maxlen (some tail) = with_tail (strlcpy path (start_len path)) tail maxlen

-- _shortpath, which is called with more than 3 for `maxlen`
unfoldable pub shortpath_impl : Bytes → ℕ → Bytes
shortpath_impl path maxlen =
    if leb (length path) maxlen then path else shortened path maxlen (slash_tail path maxlen)

-- gvTilde
unfoldable pub tilde_home : Bool → Option Bytes → Bytes → Bytes
tilde_home gv_tilde none tmp = tmp
tilde_home gv_tilde (some home) tmp =
    if leb 3 (length home) && gv_tilde && starts_with home tmp
    then b'~' ∷ strpull (drop 1 tmp) (length home - 1)
    else tmp

unfoldable pub shortpath : Bool → Option Bytes → ℕ → Option Bytes → Option Bytes
shortpath gv_tilde none maxlen home = none
shortpath gv_tilde (some path) maxlen home =
    let tmp = tilde_home gv_tilde home (path_collapse path) in
    if is_nil path
    then none
    else if leb maxlen 3
    then some tmp
    else some (shortpath_impl tmp maxlen)
