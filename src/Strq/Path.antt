-- ===== src/Strq/Path.antt =====
-- The paths of libmhe/strq.c (under src/). The user database and the user's id are the
-- parameters `getpwnam` and `own_dir`.
pub mod Names
pub mod Collapse
pub mod Resolve
pub mod Shorter
use mathlib.Core.Option
use yafc.Base.{
  ℕ, zero, suc, ◌+◌, ◌-◌, ◌/◌, Bool, true, not, ◌&&◌, ◌||◌, Option, none, some, [], ◌∷◌, ◌++◌, map,
  ltb, ◌==◌, if◌then◌else◌, length, get_or, take, drop, is_nil, Bytes, codes, has, str_eq,
  starts_with, split_at, split_last, xstrdup, xstrndup,
}

unfoldable pub strip_last : Bytes → Bytes
strip_last [] = []
strip_last (c ∷ []) = if c == b'/' then [] else c ∷ []
strip_last (c ∷ d ∷ s) = c ∷ strip_last (d ∷ s)

-- The root directory keeps its slash.
unfoldable pub stripslash : Bytes → Bytes
stripslash [] = []
stripslash (c ∷ s) = c ∷ strip_last s

unfoldable pub base_name_ptr : Bytes → Bytes
base_name_ptr path = elim (split_last b'/' path) [ some (a, b) ↦ b | none ↦ path ]

unfoldable pub base_name_xptr : Bytes → Option Bytes
base_name_xptr path = xstrdup (base_name_ptr path)

unfoldable pub base_dir_xptr : Bytes → Option Bytes
base_dir_xptr path = elim (split_last b'/' path) [
  | none ↦ none
  | some (a, b) ↦ if is_nil a then xstrdup (codes "/") else xstrndup path (length a)
]

-- `memmove` of the string without its first `n` bytes.
abbrev pub strpull : Bytes → ℕ → Bytes
strpull s n = drop n s

unfoldable pub path_dos2unix : Bytes → Bytes
path_dos2unix path = map (λ c. if c == b'\\' then b'/' else c) path

-- The end of a component: the end of the path, or a slash.
abbrev pub is_end : Bytes → Bool
is_end [] = true
is_end (c ∷ s) = c == b'/'

-- The path from `osp` on without what ends behind the `..`; what is empty then is `/` or `./`.
abbrev pub cut_parent : Bytes → ℕ → ℕ → Bytes
cut_parent path osp sp =
    let x = if osp == 0 && not (get_or path 0 0 == b'/') then 1 else 0 in
    let cut = take osp path ++ strpull (drop osp path) (sp + 3 + x - osp) in
    if is_nil cut then (if get_or path 0 0 == b'/' then codes "/" else codes "./") else cut

-- The loop of `collapse_one` at index `i`, where the rest of the path is the last argument; `none`
-- is its `false`.
unfoldable pub collapse_from : Bytes → ℕ → ℕ → Bytes → Option Bytes
collapse_from path i sp [] = none
collapse_from path i sp (c ∷ []) = none
collapse_from path i sp (c ∷ d ∷ s) =
    let plain = collapse_from path (i + 1) sp (d ∷ s) in
    let behind = collapse_from path (i + 2) i s in
    if not (c == b'/')
    then plain
    else if d == b'.' && is_end s
    then some (take (i + 1) path ++ strpull (d ∷ s) 2)
    else if d == b'.' && get_or s 0 0 == b'.' && is_end (drop 1 s)
    then some (if is_nil (drop 1 s) && i == 0 then codes "/" else cut_parent path sp i)
    else behind

-- A path of more than `./` that starts so loses it.
abbrev pub has_dot_head : Bytes → Bool
has_dot_head path = starts_with (codes "./") path && ltb 2 (length path)

unfoldable pub collapse_one : Bytes → Option Bytes
collapse_one path =
    if not (has path b'/')
    then none
    else if has_dot_head path
    then some (strpull path 2)
    else collapse_from path 0 0 path

unfoldable pub squeeze : Bytes → Bytes
squeeze [] = []
squeeze (c ∷ []) = c ∷ []
squeeze (c ∷ d ∷ s) =
    let rest = squeeze (d ∷ s) in if c == b'/' && d == b'/' then rest else c ∷ rest

-- `while(collapse_one(path))`
unfoldable pub collapse_all : ℕ → Bytes → Bytes
collapse_all zero path = path
collapse_all (suc fuel) path = elim (collapse_one path) [
  | none ↦ path
  | some shorter ↦ collapse_all fuel shorter
]

-- The fuel is the length of the path.
abbrev pub collapse_unix : Bytes → Bytes
collapse_unix path = let s = squeeze path in collapse_all (length s) s

abbrev pub is_dos : Bytes → Bool
is_dos path = ltb 2 (length path) && get_or path 1 0 == b':' && get_or path 2 0 == b'\\'

unfoldable pub path_collapse : Bytes → Bytes
path_collapse path =
    if is_dos path
    then get_or path 0 0 ∷ b':' ∷ collapse_unix (path_dos2unix (strpull path 2))
    else collapse_unix path

module _ (getpwnam : Bytes → Option Bytes) (own_dir : Option Bytes) where
  -- The directory of the user named `user`, or one's own for no name.
  abbrev pub user_dir : Bytes → Option Bytes
  user_dir user = elim (getpwnam user) [
    | some dir ↦ some dir
    | none ↦ if is_nil user then own_dir else none
  ]

  -- The name behind the tilde, and the path behind it.
  abbrev pub split_user : Bytes → Bytes × Bytes
  split_user s = elim (split_at b'/' s) [ some (user, rest) ↦ (user, b'/' ∷ rest) | none ↦ (s, []) ]

  abbrev pub expand_user : Bytes → Bytes → Option Bytes
  expand_user str s =
      let (user, rest) = split_user s in
      elim (user_dir user) [ some dir ↦ some (dir ++ rest) | none ↦ xstrdup str ]

  unfoldable pub tilde_expand_home : Bytes → Option Bytes → Option Bytes
  tilde_expand_home [] home = xstrdup []
  tilde_expand_home (c ∷ s) none = if c == b'~' then expand_user (c ∷ s) s else xstrdup (c ∷ s)
  tilde_expand_home (c ∷ s) (some home) =
      if str_eq (c ∷ s) (codes "~")
      then xstrdup home
      else if starts_with (codes "~/") (c ∷ s)
      then some (home ++ s)
      else if c == b'~'
      then expand_user (c ∷ s) s
      else xstrdup (c ∷ s)

  -- The test of `path_absolute` for a path to put behind the current directory.
  abbrev pub is_relative : Bytes → Bool
  is_relative path =
      ltb (length path) 3
      || (not (get_or path 0 0 == b'/')
          && not (get_or path 1 0 == b':')
          && not (get_or path 2 0 == b'\\'))

  abbrev pub make_absolute : Bytes → Bytes → Option Bytes
  make_absolute path curdir =
      if is_relative path
      then some
          (if starts_with (codes "./") path then curdir ++ drop 1 path else curdir ++ b'/' ∷ path)
      else xstrdup path

  -- `none` stands for the null pointer. As a home directory that is empty gives it, which
  -- `path_collapse` would read, a home directory is taken to be a text.
  unfoldable pub path_absolute : Option Bytes → Bytes → Option Bytes → Option Bytes
  path_absolute none curdir home = xstrdup curdir
  path_absolute (some path) curdir none = Option.map path_collapse (make_absolute path curdir)
  path_absolute (some path) curdir (some home) = Option.map path_collapse (
      if get_or path 0 0 == b'~'
      then tilde_expand_home path (some home)
      else make_absolute path curdir)
