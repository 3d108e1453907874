-- ===== src/Session/Commands/Holders.antt =====
-- The directories that hold a file, as `ftp_cache_flush_mark_for` of ftp/cache.c (under src/) finds them.
use yafc.Base.{
  ℕ, ◌≤◌, ◌≡◌, refl, ap, ◌∙◌, true, false, ◌||◌, Option, none, some, List, [], ◌∷◌, ◌++◌, arith,
  ltb, ◌==◌, if◌then◌else◌, ||-false, length, drop, is_nil, All, Bytes, codes, has, starts_with,
  split_last, xstrdup,
}
use mathlib.Core.Option
use yafc.Strq.Path.{base_dir_xptr, is_dos, path_collapse, make_absolute, path_absolute}
use yafc.Strq.Path.Collapse.{path_of, or_root}
use yafc.Strq.Path.Names.{base_dir-some, base_dir-none}
use yafc.Strq.Path.Resolve.{IsPart, render, resolve, ends_in_dot, path_collapse-resolve}
use yafc.Session.{Session, Client}
use yafc.Session.Marks.{or_curdir, ftp_path_absolute}
use yafc.Session.Marks.Flush.{holder}

-- The directory before a file's name: what stands before the last slash, or the current directory where
-- there is no slash.
pub data Stands (curdir name : Bytes) : Bytes → Type 0 where
  in_path :
      (dir base : Bytes)
      → name ≡ dir ++ b'/' ∷ base
      → has base b'/' ≡ false
      → Stands curdir name dir
  in_current : has name b'/' ≡ false → Stands curdir name curdir

-- The components of that directory, which is an absolute path of at least three bytes, none of whose
-- components is empty; it does not end in `.` and is no DOS path.
pub record Holder (curdir name c : Bytes) (cs : List Bytes) : Type 0 where
  pub stands : Stands curdir name (render (c ∷ cs))
  pub parts : All IsPart (c ∷ cs)
  pub no_dot : ends_in_dot (c ∷ cs) ≡ false
  pub no_dos : is_dos (render (c ∷ cs)) ≡ false
  pub long : 3 ≤ length (render (c ∷ cs))

-- The path that the components lead to from the root.
abbrev pub resolved : Bytes → List Bytes → Bytes
resolved c cs = or_root (path_of (resolve [] (c ∷ cs)))

split_last-absent : (c : ℕ) (s : Bytes) → has s c ≡ false → split_last c s ≡ none
unfolding split_last
split_last-absent c [] h = refl
split_last-absent c (x ∷ s) h =
    let (k, l) = ||-false (x == c) (has s c) h in rw (split_last-absent c s l, k)

split_last-parts : (c : ℕ) (a b : Bytes) → has b c ≡ false → split_last c (a ++ c ∷ b) ≡ some (a, b)
unfolding split_last
split_last-parts c [] b h =
    let same : (c == c) ≡ true = ground arith in rw (split_last-absent c b h, same)
split_last-parts c (x ∷ a) b h = rw (split_last-parts c a b h)

-- The directory that is marked, as it is written.
base_dir-Stands :
    (curdir name c : Bytes) (cs : List Bytes) (dir : Bytes)
    → Stands curdir name dir
    → dir ≡ render (c ∷ cs)
    → or_curdir (base_dir_xptr name) curdir ≡ some (render (c ∷ cs))
base_dir-Stands curdir name c cs _ (in_path dir base e h) r =
    ap (λ n. or_curdir (base_dir_xptr n) curdir) e
    ∙ ap (λ x. or_curdir x curdir)
        (base_dir-some (dir ++ b'/' ∷ base) dir base (split_last-parts b'/' dir base h))
    ∙ ap (λ d. some (if is_nil d then codes "/" else d)) r
base_dir-Stands curdir name c cs _ (in_current h) r =
    ap (λ x. or_curdir x curdir) (base_dir-none name (split_last-absent b'/' name h)) ∙ ap xstrdup r

far :
    (o : Client) (c : Bytes) (cs : List Bytes) (curdir : Bytes)
    → 3 ≤ length (render (c ∷ cs))
    → make_absolute (o.getpwnam) (o.own_dir) (render (c ∷ cs)) curdir ≡ some (render (c ∷ cs))
far o c cs curdir h =
    let path = render (c ∷ cs) in
    let long : ltb (length path) 3 ≡ false = ground (arith, h) in
    let behind =
      if starts_with (codes "./") path then curdir ++ drop 1 path else curdir ++ b'/' ∷ path in
    ap (λ b. if b || false then some behind else some path) long

absolute :
    (o : Client) (c : Bytes) (cs : List Bytes) (curdir : Bytes) (home : Option Bytes)
    → 3 ≤ length (render (c ∷ cs))
    → path_absolute (o.getpwnam) (o.own_dir) (some (render (c ∷ cs))) curdir home
      ≡ some (path_collapse (render (c ∷ cs)))
unfolding path_absolute
absolute o c cs curdir none h = ap (Option.map path_collapse) (far o c cs curdir h)
absolute o c cs curdir (some home) h = ap (Option.map path_collapse) (far o c cs curdir h)

pub holder-Holder :
    (o : Client) (name c : Bytes) (cs : List Bytes) (s : Session)
    → Holder (s.curdir) name c cs
    → holder o name s ≡ some (resolved c cs)
unfolding ftp_path_absolute
holder-Holder o name c cs s h =
    ap (λ p. path_absolute (o.getpwnam) (o.own_dir) p (s.curdir) (s.homedir))
      (base_dir-Stands (s.curdir) name c cs _ h.stands refl)
    ∙ absolute o c cs (s.curdir) (s.homedir) h.long
    ∙ ap some (path_collapse-resolve c cs h.parts h.no_dot h.no_dos)
