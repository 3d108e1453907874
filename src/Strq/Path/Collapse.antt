-- ===== src/Strq/Path/Collapse.antt =====
-- The rounds of `collapse_one` of libmhe/strq.c (under src/) on an absolute path.
use yafc.Base.{
  ℕ, suc, ◌+◌, ◌-◌, ◌≡◌, refl, sym, ap, ◌∙◌, true, false, ◌&&◌, some, List, [], ◌∷◌, ◌++◌,
  append_assoc, arith, ◌==◌, if◌then◌else◌, ||-false, length, get_or, take, drop, is_nil,
  length-append, All, Bytes, codes, has, str_eq, starts_with, take-append, drop-append, drop-drop,
}
use yafc.Strq.Path.{is_end, cut_parent, collapse_from, collapse_one}

-- A component that is neither `.` nor `..`.
pub record IsName (w : Bytes) : Type 0 where
  pub not_empty : is_nil w ≡ false
  pub no_slash : has w b'/' ≡ false
  pub not_dot : str_eq w (codes ".") ≡ false
  pub not_dots : str_eq w (codes "..") ≡ false

-- The directories reached so far, the last one first.
abbrev pub path_of : List Bytes → Bytes
path_of [] = []
path_of (w ∷ ws) = path_of ws ++ b'/' ∷ w

abbrev pub last_slash : List Bytes → ℕ
last_slash [] = 0
last_slash (w ∷ ws) = length (path_of ws)

abbrev pub or_root : Bytes → Bytes
or_root s = if is_nil s then codes "/" else s

collapse-plain :
    (path : Bytes) (i sp : ℕ) (w t : Bytes)
    → has w b'/' ≡ false
    → collapse_from path i sp (w ++ t) ≡ collapse_from path (i + length w) sp t
unfolding collapse_from
collapse-plain path i sp [] t h = let e : i + 0 ≡ i = omega arith in rw e
collapse-plain path i sp (c ∷ []) [] h = refl
collapse-plain path i sp (c ∷ []) (d ∷ t) h = let (k, l) = ||-false (c == b'/') false h in rw k
collapse-plain path i sp (c ∷ d ∷ w) t h =
    let (k, l) = ||-false (c == b'/') (has (d ∷ w) b'/') h in
    let e : i + suc (length (d ∷ w)) ≡ i + 1 + length (d ∷ w) = omega arith in
    rw (k, e) (collapse-plain path (i + 1) sp (d ∷ w) t l)

not_dot-first : (d : ℕ) → str_eq (d ∷ []) (codes ".") ≡ false → (d == b'.') ≡ false
unfolding str_eq
not_dot-first d h = ground arith

not_dots-second :
    (d e : ℕ) → str_eq (d ∷ e ∷ []) (codes "..") ≡ false → (d == b'.' && e == b'.') ≡ false
unfolding str_eq
not_dots-second d e h = ground arith

collapse-name :
    (path : Bytes) (i sp : ℕ) (w t : Bytes)
    → IsName w
    → is_end t ≡ true
    → collapse_from path i sp (b'/' ∷ (w ++ t)) ≡ collapse_from path (i + suc (length w)) i t
unfolding collapse_from
collapse-name path i sp [] t n h = absurd (ground (arith, n.not_empty))
collapse-name path i sp (d ∷ []) t n h =
    let k = not_dot-first d n.not_dot in
    let l : i + suc (length (d ∷ [])) ≡ i + 2 = omega arith in rw (k, l)
collapse-name path i sp (d ∷ e ∷ []) t n h =
    let k = not_dots-second d e n.not_dots in
    let (m, r) = ||-false (d == b'/') (has (e ∷ []) b'/') n.no_slash in
    let (o, q) = ||-false (e == b'/') false r in
    let plain = collapse-plain path (i + 2) i (e ∷ []) t r in
    let l : i + suc (length (d ∷ e ∷ [])) ≡ i + 2 + length (e ∷ []) = omega arith in
    let p : (d == b'.' && e == b'/') ≡ false = ground (arith, o) in
    let u : (d == b'.' && e == b'.' && is_end t) ≡ false = ground (arith, k) in rw (p, u, l) plain
collapse-name path i sp (d ∷ e ∷ f ∷ w) t n h =
    let (m, r) = ||-false (d == b'/') (has (e ∷ f ∷ w) b'/') n.no_slash in
    let (o, q) = ||-false (e == b'/') (has (f ∷ w) b'/') r in
    let (v, x) = ||-false (f == b'/') (has w b'/') q in
    let plain = collapse-plain path (i + 2) i (e ∷ f ∷ w) t r in
    let l : i + suc (length (d ∷ e ∷ f ∷ w)) ≡ i + 2 + length (e ∷ f ∷ w) = omega arith in
    let p : (d == b'.' && e == b'/') ≡ false = ground (arith, o) in
    let u : (d == b'.' && e == b'.' && f == b'/') ≡ false = ground (arith, v) in rw (p, u, l) plain

-- The scan passes all names.
pub collapse-names :
    (path : Bytes) (ws : List Bytes) (t : Bytes)
    → All IsName ws
    → is_end t ≡ true
    → collapse_from path 0 0 (path_of ws ++ t)
      ≡ collapse_from path (length (path_of ws)) (last_slash ws) t
collapse-names path [] t n h = refl
collapse-names path (w ∷ ws) t n h =
    let e = append_assoc (path_of ws) (b'/' ∷ w) t in
    let l : length (path_of ws ++ b'/' ∷ w) ≡ length (path_of ws) + suc (length w) =
      length-append (path_of ws) (b'/' ∷ w) in
    rw (e, l)
      (collapse-names path ws (b'/' ∷ (w ++ t)) n.1 refl
        ∙ collapse-name path (length (path_of ws)) (last_slash ws) w t n.0 h)

pub path_of-slash :
    (ws : List Bytes) (t : Bytes) → (u : Bytes) × (path_of ws ++ b'/' ∷ t ≡ b'/' ∷ u)
path_of-slash [] t = (t, refl)
path_of-slash (w ∷ ws) t =
    let (u, e) = path_of-slash ws (w ++ b'/' ∷ t) in
    (u, append_assoc (path_of ws) (b'/' ∷ w) (b'/' ∷ t) ∙ e)

pub collapse_one-slash :
    (path u : Bytes) → path ≡ b'/' ∷ u → collapse_one path ≡ collapse_from path 0 0 path
unfolding collapse_one starts_with
collapse_one-slash path u e = rw e refl

collapse_one-scan :
    (ws : List Bytes) (t : Bytes)
    → All IsName ws
    → let path = path_of ws ++ b'/' ∷ t in
      collapse_one path ≡ collapse_from path (length (path_of ws)) (last_slash ws) (b'/' ∷ t)
collapse_one-scan ws t n =
    let (u, e) = path_of-slash ws t in
    collapse_one-slash _ u e ∙ collapse-names _ ws (b'/' ∷ t) n refl

take-behind : (p t : Bytes) (c : ℕ) → take (length p + 1) (p ++ c ∷ t) ≡ p ++ c ∷ []
take-behind p t c =
    let l : length p + 1 ≡ length (p ++ c ∷ []) = omega (arith, length-append p (c ∷ [])) in
    rw (l, ← append_assoc p (c ∷ []) t) (take-append (p ++ c ∷ []) t)

-- A `.` that is not the last component is dropped.
pub collapse_one-dot :
    (ws : List Bytes) (t : Bytes)
    → All IsName ws
    → collapse_one (path_of ws ++ b'/' ∷ b'.' ∷ b'/' ∷ t) ≡ some (path_of ws ++ b'/' ∷ t)
collapse_one-dot ws t n =
    let p = path_of ws in
    let path = p ++ b'/' ∷ b'.' ∷ b'/' ∷ t in
    let found : collapse_from path (length p) (last_slash ws) (b'/' ∷ b'.' ∷ b'/' ∷ t)
        ≡ some (take (length p + 1) path ++ t) =
      unfold collapse_from in refl in
    collapse_one-scan ws (b'.' ∷ b'/' ∷ t) n
    ∙ found
    ∙ ap (λ s. some (s ++ t)) (take-behind p (b'.' ∷ b'/' ∷ t) b'/')
    ∙ ap some (append_assoc p (b'/' ∷ []) t)

abbrev pub up : List Bytes → List Bytes
up [] = []
up (w ∷ ws) = ws

-- What `cut_parent` leaves: the slash before the last directory is at `osp`, the one behind it at
-- `sp`.
cut_parent-path :
    (p w t u : Bytes)
    → p ++ b'/' ∷ (w ++ b'/' ∷ b'.' ∷ b'.' ∷ t) ≡ b'/' ∷ u
    → cut_parent (p ++ b'/' ∷ (w ++ b'/' ∷ b'.' ∷ b'.' ∷ t)) (length p) (length p + suc (length w))
      ≡ or_root (p ++ t)
cut_parent-path p w t u e =
    let above = b'/' ∷ b'.' ∷ b'.' ∷ t in
    let below = b'/' ∷ (w ++ above) in
    let g : (get_or (p ++ below) 0 0 == b'/') ≡ true = ap (λ s. get_or s 0 0 == b'/') e in
    let x : (length p == 0 && false) ≡ false = ground arith in
    let n : length p + suc (length w) + 3 + 0 - length p ≡ suc (length w) + 3 = omega arith in
    let d : drop (suc (length w) + 3) below ≡ t =
      sym (drop-drop 3 (suc (length w)) below) ∙ ap (drop 3) (drop-append w above) in
    rw (g, x, n, take-append p below, drop-append p below, d)

collapse_dots-found :
    (path : Bytes) (i sp : ℕ) (t : Bytes)
    → is_end t ≡ true
    → (i == 0) ≡ false
    → collapse_from path i sp (b'/' ∷ b'.' ∷ b'.' ∷ t) ≡ some (cut_parent path sp i)
unfolding collapse_from
collapse_dots-found path i sp [] h k = rw k
collapse_dots-found path i sp (c ∷ t) h k = rw h

-- A `..` behind names takes the last of them with it; at the root it is dropped.
pub collapse_one-dots :
    (ws : List Bytes) (t : Bytes)
    → All IsName ws
    → is_end t ≡ true
    → collapse_one (path_of ws ++ b'/' ∷ b'.' ∷ b'.' ∷ t) ≡ some (or_root (path_of (up ws) ++ t))
collapse_one-dots [] [] n h = unfold collapse_one collapse_from starts_with in refl
collapse_one-dots [] (c ∷ t) n h = unfold collapse_one collapse_from starts_with in rw h
collapse_one-dots (w ∷ ws) t n h =
    let p = path_of ws in
    let (u, e) = path_of-slash (w ∷ ws) (b'.' ∷ b'.' ∷ t) in
    let a = append_assoc p (b'/' ∷ w) (b'/' ∷ b'.' ∷ b'.' ∷ t) in
    let l : length (p ++ b'/' ∷ w) ≡ length p + suc (length w) = length-append p (b'/' ∷ w) in
    let k : (length (p ++ b'/' ∷ w) == 0) ≡ false = ground (arith, l) in
    collapse_one-scan (w ∷ ws) (b'.' ∷ b'.' ∷ t) n
    ∙ collapse_dots-found _ _ (length p) t h k
    ∙ ap some (rw (a, l) (cut_parent-path p w t u (sym a ∙ e)))
