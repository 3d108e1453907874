-- ===== src/Strq/Path/Resolve.antt =====
-- `path_collapse` of libmhe/strq.c (under src/) on absolute paths.
use yafc.Base.{
  ℕ, zero, suc, ◌≤◌, ◌≡◌, refl, sym, ap, ◌∙◌, inl, inr, Bool, true, false, none, some, List, [],
  ◌∷◌, ◌++◌, append-nil, append_assoc, arith, ◌==◌, if◌then◌else◌, Bool-cases, ||-false, length,
  is_nil, length-append, All, Bytes, codes, has, str_eq, starts_with, str_eq_iff,
}
use yafc.Strq.Path.{
  is_end, collapse_from, collapse_one, squeeze, collapse_all, is_dos, path_collapse,
}
use yafc.Strq.Path.Collapse.{
  IsName, path_of, or_root, up, collapse-names, path_of-slash, collapse_one-slash, collapse_one-dot,
  collapse_one-dots,
}

-- A component of a path.
pub record IsPart (c : Bytes) : Type 0 where
  pub not_empty : is_nil c ≡ false
  pub no_slash : has c b'/' ≡ false

abbrev pub render : List Bytes → Bytes
render [] = []
render (c ∷ cs) = b'/' ∷ (c ++ render cs)

-- The directories that the components lead to, the last one first: `.` stays, `..` goes up, and
-- stays at the root.
abbrev pub step : Bytes → List Bytes → List Bytes
step c ws = if str_eq c (codes ".") then ws else if str_eq c (codes "..") then up ws else c ∷ ws

abbrev pub resolve : List Bytes → List Bytes → List Bytes
resolve ws [] = ws
resolve ws (c ∷ cs) = resolve (step c ws) cs

abbrev pub ends_in_dot : List Bytes → Bool
ends_in_dot [] = false
ends_in_dot (c ∷ []) = str_eq c (codes ".")
ends_in_dot (c ∷ d ∷ cs) = ends_in_dot (d ∷ cs)

or_root-slash : (p x : Bytes) → or_root (p ++ b'/' ∷ x) ≡ p ++ b'/' ∷ x
or_root-slash [] x = refl
or_root-slash (c ∷ p) x = refl

render-end : (cs : List Bytes) → is_end (render cs) ≡ true
render-end [] = refl
render-end (c ∷ cs) = refl

up-names : (ws : List Bytes) → All IsName ws → All IsName (up ws)
up-names [] n = tt
up-names (w ∷ ws) n = n.1

collapse_all-stop : (f : ℕ) (path : Bytes) → collapse_one path ≡ none → collapse_all f path ≡ path
unfolding collapse_all
collapse_all-stop zero path e = refl
collapse_all-stop (suc f) path e = rw (collapse_all, e)

collapse_all-round :
    (f : ℕ) (path shorter : Bytes)
    → collapse_one path ≡ some shorter
    → collapse_all (suc f) path ≡ collapse_all f shorter
unfolding collapse_all
collapse_all-round f path shorter e = rw (collapse_all, e)

-- Names alone are not changed.
collapse_one-names : (ws : List Bytes) → All IsName ws → collapse_one (or_root (path_of ws)) ≡ none
collapse_one-names [] n = unfold collapse_one collapse_from starts_with in refl
collapse_one-names (w ∷ ws) n =
    let (u, e) = path_of-slash ws w in
    let path = path_of ws ++ b'/' ∷ w in
    let scan = collapse-names path (w ∷ ws) [] n refl in
    let none_left : collapse_from path (length path) (length (path_of ws)) [] ≡ none =
      unfold collapse_from in refl in
    rw (or_root-slash (path_of ws) w) (
      collapse_one-slash path u e
      ∙ ap (collapse_from path 0 0) (sym (append-nil path))
      ∙ scan
      ∙ none_left)

collapse_all-resolve :
    (f : ℕ) (ws cs : List Bytes)
    → All IsName ws
    → All IsPart cs
    → ends_in_dot cs ≡ false
    → length cs ≤ f
    → collapse_all f (or_root (path_of ws ++ render cs)) ≡ or_root (path_of (resolve ws cs))
collapse_all-resolve f ws [] n p d l =
    rw (append-nil (path_of ws)) (collapse_all-stop f _ (collapse_one-names ws n))
collapse_all-resolve zero ws (c ∷ cs) n p d l = absurd (omega arith)
collapse_all-resolve (suc f) ws (c ∷ cs) n p d l = elim (Bool-cases (str_eq c (codes "."))) [
  | inl e ↦
      let more = collapse_all-resolve f ws cs n p.1 (tail_dot cs d) (omega arith) in
      dot_round cs ((str_eq_iff c (codes ".")).0 e) d e more
  | inr e ↦ elim (Bool-cases (str_eq c (codes ".."))) [
    | inl k ↦
        let same = (str_eq_iff c (codes "..")).0 k in
        let more =
          collapse_all-resolve f (up ws) cs (up-names ws n) p.1 (tail_dot cs d) (omega arith) in
        rw (e, k, same, or_root-slash (path_of ws) (codes ".." ++ render cs))
          (collapse_all-round f _ _ (collapse_one-dots ws (render cs) n (render-end cs)) ∙ more)
    | inr k ↦
        let name : IsName c = record {
          not_empty = p.0.not_empty;
          no_slash = p.0.no_slash;
          not_dot = e;
          not_dots = k;
        } in
        let more =
          collapse_all-resolve (suc f) (c ∷ ws) cs (name, n) p.1 (tail_dot cs d) (omega arith) in
        rw (e, k, ← append_assoc (path_of ws) (b'/' ∷ c) (render cs)) more
  ]
]
  where
    tail_dot : (cs : List Bytes) → ends_in_dot (c ∷ cs) ≡ false → ends_in_dot cs ≡ false
    tail_dot [] d = refl
    tail_dot (x ∷ cs) d = d

    dot_round :
        (cs : List Bytes)
        → c ≡ codes "."
        → ends_in_dot (c ∷ cs) ≡ false
        → str_eq c (codes ".") ≡ true
        → collapse_all f (or_root (path_of ws ++ render cs)) ≡ or_root (path_of (resolve ws cs))
        → collapse_all (suc f) (or_root (path_of ws ++ render (c ∷ cs)))
          ≡ or_root (path_of (resolve ws (c ∷ cs)))
    dot_round [] same d e more = absurd (ground (arith, d, e))
    dot_round (x ∷ cs) same d e more =
        let below = x ++ render cs in
        rw (e, same, or_root-slash (path_of ws) (b'.' ∷ b'/' ∷ below))
          (collapse_all-round f _ _ (collapse_one-dot ws below n)
            ∙ ap (collapse_all f) (sym (or_root-slash (path_of ws) below))
            ∙ more)

length-render : (cs : List Bytes) → length cs ≤ length (render cs)
length-render [] = omega arith
length-render (c ∷ cs) = omega (arith, length-append c (render cs), length-render cs)

squeeze-plain : (w t : Bytes) → has w b'/' ≡ false → squeeze (w ++ t) ≡ w ++ squeeze t
unfolding squeeze
squeeze-plain [] t h = refl
squeeze-plain (c ∷ []) [] h = refl
squeeze-plain (c ∷ []) (d ∷ t) h = let (k, l) = ||-false (c == b'/') false h in rw k
squeeze-plain (c ∷ d ∷ w) t h =
    let (k, l) = ||-false (c == b'/') (has (d ∷ w) b'/') h in
    rw k (ap (◌∷◌ c) (squeeze-plain (d ∷ w) t l))

squeeze-slash :
    (c : ℕ) (s : Bytes) → (c == b'/') ≡ false → squeeze (b'/' ∷ c ∷ s) ≡ b'/' ∷ squeeze (c ∷ s)
unfolding squeeze
squeeze-slash c s h = rw h

squeeze-render : (cs : List Bytes) → All IsPart cs → squeeze (render cs) ≡ render cs
squeeze-render [] p = unfold squeeze in refl
squeeze-render ([] ∷ cs) p = absurd (ground (arith, p.0.not_empty))
squeeze-render ((c ∷ w) ∷ cs) p =
    let (k, l) = ||-false (c == b'/') (has w b'/') p.0.no_slash in
    squeeze-slash c (w ++ render cs) k
    ∙ ap (◌∷◌ b'/') (squeeze-plain (c ∷ w) (render cs) p.0.no_slash)
    ∙ ap (λ s. b'/' ∷ c ∷ (w ++ s)) (squeeze-render cs p.1)

-- An absolute path of components, none of them empty, that does not end in `.` and is no DOS path
-- collapses to the path of the directories that its components lead to from the root.
pub path_collapse-resolve :
    (c : Bytes) (cs : List Bytes)
    → All IsPart (c ∷ cs)
    → ends_in_dot (c ∷ cs) ≡ false
    → is_dos (render (c ∷ cs)) ≡ false
    → path_collapse (render (c ∷ cs)) ≡ or_root (path_of (resolve [] (c ∷ cs)))
unfolding path_collapse
path_collapse-resolve c cs p d u =
    let path = render (c ∷ cs) in
    rw (path_collapse, u, squeeze-render (c ∷ cs) p)
      (collapse_all-resolve (length path) [] (c ∷ cs) tt p d (length-render (c ∷ cs)))
