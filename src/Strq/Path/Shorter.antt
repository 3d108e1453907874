-- ===== src/Strq/Path/Shorter.antt =====
-- The loop of `path_collapse` of libmhe/strq.c (under src/) on any path.
use yafc.Base.{
  ℕ, zero, suc, ◌+◌, ◌-◌, ◌≤◌, ◌<◌, ◌≡◌, inl, inr, true, false, not, ◌&&◌, Option, none, some, [],
  ◌∷◌, ◌++◌, arith, ◌==◌, if◌then◌else◌, ltb→lt, if-both, Bool-cases, Option-cases, &&-true, length,
  get_or, take, drop, is_nil, length-append, length-take, length-drop, Bytes, codes, has,
  starts_with,
}
use yafc.Strq.Path.{is_end, cut_parent, collapse_from, has_dot_head, collapse_one, collapse_all}

Shorter : Bytes → Option Bytes → Type 0
Shorter path none = Unit
Shorter path (some s) = length s < length path

length-cut :
    (path : Bytes) (osp m : ℕ)
    → osp + 3 ≤ length path
    → 3 ≤ m
    → length (take osp path ++ drop m (drop osp path)) < length path
length-cut path osp m h k = omega (
  arith,
  length-append (take osp path) (drop m (drop osp path)),
  length-take osp path,
  length-drop m (drop osp path),
  length-drop osp path,
)

length-cut_parent :
    (path : Bytes) (osp sp : ℕ)
    → osp ≤ sp
    → sp + 3 ≤ length path
    → length (cut_parent path osp sp) < length path
length-cut_parent path osp sp h k =
    let x = if osp == 0 && not (get_or path 0 0 == b'/') then 1 else 0 in
    let cut = take osp path ++ drop (sp + 3 + x - osp) (drop osp path) in
    let P : Bytes → Type 0 = λ z. length z < length path in
    let root = if get_or path 0 0 == b'/' then codes "/" else codes "./" in
    if-both P (is_nil cut) root cut
      (if-both P (get_or path 0 0 == b'/') (codes "/") (codes "./") (omega arith) (omega arith))
      (length-cut path osp (sp + 3 + x - osp) (omega arith) (omega arith))

-- Behind the slash at `i` stands `d`, and a `.` there is pulled out.
length-dot :
    (path : Bytes) (i d : ℕ) (s : Bytes)
    → i + suc (suc (length s)) ≡ length path
    → length (take (i + 1) path ++ drop 2 (d ∷ s)) < length path
length-dot path i d s k =
    omega (
      arith,
      length-append (take (i + 1) path) (drop 1 s),
      length-take (i + 1) path,
      length-drop 1 s,
    )

length-dots :
    (path : Bytes) (i sp d : ℕ) (s : Bytes) (other : Option Bytes)
    → sp ≤ i
    → i + suc (suc (length s)) ≡ length path
    → Shorter path other
    → Shorter path (
        if d == b'.' && get_or s 0 0 == b'.' && is_end (drop 1 s)
        then some (if is_nil (drop 1 s) && i == 0 then codes "/" else cut_parent path sp i)
        else other)
unfolding Shorter
length-dots path i sp d [] other h k p =
    let e : (d == b'.' && false && true) ≡ false = ground arith in rw e p
length-dots path i sp d (x ∷ s) other h k p =
    let P : Bytes → Type 0 = λ z. length z < length path in
    let cut = cut_parent path sp i in
    let shorter = length-cut_parent path sp i h (omega arith) in
    let b = is_nil s && i == 0 in
    if-both (Shorter path) (d == b'.' && x == b'.' && is_end s)
      (some (if b then codes "/" else cut)) other
      (if-both P b (codes "/") cut (omega arith) shorter) p

collapse_from-Shorter :
    (path : Bytes) (i sp : ℕ) (s : Bytes)
    → sp ≤ i
    → i + length s ≡ length path
    → Shorter path (collapse_from path i sp s)
unfolding collapse_from Shorter
collapse_from-Shorter path i sp [] h k = tt
collapse_from-Shorter path i sp (c ∷ []) h k = tt
collapse_from-Shorter path i sp (c ∷ d ∷ s) h k =
    let plain = collapse_from-Shorter path (i + 1) sp (d ∷ s) (omega arith) (omega arith) in
    let behind = collapse_from-Shorter path (i + 2) i s (omega arith) (omega arith) in
    elim (Bool-cases (c == b'/')) [
      | inl e ↦ rw e (elim (Bool-cases (d == b'.' && is_end s)) [
        | inl k' ↦ rw k' (length-dot path i d s k)
        | inr k' ↦ rw k' (length-dots path i sp d s (collapse_from path (i + 2) i s) h k behind)
      ])
      | inr e ↦ rw e plain
    ]

collapse_one-Shorter : (path : Bytes) → Shorter path (collapse_one path)
unfolding collapse_one Shorter starts_with
collapse_one-Shorter path =
    let scan = collapse_from-Shorter path 0 0 path (omega arith) (omega arith) in
    elim (Bool-cases (has path b'/')) [
      | inl e ↦ rw e (elim (Bool-cases (has_dot_head path)) [
        | inl k ↦ rw k (
            let long = ltb→lt 2 (length path) (&&-true _ _ k).1 in
            omega (arith, long, length-drop 2 path))
        | inr k ↦ rw k scan
      ])
      | inr e ↦ rw e tt
    ]

collapse_one-some : (path s : Bytes) → collapse_one path ≡ some s → length s < length path
unfolding Shorter
collapse_one-some path s e = rw e at (collapse_one-Shorter path)

-- The loop `while(collapse_one(path))` ends within as many rounds as the path has bytes: nothing is
-- left to collapse then.
pub collapse_all-fuel :
    (f : ℕ) (path : Bytes) → length path ≤ f → collapse_one (collapse_all f path) ≡ none
unfolding collapse_all
collapse_all-fuel zero path h = elim (Option-cases (collapse_one path)) [
  | inl e ↦ e
  | inr (s, e) ↦ absurd (omega (arith, collapse_one-some path s e))
]
collapse_all-fuel (suc f) path h = elim (Option-cases (collapse_one path)) [
  | inl e ↦ rw (collapse_all, e) e
  | inr (s, e) ↦
      let less = collapse_one-some path s e in
      rw (collapse_all, e) (collapse_all-fuel f s (omega (arith, less)))
]
