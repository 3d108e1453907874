-- ===== src/Session/Marks/Flush.antt =====
-- What `ftp_cache_flush` of ftp/cache.c (under src/) leaves in the cache.
use yafc.Base.{
  ◌≡◌, refl, sym, ap, ◌∙◌, inl, inr, true, false, Option, none, some, List, [], ◌∷◌, ◌++◌, arith,
  if◌then◌else◌, if-both, Bool-cases, Bytes, str_eq, str_eq_iff,
}
use yafc.Strq.Path.{stripslash, base_dir_xptr}
use yafc.Session.{Session, Directory, Client}
use yafc.Session.Marks.{
  or_curdir, is_marked, add_mark, flush_one, flush_all, ftp_cache_flush, cache_find,
  ftp_path_absolute, ftp_cache_flush_mark, ftp_cache_flush_mark_for,
}

-- No two directories of the cache have the same path.
abbrev pub IsDistinct : List Directory → Type 0
IsDistinct [] = Unit
IsDistinct (r ∷ rs) = (cache_find (r.path) rs ≡ none) × IsDistinct rs

str_eq_self : (a : Bytes) → str_eq a a ≡ true
str_eq_self a = (str_eq_iff a a).1 refl

flush_one-other :
    (d dir : Bytes) (cache : List Directory)
    → str_eq d dir ≡ false
    → cache_find d (flush_one dir cache) ≡ cache_find d cache
unfolding cache_find flush_one
flush_one-other d dir [] h = refl
flush_one-other d dir (r ∷ rs) h = elim (Bool-cases (str_eq dir (r.path))) [
  | inl e ↦
      let p = (str_eq_iff dir (r.path)).0 e in
      let q : str_eq d (r.path) ≡ false = sym (ap (str_eq d) p) ∙ h in rw (e, q) refl
  | inr e ↦ rw e (ap (λ x. if str_eq d (r.path) then some r else x) (flush_one-other d dir rs h))
]

find-none :
    (d : Bytes) (r : Directory) (rs : List Directory)
    → cache_find d (r ∷ rs) ≡ none
    → (str_eq d (r.path) ≡ false) × (cache_find d rs ≡ none)
unfolding cache_find
find-none d r rs h = elim (Bool-cases (str_eq d (r.path))) [
  | inl e ↦ absurd (let k : some r ≡ none = (rw e at h) in ground (arith, k))
  | inr e ↦ (e, rw e at h)
]

find-flush_one :
    (d dir : Bytes) (cache : List Directory)
    → cache_find d cache ≡ none
    → cache_find d (flush_one dir cache) ≡ none
unfolding cache_find flush_one
find-flush_one d dir [] h = refl
find-flush_one d dir (r ∷ rs) h =
    let (e, k) = find-none d r rs h in
    if-both (λ x. cache_find d x ≡ none) (str_eq dir (r.path)) rs (r ∷ flush_one dir rs) k
      (rw e (find-flush_one d dir rs k))

flush_one-IsDistinct :
    (dir : Bytes) (cache : List Directory) → IsDistinct cache → IsDistinct (flush_one dir cache)
unfolding cache_find flush_one
flush_one-IsDistinct dir [] h = tt
flush_one-IsDistinct dir (r ∷ rs) h = elim (Bool-cases (str_eq dir (r.path))) [
  | inl e ↦ rw e (h.1)
  | inr e ↦ rw e (find-flush_one (r.path) dir rs h.0, flush_one-IsDistinct dir rs h.1)
]

flush_one-gone :
    (dir : Bytes) (cache : List Directory)
    → IsDistinct cache
    → cache_find dir (flush_one dir cache) ≡ none
unfolding cache_find flush_one
flush_one-gone dir [] h = refl
flush_one-gone dir (r ∷ rs) h = elim (Bool-cases (str_eq dir (r.path))) [
  | inl e ↦ let p = (str_eq_iff dir (r.path)).0 e in rw e (ap (λ x. cache_find x rs) p ∙ h.0)
  | inr e ↦ rw (e, e) (flush_one-gone dir rs h.1)
]

flush_all-find :
    (d : Bytes) (dirs : List Bytes) (cache : List Directory)
    → IsDistinct cache
    → cache_find d (flush_all dirs cache) ≡ (if is_marked d dirs then none else cache_find d cache)
unfolding flush_all is_marked
flush_all-find d [] cache h = refl
flush_all-find d (dir ∷ dirs) cache h =
    let ih = flush_all-find d dirs (flush_one dir cache) (flush_one-IsDistinct dir cache h) in
    elim (Bool-cases (str_eq d dir)) [
      | inl e ↦
          let p = (str_eq_iff d dir).0 e in
          let gone : cache_find d (flush_one dir cache) ≡ none =
            ap (λ x. cache_find x (flush_one dir cache)) p ∙ flush_one-gone dir cache h in
          rw e (
            ih
            ∙ ap (λ x. if is_marked d dirs then none else x) gone
            ∙ if-both (λ x. x ≡ none) (is_marked d dirs) none none refl refl)
      | inr e ↦
          rw e (ih ∙ ap (λ x. if is_marked d dirs then none else x) (flush_one-other d dir cache e))
    ]

-- Flushing a cache in which no two directories have the same path takes out exactly the marked
-- directories: a marked path is not found afterwards, and any other path gives what it gave before.
pub ftp_cache_flush-find :
    (d : Bytes) (s : Session)
    → IsDistinct (s.cache)
    → cache_find d ((ftp_cache_flush s).cache)
      ≡ (if is_marked d (s.dirs_to_flush) then none else cache_find d (s.cache))
unfolding ftp_cache_flush
ftp_cache_flush-find d s h = flush_all-find d (s.dirs_to_flush) (s.cache) h

is_marked-last : (p : Bytes) (ds : List Bytes) → is_marked p (ds ++ p ∷ []) ≡ true
unfolding is_marked
is_marked-last p [] = rw (str_eq_self p) refl
is_marked-last p (d ∷ ds) = rw (is_marked-last p ds) (ground arith)

is_marked-append :
    (p : Bytes) (ds es : List Bytes) → is_marked p ds ≡ true → is_marked p (ds ++ es) ≡ true
unfolding is_marked
is_marked-append p [] es h = absurd (ground (arith, h))
is_marked-append p (d ∷ ds) es h = elim (Bool-cases (str_eq p d)) [
  | inl e ↦ rw e refl
  | inr e ↦ rw e (is_marked-append p ds es (rw e at h))
]

pub add_mark-is_marked :
    (p : Bytes) (ds : List Bytes) → is_marked (stripslash p) (add_mark (some p) ds) ≡ true
unfolding add_mark
add_mark-is_marked p ds = elim (Bool-cases (is_marked (stripslash p) ds)) [
  | inl e ↦ rw e e
  | inr e ↦ rw e (is_marked-last (stripslash p) ds)
]

pub add_mark-kept :
    (q : Bytes) (p : Option Bytes) (ds : List Bytes)
    → is_marked q ds ≡ true
    → is_marked q (add_mark p ds) ≡ true
unfolding add_mark
add_mark-kept q none ds h = h
add_mark-kept q (some p) ds h =
    if-both (λ x. is_marked q x ≡ true) (is_marked (stripslash p) ds) ds (ds ++ stripslash p ∷ []) h
      (is_marked-append q ds (stripslash p ∷ []) h)

-- The absolute path of the directory that holds `path`.
abbrev pub holder : Client → Bytes → Session → Option Bytes
holder o path s = ftp_path_absolute o (or_curdir (base_dir_xptr path) (s.curdir)) s

-- The session with a mark.
abbrev pub marked : Option Bytes → Session → Session
marked dir s = record s { dirs_to_flush = add_mark dir (s.dirs_to_flush) }

pub mark_for-holder :
    (o : Client) (path : Bytes) (s : Session)
    → ftp_cache_flush_mark_for o path s ≡ marked (holder o path s) s
unfolding ftp_cache_flush_mark_for ftp_cache_flush_mark
mark_for-holder o path s = refl

-- A marked directory is out of the flushed cache.
pub flush-marked :
    (dir : Bytes) (s : Session)
    → IsDistinct (s.cache)
    → is_marked dir (s.dirs_to_flush) ≡ true
    → cache_find dir ((ftp_cache_flush s).cache) ≡ none
flush-marked dir s h k =
    ftp_cache_flush-find dir s h ∙ ap (λ b. if b then none else cache_find dir (s.cache)) k
