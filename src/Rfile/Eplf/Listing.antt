-- ===== src/Rfile/Eplf/Listing.antt =====
-- What `rfile_parse_eplf` of ftp/rfile.c (under src/) makes of a line of facts and a name.
use yafc.Base.{
  ℕ, ◌≡◌, refl, ap, ◌∙◌, Bool, true, false, ◌||◌, Option, none, some, List, [], ◌∷◌, ◌++◌, arith,
  ◌==◌, if◌then◌else◌, drop, All, All-append, Bytes, codes, has,
}
use yafc.Strq.Scan.{split_all}
use yafc.Strq.Scan.Words.{Quotes, join, IsClear, split_all-clear}
use yafc.Rfile.File.{File}
use yafc.Rfile.Eplf.{
  strtoull, in_directory, mark_directory, blank, eplf_fact, eplf_facts, with_path, rfile_parse_eplf,
}

-- The bytes that `strqsep` looks at when it takes a line apart.
abbrev pub scanned : Bytes
scanned = codes "\\'\","

abbrev pub is_fact : ℕ → Bytes → Bool
is_fact c [] = false
is_fact c (d ∷ e) = d == c

-- The value of the last fact of a kind.
abbrev pub last_value : ℕ → ℕ → List Bytes → ℕ
last_value c n [] = n
last_value c n (e ∷ es) = last_value c (if is_fact c e then strtoull (drop 1 e) else n) es

abbrev pub has_fact : ℕ → List Bytes → Bool
has_fact c [] = false
has_fact c (e ∷ es) = is_fact c e || has_fact c es

-- The line of some facts and a name behind them.
abbrev pub eplf_line : List Bytes → Bytes → Bytes
eplf_line facts name = b'+' ∷ join b',' (facts ++ (0x09 ∷ name) ∷ [])

scanned-Quotes : Quotes b',' scanned
scanned-Quotes = record {
  backslashes = refl;
  singles = refl;
  doubles = refl;
  delims = refl;
  not_backslash = refl;
  not_quote = refl;
}

module _ (color_of : File → Option Bytes) (time_to_string : ℕ → Bytes) (dirpath : Bytes) where
  abbrev fact : File → Bytes → File
  fact = eplf_fact color_of time_to_string dirpath

  abbrev facts_of : File → List Bytes → File
  facts_of = eplf_facts color_of time_to_string dirpath

  fact-size :
      (f : File) (e : Bytes)
      → (fact f e).size ≡ (if is_fact b's' e then strtoull (drop 1 e) else f.size)
  unfolding eplf_fact
  fact-size f [] = refl
  fact-size f (c ∷ e) = ground arith

  fact-mtime :
      (f : File) (e : Bytes)
      → (fact f e).mtime ≡ (if is_fact b'm' e then strtoull (drop 1 e) else f.mtime)
  unfolding eplf_fact
  fact-mtime f [] = refl
  fact-mtime f (c ∷ e) = ground arith

  fact-perm :
      (f : File) (e : Bytes)
      → (fact f e).perm ≡ (if is_fact b'/' e then mark_directory f.perm else f.perm)
  unfolding eplf_fact
  fact-perm f [] = refl
  fact-perm f (c ∷ e) = ground arith

  facts-append :
      (f : File) (xs ys : List Bytes) → facts_of f (xs ++ ys) ≡ facts_of (facts_of f xs) ys
  unfolding eplf_facts
  facts-append f [] ys = refl
  facts-append f (x ∷ xs) ys = facts-append (fact f x) xs ys

  facts-size : (f : File) (es : List Bytes) → (facts_of f es).size ≡ last_value b's' f.size es
  unfolding eplf_facts
  facts-size f [] = refl
  facts-size f (e ∷ es) = facts-size (fact f e) es ∙ ap (λ n. last_value b's' n es) (fact-size f e)

  facts-mtime : (f : File) (es : List Bytes) → (facts_of f es).mtime ≡ last_value b'm' f.mtime es
  unfolding eplf_facts
  facts-mtime f [] = refl
  facts-mtime f (e ∷ es) =
      facts-mtime (fact f e) es ∙ ap (λ n. last_value b'm' n es) (fact-mtime f e)

  mark-twice : (p : Option Bytes) → mark_directory (mark_directory p) ≡ mark_directory p
  mark-twice none = refl
  mark-twice (some []) = refl
  mark-twice (some (c ∷ p)) = refl

  facts-perm :
      (f : File) (es : List Bytes)
      → (facts_of f es).perm ≡ (if has_fact b'/' es then mark_directory f.perm else f.perm)
  unfolding eplf_facts
  facts-perm f [] = refl
  facts-perm f (e ∷ es) =
      facts-perm (fact f e) es
      ∙ rw (fact-perm f e) (marked f.perm (is_fact b'/' e) (has_fact b'/' es))
    where
      marked :
          (p : Option Bytes) (a b : Bool)
          → (if b
              then mark_directory (if a then mark_directory p else p)
              else if a
              then mark_directory p
              else p)
            ≡ (if a || b then mark_directory p else p)
      marked p true true = mark-twice p
      marked p true false = refl
      marked p false true = refl
      marked p false false = refl

  facts-name :
      (f : File) (es : List Bytes) (name : Bytes)
      → facts_of f (es ++ (0x09 ∷ name) ∷ [])
        ≡ record (facts_of f es) { path = some (in_directory dirpath name) }
  facts-name f es name =
      facts-append f es ((0x09 ∷ name) ∷ []) ∙ (unfold eplf_facts eplf_fact in refl)

  line-split :
      (es : List Bytes) (name : Bytes)
      → All (IsClear scanned) es
      → All (λ c. has scanned c ≡ false) name
      → split_all b',' (join b',' (es ++ (0x09 ∷ name) ∷ [])) ≡ es ++ (0x09 ∷ name) ∷ []
  line-split es name h k =
      let last : IsClear scanned (0x09 ∷ name) = ((λ e. absurd (ground arith)), (refl, k)) in
      split_all-clear b',' scanned (es ++ (0x09 ∷ name) ∷ []) scanned-Quotes
        (All-append (IsClear scanned) es ((0x09 ∷ name) ∷ []) h (last, tt))

  -- What a listing's line tells of a file.
  pub record Listed (es : List Bytes) (name : Bytes) (result : File × Bool) : Type 0 where
    pub accepted : result.1 ≡ true
    pub path : result.0.path ≡ some (in_directory dirpath name)
    pub perm :
        result.0.perm
        ≡ (if has_fact b'/' es then some (codes "drw-r--r--") else some (codes "-rw-r--r--"))
    pub size : result.0.size ≡ last_value b's' 0 es
    pub mtime : result.0.mtime ≡ last_value b'm' 0 es

  -- A line of facts and a name, none with a quote, a backslash or a comma, is accepted: the path is
  -- the name in the directory, the file is a directory if a fact says so, and its size and time are
  -- those of the last facts that give them.
  pub rfile_parse_eplf-listing :
      (f : File) (es : List Bytes) (name : Bytes)
      → All (IsClear scanned) es
      → All (λ c. has scanned c ≡ false) name
      → Listed es name (rfile_parse_eplf color_of time_to_string f (eplf_line es name) dirpath)
  unfolding rfile_parse_eplf
  rfile_parse_eplf-listing f es name h k =
      let start = blank color_of time_to_string f in
      let e = ap (facts_of start) (line-split es name h k) ∙ facts-name start es name in
      rw (ap (with_path color_of time_to_string) e) record {
        accepted = refl;
        path = refl;
        perm = facts-perm start es;
        size = facts-size start es;
        mtime = facts-mtime start es;
      }
