-- ===== src/Args.antt =====
-- libmhe/args.c (under src/): argument vectors. An `args_t` is its count and its array; a cell is
-- the null pointer or a string, and `free` and `xmalloc` leave no trace but the zeroed cells.
-- Counts and sums of indices stay below 2^32, but for `last++`, whose callers pass any value.
pub mod Delete
pub mod Edit
pub mod Insert
pub mod Split
use yafc.Base.{
  ℕ, zero, suc, ◌+◌, ◌-◌, ◌%◌, ◌^◌, Bool, true, Option, none, some, List, [], ◌∷◌, ◌++◌, map, ltb,
  leb, if◌then◌else◌, length, get_or, take, drop, is_nil, Bytes, xstrdup,
}
use Prim.Native.Nat.{min}
use yafc.Strq.Quote.{unquote}
use yafc.Strq.Scan.{strqnchr, split_all}
use yafc.Strq.Scan.Words.{join}

abbrev pub Cell : Type 0
Cell = Option Bytes

pub record Args : Type 0 where
  pub argc : ℕ
  pub argv : List Cell

-- args_create
abbrev pub empty : Args
empty = record { argc = 0; argv = [] }

-- What the vector holds.
abbrev pub items : Args → List Cell
items a = take a.argc a.argv

-- A write behind the array's end does not happen in these loops, and changes nothing here.
abbrev pub set_cell : ℕ → Cell → List Cell → List Cell
set_cell i v [] = []
set_cell zero v (x ∷ xs) = v ∷ xs
set_cell (suc i) v (x ∷ xs) = x ∷ set_cell i v xs

-- xstrdup on a cell: the null pointer and the empty string both give the null pointer.
abbrev pub dup : Cell → Cell
dup none = none
dup (some s) = xstrdup s

-- The second loop of `args_del`, over `rounds` cells from `i` on: `argv[i-n] = argv[i]; argv[i] = 0`.
unfoldable pub shift_cells : ℕ → ℕ → ℕ → List Cell → List Cell
shift_cells zero i n argv = argv
shift_cells (suc rounds) i n argv =
    shift_cells rounds (i + 1) n (set_cell i none (set_cell (i - n) (get_or argv i none) argv))

-- How many rounds the first loop makes.
abbrev pub deleted : Args → ℕ → ℕ → ℕ
deleted a first n = min n (a.argc - first)

-- For `first + n` below 2^32. The source's sum wraps around.
unfoldable pub args_del : Args → ℕ → ℕ → Args
unfolding shift_cells
args_del a first n = record {
  argc = a.argc - deleted a first n;
  argv = shift_cells (a.argc - (first + n)) (first + n) n a.argv;
}

-- What `args_del` leaves of the cells is freed.
unfoldable pub args_clear : Args → Args
args_clear a = empty

-- The bound of `args_init3` and `args_add_args3`: `last++`, and then no more than there are.
abbrev pub clamp_last : ℕ → ℕ → ℕ
clamp_last last argc = min ((last + 1) % 2 ^ 32) argc

-- The copies that their loops make.
abbrev pub copies : List Cell → ℕ → ℕ → List Cell
copies argv first last = map dup (take (last - first) (drop first argv))

unfoldable pub args_init3 : Args → ℕ → List Cell → ℕ → ℕ → Args
args_init3 a argc argv first last =
    let end = clamp_last last argc in
    if leb end first then a else record { argc = end - first; argv = copies argv first end }

unfoldable pub args_init2 : Args → ℕ → List Cell → ℕ → Args
unfolding args_init3
args_init2 a argc argv first = args_init3 a argc argv first argc

unfoldable pub args_init : Args → ℕ → List Cell → Args
unfolding args_init2
args_init a argc argv = args_init2 a argc argv 0

unfoldable pub args_add_args3 : Args → Args → ℕ → ℕ → Args
args_add_args3 a b first last =
    let end = clamp_last last b.argc in
    if leb end first
    then a
    else record { argc = a.argc + (end - first); argv = items a ++ copies b.argv first end }

unfoldable pub args_add_args2 : Args → Args → ℕ → Args
unfolding args_add_args3
args_add_args2 a b first = args_add_args3 a b first b.argc

unfoldable pub args_add_args : Args → Args → Args
unfolding args_add_args2
args_add_args a b = args_add_args2 a b 0

unfoldable pub args_add_null : Args → Args
unfolding args_add_args
args_add_null a = args_add_args a (record { argc = 1; argv = none ∷ [] })

-- The strings of the cells, as `args_cat` reads them: a null pointer is a fault.
unfoldable pub strings : List Cell → Option (List Bytes)
strings [] = some []
strings (none ∷ cs) = none
strings (some s ∷ cs) = elim (strings cs) [ none ↦ none | some ss ↦ some (s ∷ ss) ]

unfoldable pub args_cat2 : Args → ℕ → Option Bytes
unfolding strings
args_cat2 a first = elim (strings (drop first (items a))) [
  | none ↦ none
  | some ss ↦ some (join b' ' ss)
]

-- The cells that `split_args` fills, in an array of `strqnchr(str, ' ') + 1`. `none` is undefined
-- behaviour: `strqnchr` reads behind the string, or more tokens are written than there are cells.
abbrev pub fill : ℕ → List Bytes → Option Args
fill cells ts =
    if leb (length ts) cells
    then some (record { argc = length ts; argv = map xstrdup ts })
    else none

unfoldable pub split_args : Bytes → Option Args
unfolding strqnchr split_all
split_args str = elim (strqnchr str b' ') [
  | none ↦ none
  | some n ↦ fill (n + 1) (split_all b' ' str)
]

unfoldable pub args_push_back : Args → Bytes → Option Args
unfolding split_args args_add_args
args_push_back a str = elim (split_args str) [ none ↦ none | some b ↦ some (args_add_args a b) ]

unfoldable pub args_push_back_nosplit : Args → Bytes → Args
unfolding args_add_args
args_push_back_nosplit a str = args_add_args a (record { argc = 1; argv = xstrdup str ∷ [] })

unfoldable pub args_push_front : Args → Bytes → Option Args
unfolding split_args args_add_args
args_push_front a str = elim (split_args str) [ none ↦ none | some b ↦ some (args_add_args b a) ]

-- The test of `args_remove_empty`.
abbrev pub is_empty : Cell → Bool
is_empty none = true
is_empty (some s) = is_nil s

-- Each round drops a cell or goes on to the next: as many rounds as cells.
unfoldable pub remove_empty_from : ℕ → ℕ → Args → Args
unfolding args_del
remove_empty_from zero i a = a
remove_empty_from (suc rounds) i a =
    let drop_it = remove_empty_from rounds i (args_del a i 1) in
    let keep_it = remove_empty_from rounds (i + 1) a in
    if leb a.argc i then a else if is_empty (get_or a.argv i none) then drop_it else keep_it

unfoldable pub args_remove_empty : Args → Args
unfolding remove_empty_from
args_remove_empty a = remove_empty_from a.argc 0 a

-- `unquote` on each cell; a null pointer is a fault.
unfoldable pub unquote_cells : List Cell → Option (List Cell)
unfolding unquote
unquote_cells [] = some []
unquote_cells (none ∷ cs) = none
unquote_cells (some s ∷ cs) = elim (unquote_cells cs) [
  | none ↦ none
  | some ds ↦ some (some (unquote s) ∷ ds)
]

unfoldable pub args_unquote : Args → Option Args
unfolding unquote_cells
args_unquote a = elim (unquote_cells (items a)) [
  | none ↦ none
  | some cs ↦ some (record a { argv = cs ++ drop a.argc a.argv })
]

unfoldable pub args_insert_string : Args → ℕ → Bytes → Option Args
unfolding args_init2 args_del args_push_back args_add_args
args_insert_string a index str =
    if ltb a.argc index
    then some a
    else let tail = args_init2 empty a.argc a.argv index in
      elim (args_push_back (args_del a index (a.argc - index)) str) [
        | none ↦ none
        | some b ↦ some (args_add_args b tail)
      ]

unfoldable pub args_insert_args : Args → ℕ → Args → ℕ → ℕ → Args
unfolding args_init2 args_del args_add_args3 args_add_args
args_insert_args a index ins first last =
    if ltb a.argc index
    then a
    else let tail = args_init2 empty a.argc a.argv index in
      args_add_args (args_add_args3 (args_del a index (a.argc - index)) ins first last) tail
