-- ===== src/Tests/Vectors.antt =====
-- Argument vectors on sample command lines.
use yafc.Base.{
  ◌≡◌, refl, none, some, List, [], ◌∷◌, ◌++◌, map, arith, take, drop, All, Bytes, codes,
}
use yafc.Strq.Quote.{backslash_quote_impl, backslash_quote}
use yafc.Strq.Scan.{advance, counts, count_from, strqnchr, split_all}
use yafc.Strq.Scan.Count.{IsBare}
use yafc.Args.{
  Args, items, args_del, args_remove_empty, args_insert_args, split_args, args_unquote, dup,
}
use yafc.Args.Delete.{args_del-items, args_del-zero}
use yafc.Args.Edit.{IsValid, args_remove_empty-items}
use yafc.Args.Insert.{chosen, args_insert_args-items}
use yafc.Args.Split.{quoted_line, args_unquote-split_args, split_args-overflow}

abbrev command : List Bytes
command = codes "put" ∷ codes "my file" ∷ codes "it's" ∷ []

command-counted : strqnchr (quoted_line command) b' ' ≡ some 2
unfolding strqnchr count_from advance counts backslash_quote backslash_quote_impl
command-counted = refl

args_unquote-split_args_example :
    (a : Args) × (b : Args) × (split_args (quoted_line command) ≡ some a)
    × (args_unquote a ≡ some b)
    × (items b ≡ map (λ w. some w) command)
args_unquote-split_args_example =
    args_unquote-split_args command 2
      (
        (λ e. absurd (ground arith)),
        ((λ e. absurd (ground arith)), ((λ e. absurd (ground arith)), tt)),
      )
      command-counted (omega arith)

abbrev bare : Bytes
bare = codes "ls -l"

bare-IsBare : All IsBare bare
bare-IsBare =
    let a : IsBare b'l' = record { unquoted = refl; unescaped = refl } in
    let b : IsBare b's' = record { unquoted = refl; unescaped = refl } in
    let c : IsBare b' ' = record { unquoted = refl; unescaped = refl } in
    let d : IsBare b'-' = record { unquoted = refl; unescaped = refl } in
    (a, (b, (c, (d, (a, tt)))))

split_args-overflow_example :
    (strqnchr (codes "\\a\"\" b c") b' ' ≡ some 0)
    × (split_all b' ' (codes "\\a\"\" b c") ≡ codes "\\a\"\"" ∷ codes "b" ∷ codes "c" ∷ [])
    × (split_args (codes "\\a\"\" b c") ≡ none)
split_args-overflow_example =
    split_args-overflow b'a' (codes "b") (codes "c" ∷ [])
      (((λ e. absurd (ground arith)), (refl, tt)), (((λ e. absurd (ground arith)), (refl, tt)), tt))

abbrev three : Args
three = record { argc = 3; argv = some (codes "a") ∷ none ∷ some (codes "c") ∷ [] }

args_del-items_example : items (args_del three 1 1) ≡ some (codes "a") ∷ some (codes "c") ∷ []
args_del-items_example = args_del-items three 1 1 (omega arith) (omega arith) (omega arith)

args_del-zero_example : items (args_del three 1 0) ≡ some (codes "a") ∷ none ∷ none ∷ []
args_del-zero_example = args_del-zero three 1 (omega arith) (omega arith)

three-IsValid : IsValid three
three-IsValid = record {
  fits = omega arith;
  small = omega arith;
  made = (refl, (refl, (refl, tt)));
}

args_remove_empty-items_example :
    items (args_remove_empty three) ≡ some (codes "a") ∷ some (codes "c") ∷ []
args_remove_empty-items_example = args_remove_empty-items three three-IsValid

args_insert_args-items_example :
    items (args_insert_args three 1 three 0 0)
    ≡ take 1 (items three) ++ (map dup (chosen three 0 0) ++ drop 1 (items three))
args_insert_args-items_example =
    args_insert_args-items three three 1 0 0 three-IsValid (omega arith) (omega arith) (omega arith)
