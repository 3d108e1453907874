-- ===== src/Tests/Strings.antt =====
-- Quoting, tokens, encodings and paths on sample strings.
use yafc.Base.{◌≡◌, refl, ◌≢◌, true, none, [], ◌∷◌, arith, All, Bytes, codes, has, str_eq}
use yafc.Strq.Rfc1738.{encode_rfc1738, decode_rfc1738}
use yafc.Strq.Rfc1738.RoundTrip.{decode-encode_rfc1738}
use yafc.Strq.Quote.{dequote_filename, backslash_quote, single_match, quote_expanded}
use yafc.Strq.Quote.RoundTrip.{dequote-quote_expanded}
use yafc.Strq.Scan.{strqnchr}
use yafc.Strq.Scan.Count.{IsBare, strqnchr-overrun}
use yafc.Strq.Path.{path_collapse}
use yafc.Strq.Path.Resolve.{IsPart, path_collapse-resolve}
use yafc.Strq.Path.Shorter.{collapse_all-fuel}
use yafc.Strq.Path.{collapse_one, collapse_all}
use yafc.Tests.{texts}

abbrev name : Bytes
name = codes "my file"

abbrev directory : Bytes
directory = codes "/pub/a b%"

decode-encode_rfc1738_example : decode_rfc1738 (encode_rfc1738 (codes "/") directory) ≡ directory
decode-encode_rfc1738_example = decode-encode_rfc1738 (codes "/") directory (texts directory refl)

abbrev breaks : Bytes
breaks = codes " \t\n\"'"

dequote-quote_expanded_example :
    (dequote_filename (quote_expanded breaks single_match 0 name) ≡ backslash_quote name)
    × (has name b' ' ≡ true → dequote_filename (quote_expanded breaks single_match 0 name) ≢ name)
dequote-quote_expanded_example = dequote-quote_expanded breaks name single_match refl refl

abbrev line : Bytes
line = codes "get a\\ b c"

abbrev bare : Bytes
bare = codes "ab "

bare-IsBare : All IsBare bare
bare-IsBare =
    let r : IsBare b'a' = record { unquoted = refl; unescaped = refl } in
    let s : IsBare b'b' = record { unquoted = refl; unescaped = refl } in
    let t : IsBare b' ' = record { unquoted = refl; unescaped = refl } in (r, (s, (t, tt)))

strqnchr-overrun_example : strqnchr (codes "ab \\x") b' ' ≡ none
strqnchr-overrun_example = strqnchr-overrun bare b'x' b' ' bare-IsBare

path_collapse-resolve_example : path_collapse (codes "/a/../b/./c") ≡ codes "/b/c"
path_collapse-resolve_example =
    let p : IsPart (codes "a") = record { not_empty = refl; no_slash = refl } in
    let up : IsPart (codes "..") = record { not_empty = refl; no_slash = refl } in
    let q : IsPart (codes "b") = record { not_empty = refl; no_slash = refl } in
    let here : IsPart (codes ".") = record { not_empty = refl; no_slash = refl } in
    let r : IsPart (codes "c") = record { not_empty = refl; no_slash = refl } in
    unfold str_eq in
    path_collapse-resolve (codes "a") (codes ".." ∷ codes "b" ∷ codes "." ∷ codes "c" ∷ [])
      (p, (up, (q, (here, (r, tt))))) refl refl

collapse_all-fuel_example : collapse_one (collapse_all 5 (codes "./a/.")) ≡ none
collapse_all-fuel_example = collapse_all-fuel 5 (codes "./a/.") (omega arith)
