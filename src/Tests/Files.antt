-- ===== src/Tests/Files.antt =====
-- Remote files of a sample listing.
use yafc.Base.{ℕ, refl, Option, none, some, List, [], ◌∷◌, arith, All, Bytes, codes}
use yafc.Rfile.Perm.{perm2string}
use yafc.Rfile.File.{File, rfile_create}
use yafc.Rfile.Eplf.{rfile_parse_eplf}
use yafc.Strq.Scan.Words.{IsClear}
use yafc.Rfile.Eplf.Listing.{scanned, eplf_line, Listed, rfile_parse_eplf-listing}

abbrev no_color : File → Option Bytes
no_color f = none

abbrev no_date : ℕ → Bytes
no_date t = codes "Jan  1  1970"

abbrev readable : File
readable = record rfile_create { perm = some (perm2string 0x1a4) }

abbrev facts : List Bytes
facts = codes "/" ∷ codes "s280" ∷ codes "m825" ∷ codes "r" ∷ []

facts-IsClear : All (IsClear scanned) facts
facts-IsClear =
    let a : IsClear scanned (codes "/") = ((λ e. absurd (ground arith)), (refl, tt)) in
    let b : IsClear scanned (codes "s280") =
      ((λ e. absurd (ground arith)), (refl, (refl, (refl, (refl, tt))))) in
    let c : IsClear scanned (codes "m825") =
      ((λ e. absurd (ground arith)), (refl, (refl, (refl, (refl, tt))))) in
    let d : IsClear scanned (codes "r") = ((λ e. absurd (ground arith)), (refl, tt)) in
    (a, (b, (c, (d, tt))))

rfile_parse_eplf-listing_example :
    Listed no_color no_date (codes "/pub") facts (codes "a b") (
      rfile_parse_eplf no_color no_date rfile_create (eplf_line facts (codes "a b")) (codes "/pub"))
rfile_parse_eplf-listing_example =
    rfile_parse_eplf-listing no_color no_date (codes "/pub") rfile_create facts (codes "a b")
      facts-IsClear (refl, (refl, (refl, tt)))
