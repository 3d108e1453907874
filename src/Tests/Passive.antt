-- ===== src/Tests/Passive.antt =====
-- A sample reply to PASV for `ftp_pasv` of ftp/ftpsend.c (under src/).
use yafc.Base.{◌≡◌, refl, false, List, [], ◌∷◌, ◌++◌, map, Bytes, codes}
use yafc.Rfile.Dates.{starts_digit}
use yafc.Session.Passive.{pasv, parse_pasv}
use yafc.Session.Passive.Numbers.{byte_of, rest_text, parse_pasv-numbers}

abbrev numbers : List Bytes
numbers = codes "0" ∷ codes "0" ∷ codes "9" ∷ codes "4" ∷ codes "1" ∷ []

parse_pasv-numbers_example :
    parse_pasv false (codes "mode (" ++ (codes "10" ++ rest_text numbers (codes ").")))
    ≡ pasv (map byte_of (codes "10" ∷ numbers))
unfolding starts_digit
parse_pasv-numbers_example =
    parse_pasv-numbers (codes "mode (") (codes "10") numbers (codes ").")
      (refl, (refl, (refl, (refl, (refl, (refl, tt))))))
      (
        (refl, (refl, (refl, tt))),
        (
          (refl, (refl, tt)),
          (
            (refl, (refl, tt)),
            ((refl, (refl, tt)), ((refl, (refl, tt)), ((refl, (refl, tt)), tt))),
          ),
        ),
      )
      refl refl
