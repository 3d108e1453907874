-- ===== src/Tests.antt =====
-- Sample data, and the theorems applied to it.
pub mod Strings
pub mod Vectors
pub mod Replies
pub mod Modes
pub mod Lists
pub mod Files
pub mod Sessions
pub mod Logins
pub mod Nodes
pub mod Listings
pub mod Paths
pub mod Passive
pub mod Colors
use yafc.Base.{
  ℕ, ◌-◌, ◌<◌, ◌≡◌, Bool, true, not, ◌&&◌, [], ◌∷◌, arith, ◌==◌, &&-true, All, Bytes, IsText,
  within,
}
use yafc.Reply.Single.{IsPlain}
use yafc.Reply.{iac}

abbrev pub every : (ℕ → Bool) → Bytes → Bool
every p [] = true
every p (c ∷ s) = p c && every p s

abbrev pub is_char : ℕ → Bool
is_char c = within 1 255 c

pub texts : (s : Bytes) → every is_char s ≡ true → IsText s
texts [] h = tt
texts (c ∷ s) h =
    let (k, l) = &&-true (is_char c) (every is_char s) h in
    let positive : 0 < c = ground arith in
    let narrow : c < 256 = ground arith in
    (record { positive = positive; narrow = narrow }, texts s l)

abbrev pub is_plain : ℕ → Bool
is_plain c = not (c == 0) && not (c == b'\n') && not (c == b'\r') && not (c == iac)

pub plains : (s : Bytes) → every is_plain s ≡ true → All IsPlain s
plains [] h = tt
plains (c ∷ s) h =
    let (k, l) = &&-true (is_plain c) (every is_plain s) h in
    (
      record {
        not_null = ground arith;
        not_newline = ground arith;
        not_return = ground arith;
        not_iac = ground arith;
      },
      plains s l,
    )
