-- ===== src/ShortPath/Bounds.antt =====
-- The length and the parts of what `shortpath` of libmhe/shortpath.c (under src/) gives.
use yafc.Base.{ℕ, ◌+◌, ◌-◌, ◌≤◌, ◌<◌, ◌≡◌, ◌⊎◌, false, ◌∷◌, ◌++◌, length, take, drop, Bytes, has}
use yafc.ShortPath.Slashes.{IsStart}
use yafc.ShortPath.{ellipsis, with_tail}

-- The last bytes that fit behind the first directory's name, its slash and the dots.
abbrev pub window : Bytes → ℕ → ℕ → Bytes
window path maxlen start = drop (length path - (maxlen - start - 3)) path

-- What stands for a path in `maxlen` bytes. A path that is too long keeps what stands before its first
-- slash, and everything from the first slash of the window on, or else just its last bytes.
pub data IsShort (path : Bytes) (maxlen : ℕ) (short : Bytes) : Type 0 where
  whole : length path ≤ maxlen → short ≡ path → IsShort path maxlen short
  at_slash :
      (start : ℕ) (skipped tail : Bytes)
      → maxlen < length path
      → length short ≤ maxlen
      → IsStart path start
      → start + 3 < maxlen
      → window path maxlen start ≡ skipped ++ b'/' ∷ tail
      → has skipped b'/' ≡ false
      → short ≡ (take (start - 1) path ++ ellipsis) ++ b'/' ∷ tail
      → IsShort path maxlen short
  at_end :
      (start : ℕ)
      → maxlen < length path
      → length short ≡ maxlen
      → IsStart path start
      → (maxlen ≤ start + 3) ⊎ (has (window path maxlen start) b'/' ≡ false)
      → short ≡ ellipsis ++ drop (length path - (maxlen - 3)) path
      → IsShort path maxlen short

-- A beginning, the dots and a tail that fit.
record Joined (front tail : Bytes) (maxlen : ℕ) : Type 0 where
  whole_text : with_tail front tail maxlen ≡ (front ++ ellipsis) ++ tail
  text_length : length (with_tail front tail maxlen) ≡ length front + 3 + length tail
