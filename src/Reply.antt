-- ===== src/Reply.antt =====
-- The control connection of ftp/ftp.c (under src/): `ftp_gets` reads a line, `ftp_read_reply` a
-- reply. What the server sends is a list of bytes, and its end is the end of the connection. The
-- alarms that bound the waiting, the traces and the Kerberos replies 631 to 633, which are compiled
-- in on request, are left out.
pub mod Single
pub mod Code
pub mod Multi
pub mod Bounds
use yafc.Base.{
  ℕ, zero, suc, ◌+◌, ◌-◌, ◌/◌, Bool, false, not, ◌&&◌, ◌||◌, Option, none, some, [], ◌∷◌, ◌++◌, ltb,
  ◌==◌, if◌then◌else◌, length, get_or, take, drop, Bytes, codes, str_eq, c_string, ℤ, pos, negsuc,
  negate, atoi, strip_trailing_chars,
}

-- MAXREPLY
abbrev pub max_reply : ℕ
max_reply = 512

-- The fields of `Ftp` that reading uses: the bytes to come and those sent in answer, whether the
-- socket is open, the array `reply`, `fullcode` and `code`.
pub record Conn : Type 0 where
  pub input : Bytes
  pub sent : Bytes
  pub is_open : Bool
  pub reply : Bytes
  pub fullcode : ℤ
  pub code : ℤ

-- The bytes that were written to `reply` and what was answered; a line has its rest of the input before
-- that.
pub data Line : Type 0 where
  line : Bytes → Bytes → Bytes → Line
  closed : Bytes → Bytes → Line

abbrev pub iac : ℕ
iac = 255

abbrev pub store : Bytes → ℕ → Bytes
store acc c = if ltb (length acc) max_reply then acc ++ c ∷ [] else acc

-- The answer to WILL, WONT, DO and DONT; none to other telnet commands.
abbrev pub refusal : ℕ → Option ℕ
refusal c =
    if c == 251 || c == 252 then some 254 else if c == 253 || c == 254 then some 252 else none

-- What is stored behind a byte that is the last: (char)EOF for a carriage return.
abbrev pub store_last : Bytes → ℕ → Bytes
store_last acc c = if c == iac then acc else store acc (if c == b'\r' then 255 else c)

-- The loop of `ftp_gets`; `acc` is `reply[0..i]`, and `sent` what was answered so far. A byte that is
-- taken back as `nc` stays in the input. (char)EOF is 255.
unfoldable pub read_line : Bytes → Bytes → Bytes → Line
read_line acc sent [] = closed acc sent
read_line acc sent (c ∷ []) =
    if c == b'\n' then line acc [] sent else closed (store_last acc c) sent
read_line acc sent (c ∷ d ∷ []) =
    let next = read_line (store acc c) sent (d ∷ []) in
    let ended = read_line acc sent [] in
    if c == iac
    then elim (refusal d) [ some r ↦ closed acc (sent ++ iac ∷ r ∷ 255 ∷ []) | none ↦ ended ]
    else if c == b'\n'
    then line acc (d ∷ []) sent
    else if c == b'\r' && d == b'\n'
    then line (acc ++ c ∷ []) [] sent
    else if c == b'\r' && d == 0
    then closed (store acc c) sent
    else next
read_line acc sent (c ∷ d ∷ e ∷ s) =
    let next = read_line (store acc c) sent (d ∷ e ∷ s) in
    let behind = read_line (store acc c) sent (e ∷ s) in
    let other = read_line acc sent (e ∷ s) in
    if c == iac
    then elim (refusal d) [ some r ↦ read_line acc (sent ++ iac ∷ r ∷ e ∷ []) s | none ↦ other ]
    else if c == b'\n'
    then line acc (d ∷ e ∷ s) sent
    else if c == b'\r' && d == b'\n'
    then line (acc ++ c ∷ []) (e ∷ s) sent
    else if c == b'\r' && d == 0
    then behind
    else next

-- Writing a part over the head of the array; a part that is longer than the array makes it longer.
abbrev pub overwrite : Bytes → Bytes → Bytes
overwrite part array = part ++ drop (length part) array

abbrev pub zeros : ℕ → Bytes
zeros zero = []
zeros (suc n) = 0 ∷ zeros n

-- `ftp_close`, by `ftp_reset_vars`, as far as these fields go.
abbrev pub close : Conn → Conn
close c = record c { input = []; is_open = false; fullcode = pos 0; code = pos 0 }

-- An `int` by 100, towards 0.
unfoldable pub hundreds : ℤ → ℤ
hundreds (pos n) = pos (n / 100)
hundreds (negsuc n) = negate ((n + 1) / 100)

-- The array with its string stripped of line ends: they are overwritten with 0.
unfoldable pub strip_array : Bytes → Bytes
strip_array array =
    let s = c_string array in
    let kept = strip_trailing_chars (codes "\n\r") s in
    overwrite (kept ++ zeros (length s - length kept)) array

-- Behind the loop, which wrote the line to the array: it is cut to MAXREPLY, ended, read as a number and
-- stripped.
unfoldable pub finish_line : Conn → Bytes → Bytes → Bytes → Conn
finish_line c acc rest sent =
    let array = overwrite (take max_reply acc ++ 0 ∷ []) (overwrite acc c.reply) in
    let number = atoi (c_string array) in
    record c {
      input = rest;
      sent = sent;
      reply = strip_array array;
      fullcode = number;
      code = hundreds number;
    }

abbrev pub after_line : Conn → Line → Conn × ℤ
after_line c (line acc rest sent) = let done = finish_line c acc rest sent in (done, done.fullcode)
after_line c (closed acc sent) =
    (close (record c { sent = sent; reply = overwrite acc c.reply }), negsuc 0)

-- The new state, and the result: -1, or the reply's number.
unfoldable pub ftp_gets : Conn → Conn × ℤ
ftp_gets c =
    let cleared = record c { reply = overwrite (0 ∷ []) c.reply } in
    if c.is_open then after_line cleared (read_line [] c.sent c.input) else (cleared, negsuc 0)

abbrev pub is_minus_one : ℤ → Bool
is_minus_one (pos n) = false
is_minus_one (negsuc n) = n == 0

-- strncmp(tmp, reply, 4) == 0
abbrev pub is_last : Bytes → Conn → Bool
is_last tmp c = str_eq (c_string tmp) (c_string (take 4 c.reply))

-- The loop over a reply of several lines. Each round takes a byte at least, or ends.
unfoldable pub read_lines : ℕ → Bytes → Conn → Conn
read_lines zero tmp c = c
read_lines (suc fuel) tmp c =
    let (next, r) = ftp_gets c in
    let more = read_lines fuel tmp next in
    if is_minus_one r then next else if is_last tmp next then next else more

-- strncpy(tmp, reply, 3) over "xxx "
abbrev pub mark : Conn → Bytes
mark c = take 3 c.reply ++ b' ' ∷ []

unfoldable pub ftp_read_reply : Conn → Conn × ℤ
ftp_read_reply c =
    let (first, r) = ftp_gets c in
    let whole = read_lines (length first.input + 1) (mark first) first in
    if not first.is_open
    then (first, negsuc 0)
    else if is_minus_one r
    then (first, negsuc 0)
    else if get_or first.reply 3 0 == b'-'
    then (whole, r)
    else (first, r)
