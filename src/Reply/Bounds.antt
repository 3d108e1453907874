-- ===== src/Reply/Bounds.antt =====
-- The array `reply` under `ftp_gets` and `ftp_read_reply` of ftp/ftp.c (under src/).
use yafc.Base.{
  ℕ, zero, suc, ◌+◌, ◌-◌, ◌≤◌, ◌≡◌, ◌∙◌, inl, inr, not, [], ◌∷◌, ◌++◌, arith, ◌==◌, if◌then◌else◌,
  if-both, Bool-cases, Option-cases, length, get_or, take, drop, length-append, length-take,
  length-drop, Bytes, codes, c_string, ℤ, negsuc, strip_trailing_chars, drop_trailing,
}
use yafc.Reply.{
  max_reply, Conn, Line, line, closed, iac, store, store_last, refusal, read_line, overwrite, zeros,
  strip_array, finish_line, after_line, ftp_gets, is_minus_one, is_last, read_lines, mark,
  ftp_read_reply,
}

-- The bytes a line of the loop has written to the array.
abbrev pub written : Line → ℕ
written (line acc rest sent) = length acc
written (closed acc sent) = length acc

length-store : (acc : Bytes) (c : ℕ) → length acc ≤ max_reply → length (store acc c) ≤ max_reply
length-store acc c h = ground (arith, length-append acc (c ∷ []))

length-store_last :
    (acc : Bytes) (c : ℕ) → length acc ≤ max_reply → length (store_last acc c) ≤ max_reply
length-store_last acc c h =
    let x = if c == b'\r' then 255 else c in
    if-both (λ (a : Bytes). length a ≤ max_reply) (c == iac) acc (store acc x) h
      (length-store acc x h)

-- Whatever the server sends, and also where it closes the connection, the loop of `ftp_gets` writes
-- MAXREPLY + 1 bytes at most, the size of the array, where no more than MAXREPLY are written already.
pub read_line-written :
    (acc sent s : Bytes) → length acc ≤ max_reply → written (read_line acc sent s) ≤ max_reply + 1
unfolding read_line
read_line-written acc sent [] h = omega arith
read_line-written acc sent (c ∷ []) h =
    if-both (λ l. written l ≤ max_reply + 1) (c == b'\n') (line acc [] sent)
      (closed (store_last acc c) sent) (omega arith) (omega (arith, length-store_last acc c h))
read_line-written acc sent (c ∷ d ∷ []) h =
    let next = read_line-written (store acc c) sent (d ∷ []) (length-store acc c h) in
    let e = length-append acc (c ∷ []) in
    let kept = length-store acc c h in
    elim (Bool-cases (c == iac)) [
      | inl i ↦ rw i (elim (Option-cases (refusal d)) [
        | inl r ↦ rw r (omega arith)
        | inr (k, r) ↦ rw r (omega arith)
      ])
      | inr i ↦ rw i (ground (arith, next, e, kept))
    ]
read_line-written acc sent (c ∷ d ∷ e ∷ s) h =
    let fits = length-store acc c h in
    let next = read_line-written (store acc c) sent (d ∷ e ∷ s) fits in
    let behind = read_line-written (store acc c) sent (e ∷ s) fits in
    let other = read_line-written acc sent (e ∷ s) h in
    let l = length-append acc (c ∷ []) in
    elim (Bool-cases (c == iac)) [
      | inl i ↦ rw i (elim (Option-cases (refusal d)) [
        | inl r ↦ rw r other
        | inr (k, r) ↦ rw r (read_line-written acc (sent ++ iac ∷ k ∷ e ∷ []) s h)
      ])
      | inr i ↦ rw i (ground (arith, next, behind, l))
    ]

length-overwrite :
    (part array : Bytes) → length part ≤ length array → length (overwrite part array) ≡ length array
length-overwrite part array h =
    omega (arith, length-append part (drop (length part) array), length-drop (length part) array)

length-c_string : (s : Bytes) → length (c_string s) ≤ length s
unfolding c_string
length-c_string [] = omega arith
length-c_string (c ∷ s) = ground (arith, length-c_string s)

length-drop_trailing :
    (set : Bytes) (c : ℕ) (s : Bytes) → length (drop_trailing set c s) ≤ length s + 1
length-drop_trailing set c [] = ground arith
length-drop_trailing set c (d ∷ s) = omega arith

length-strip : (set s : Bytes) → length (strip_trailing_chars set s) ≤ length s
unfolding strip_trailing_chars
length-strip set [] = omega arith
length-strip set (c ∷ s) =
    omega (arith, length-drop_trailing set c (strip_trailing_chars set s), length-strip set s)

length-zeros : (n : ℕ) → length (zeros n) ≡ n
length-zeros zero = omega arith
length-zeros (suc n) = omega (arith, length-zeros n)

length-strip_array : (array : Bytes) → length (strip_array array) ≡ length array
unfolding strip_array
length-strip_array array =
    let s = c_string array in
    let kept = strip_trailing_chars (codes "\n\r") s in
    let n = length s - length kept in
    let fits : length (kept ++ zeros n) ≤ length array = omega (
      arith,
      length-append kept (zeros n),
      length-zeros n,
      length-strip (codes "\n\r") s,
      length-c_string array,
    ) in
    length-overwrite (kept ++ zeros n) array fits

length-finish_line :
    (c : Conn) (acc rest sent : Bytes)
    → length c.reply ≡ max_reply + 1
    → length acc ≤ max_reply + 1
    → length (finish_line c acc rest sent).reply ≡ max_reply + 1
unfolding finish_line
length-finish_line c acc rest sent h k =
    let part = take max_reply acc ++ 0 ∷ [] in
    let stored = overwrite acc c.reply in
    let same : length stored ≡ max_reply + 1 =
      length-overwrite acc c.reply (omega (arith, h, k)) ∙ h in
    let fits : length part ≤ length stored =
      omega (arith, same, length-append (take max_reply acc) (0 ∷ []), length-take max_reply acc) in
    length-strip_array (overwrite part stored) ∙ length-overwrite part stored fits ∙ same

length-after_line :
    (c : Conn) (l : Line)
    → length c.reply ≡ max_reply + 1
    → written l ≤ max_reply + 1
    → length (after_line c l).0.reply ≡ max_reply + 1
length-after_line c (line acc rest sent) h k = length-finish_line c acc rest sent h k
length-after_line c (closed acc sent) h k = length-overwrite acc c.reply (omega (arith, h, k)) ∙ h

length-ftp_gets :
    (c : Conn) → length c.reply ≡ max_reply + 1 → length (ftp_gets c).0.reply ≡ max_reply + 1
unfolding ftp_gets
length-ftp_gets c h =
    let cleared = record c { reply = overwrite (0 ∷ []) c.reply } in
    let k : length cleared.reply ≡ max_reply + 1 =
      length-overwrite (0 ∷ []) c.reply (omega arith) ∙ h in
    let fits = read_line-written [] c.sent c.input (omega arith) in
    let a = length-after_line cleared (read_line [] c.sent c.input) k fits in
    let P : Conn × ℤ → Type 0 = λ after. length after.0.reply ≡ max_reply + 1 in
    let got = after_line cleared (read_line [] c.sent c.input) in
    if-both P c.is_open got (cleared, negsuc 0) a k

length-read_lines :
    (f : ℕ) (tmp : Bytes) (c : Conn)
    → length c.reply ≡ max_reply + 1
    → length (read_lines f tmp c).reply ≡ max_reply + 1
unfolding read_lines
length-read_lines zero tmp c h = h
length-read_lines (suc f) tmp c h =
    let k = length-ftp_gets c h in
    let more = length-read_lines f tmp (ftp_gets c).0 k in
    let P : Conn → Type 0 = λ after. length after.reply ≡ max_reply + 1 in
    let next = (ftp_gets c).0 in
    let onward = read_lines f tmp next in
    let on = if is_last tmp next then next else onward in
    if-both P (is_minus_one (ftp_gets c).1) next on k
      (if-both P (is_last tmp next) next onward k more)

-- Whatever the server sends, the bytes that `ftp_read_reply` writes, line by line, lie in the array `reply`
-- of MAXREPLY + 1 bytes: a byte written behind it would make it longer, and it keeps its length.
pub ftp_read_reply-length :
    (c : Conn) → length c.reply ≡ max_reply + 1 → length (ftp_read_reply c).0.reply ≡ max_reply + 1
unfolding ftp_read_reply
ftp_read_reply-length c h =
    let k = length-ftp_gets c h in
    let first = (ftp_gets c).0 in
    let more = length-read_lines (length first.input + 1) (mark first) first k in
    let P : Conn × ℤ → Type 0 = λ after. length after.0.reply ≡ max_reply + 1 in
    let r = (ftp_gets c).1 in
    let whole = read_lines (length first.input + 1) (mark first) first in
    let has_more = get_or first.reply 3 0 == b'-' in
    let read : Conn × ℤ = if has_more then (whole, r) else (first, r) in
    let failed : Conn × ℤ = (first, negsuc 0) in
    let valid : Conn × ℤ = if is_minus_one r then failed else read in
    let p = if-both P has_more (whole, r) (first, r) more k in
    if-both P (not first.is_open) failed valid k (if-both P (is_minus_one r) failed read k p)
