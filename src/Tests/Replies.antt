-- ===== src/Tests/Replies.antt =====
-- Replies of a sample server.
use yafc.Base.{
  ◌≤◌, ◌<◌, ◌≡◌, refl, true, [], ◌∷◌, arith, length, All, Bytes, codes, starts_with, pos,
  digits_value, atoi,
}
use yafc.Reply.{Conn, read_line, zeros, ftp_read_reply}
use yafc.Reply.Single.{IsPlain, IsLine, wire, Got}
use yafc.Reply.Code.{Code}
use yafc.Reply.Multi.{IsMiddle, ftp_read_reply-single, ftp_read_reply-multi}
use yafc.Reply.Bounds.{written, read_line-written, ftp_read_reply-length}
use yafc.Tests.{plains}

abbrev code : Code
code = record {
  first = 2;
  second = 2;
  third = 0;
  first_fits = omega arith;
  second_fits = omega arith;
  third_fits = omega arith;
}

abbrev opening : Bytes
opening = wire (codes "220-Hi") (wire (codes " 220 x") (wire (codes "220 ok") (codes "331")))

abbrev connected : Bytes → Conn
connected input = record {
  input = input;
  sent = [];
  is_open = true;
  reply = zeros 513;
  fullcode = pos 0;
  code = pos 0;
}

abbrev lines : (s : Bytes) → All IsPlain s → length s < 512 → IsLine s
lines s p h = record { plain = p; fits = h }

ftp_read_reply-single_example :
    let c = connected (wire (codes "220 ok") (codes "331")) in
    Got (codes "220 ok") (codes "331") [] (ftp_read_reply c) × ((ftp_read_reply c).1 ≡ pos 220)
ftp_read_reply-single_example =
    ftp_read_reply-single (connected (wire (codes "220 ok") (codes "331"))) code (codes "ok")
      (codes "331") (lines (codes "220 ok") (plains (codes "220 ok") refl) (omega arith)) refl refl

greeting-IsMiddle : IsMiddle code (codes " 220 x")
greeting-IsMiddle = record {
  is_line = lines (codes " 220 x") (plains (codes " 220 x") refl) (omega arith);
  not_last = unfold starts_with in refl;
  not_error = unfold atoi digits_value in refl;
}

ftp_read_reply-multi_example :
    Got (codes "220 ok") (codes "331") [] (ftp_read_reply (connected opening))
    × ((ftp_read_reply (connected opening)).1 ≡ pos 220)
ftp_read_reply-multi_example =
    ftp_read_reply-multi (connected opening) code (codes "Hi") (codes " 220 x" ∷ []) (codes "ok")
      (codes "331") (lines (codes "220-Hi") (plains (codes "220-Hi") refl) (omega arith))
      (greeting-IsMiddle, tt) (lines (codes "220 ok") (plains (codes "220 ok") refl) (omega arith))
      refl refl

read_line-written_example : written (read_line (zeros 512) [] (codes "ab\r\n")) ≤ 513
read_line-written_example = read_line-written (zeros 512) [] (codes "ab\r\n") (omega arith)

ftp_read_reply-length_example : length (ftp_read_reply (connected opening)).0.reply ≡ 513
ftp_read_reply-length_example = ftp_read_reply-length (connected opening) refl
