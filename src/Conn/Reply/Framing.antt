-- ===== src/Conn/Reply/Framing.antt =====
-- WebServer_Proj/HttpConn: each reply is a head of lines, an empty line, and a body whose length one
-- of the lines gives; and the vectors hold all of it.
use cpp_web_server.Base.{
  ℕ, ◌≡◌, refl, Bool, true, false, ◌||◌, List, [], ◌∷◌, ◌++◌, append_assoc, length, if◌then◌else◌,
  Bool-cases, inl, inr, arith,
}
use cpp_web_server.Text.{Bytes, text, contains}
use cpp_web_server.Text.Find.{Lacks, Lacks-append, crlf}
use cpp_web_server.Text.Number.{to_string, to_string-Lacks}
use cpp_web_server.Conn.Parse.Fields.{write_fields}
use cpp_web_server.Conn.Reply.{
  error_body, error_page, connection_line, login_page, content_type, file_head,
}

abbrev pub AllLines : List Bytes → Type 0
AllLines [] = Unit {0}
AllLines (l ∷ ls) = Lacks 13 l × AllLines ls

-- A line of the head, by its place.
pub data Among (l : Bytes) : List Bytes → Type 0 where
  first : {ls : List Bytes} → Among l (l ∷ ls)
  later : {k : Bytes} {ls : List Bytes} → Among l ls → Among l (k ∷ ls)

-- `r` is written as HTTP writes a message with this body, and says how long the body is.
pub record IsFramed (r body : Bytes) : Type 0 where
  pub head : List Bytes
  pub written : r ≡ write_fields head (13 ∷ 10 ∷ body)
  pub lines : AllLines head
  pub says_length : Among (text "Content-Length: " ++ to_string (length body)) head

unfoldable pub connection_words : Bool → Bytes
connection_words true = text "Connection: keep-alive"
connection_words false = text "Connection: close"

connection_line-words : (keep : Bool) → connection_line keep ≡ connection_words keep ++ crlf
unfolding connection_words
connection_line-words true = refl
connection_line-words false = refl

pub connection_words-Lacks : (keep : Bool) → Lacks 13 (connection_words keep)
unfolding connection_words text
connection_words-Lacks true = omega arith
connection_words-Lacks false = omega arith

pub length_line-Lacks : (n : ℕ) → Lacks 13 (text "Content-Length: " ++ to_string n)
unfolding text
length_line-Lacks n =
    Lacks-append 13 (text "Content-Length: ") (to_string n) (omega arith)
      (to_string-Lacks 13 n refl)

pub status_line-Lacks :
    (code : ℕ) (msg : Bytes)
    → Lacks 13 msg
    → Lacks 13 (text "HTTP/1.1 " ++ (to_string code ++ (text " " ++ msg)))
unfolding text
status_line-Lacks code msg l =
    Lacks-append 13 (text "HTTP/1.1 ") _ (omega arith)
      (Lacks-append 13 (to_string code) _ (to_string-Lacks 13 code refl) (omega arith, l))

pub html_line-Lacks : Lacks 13 (text "Content-Type: text/html; charset=utf-8")
unfolding text
html_line-Lacks = omega arith

pub close_line-Lacks : Lacks 13 (text "Connection: close")
unfolding text
close_line-Lacks = omega arith

pub ok_line-Lacks : Lacks 13 (text "HTTP/1.1 200 OK")
unfolding text
ok_line-Lacks = omega arith

unfoldable pub type_words : Bytes → Bytes
type_words url =
    if contains (text ".jpg") url || contains (text ".png") url
    then text "Content-Type: image/jpeg"
    else text "Content-Type: text/html; charset=utf-8"

content_type-words : (url : Bytes) → content_type url ≡ type_words url ++ crlf
unfolding type_words
content_type-words url = ground arith

jpeg_line-Lacks : Lacks 13 (text "Content-Type: image/jpeg")
unfolding text
jpeg_line-Lacks = omega arith

pub type_words-Lacks : (url : Bytes) → Lacks 13 (type_words url)
unfolding type_words
type_words-Lacks url =
    elim (Bool-cases (contains (text ".jpg") url || contains (text ".png") url)) [
      | inl e ↦ rw e jpeg_line-Lacks
      | inr e ↦ rw e html_line-Lacks
    ]

-- A page is a head written line by line.
ruleset page_laws = (connection_line-words, content_type-words, append_assoc)

pub error_page-IsFramed :
    (code : ℕ) (msg : Bytes) → Lacks 13 msg → IsFramed (error_page code msg) (error_body code msg)
error_page-IsFramed code msg l = record {
  head =
      (text "HTTP/1.1 " ++ (to_string code ++ (text " " ++ msg)))
      ∷ text "Content-Type: text/html; charset=utf-8"
      ∷ (text "Content-Length: " ++ to_string (length (error_body code msg)))
      ∷ text "Connection: close"
      ∷ [];
  written = simp page_laws;
  lines = (
    status_line-Lacks code msg l,
    (html_line-Lacks, (length_line-Lacks _, (close_line-Lacks, tt))),
  );
  says_length = later (later first);
}

pub login_page-IsFramed : (html : Bytes) (keep : Bool) → IsFramed (login_page html keep) html
login_page-IsFramed html keep = record {
  head =
      text "HTTP/1.1 200 OK"
      ∷ text "Content-Type: text/html; charset=utf-8"
      ∷ (text "Content-Length: " ++ to_string (length html))
      ∷ connection_words keep
      ∷ [];
  written = simp page_laws;
  lines =
      (ok_line-Lacks, (html_line-Lacks, (length_line-Lacks _, (connection_words-Lacks keep, tt))));
  says_length = later (later first);
}

pub file_head-IsFramed :
    (url : Bytes) (keep : Bool) (s : Bytes) → IsFramed (file_head url keep (length s) ++ s) s
file_head-IsFramed url keep s = record {
  head =
      text "HTTP/1.1 200 OK"
      ∷ type_words url
      ∷ connection_words keep
      ∷ (text "Content-Length: " ++ to_string (length s))
      ∷ [];
  written = simp page_laws;
  lines = (
    ok_line-Lacks,
    (type_words-Lacks url, (connection_words-Lacks keep, (length_line-Lacks _, tt))),
  );
  says_length = later (later (later first));
}
