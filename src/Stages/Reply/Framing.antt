-- ===== src/Stages/Reply/Framing.antt =====
-- HTTP-Protocol: what the replies of the second and the third server put on the wire.
use cpp_web_server.Base.{
  ℕ, zero, suc, ◌-◌, ◌≡◌, ◌⊎◌, refl, sym, ap, ◌∙◌, take, Bool, true, false, none, some, List, [],
  ◌∷◌, ◌++◌, append_assoc, append-nil, length, take_all, inl, inr, arith,
}
use cpp_web_server.Kernel.{
  Syscall, send, writev, epoll_ctl, set_nonblocking, close, munmap, alarm, sigaction,
  sigpipe_ignored, send_byte,
}
use cpp_web_server.Text.{Bytes, text, c_str}
use cpp_web_server.Text.Find.{Lacks, crlf}
use cpp_web_server.Text.Number.{to_string}
use cpp_web_server.Conn.{mapped}
use cpp_web_server.Conn.Reply.{Host, default_url, file_path}
use cpp_web_server.Conn.Reply.Framing.{
  IsFramed, first, later, length_line-Lacks, ok_line-Lacks, connection_words,
  connection_words-Lacks, type_words, type_words-Lacks,
}
use cpp_web_server.Stages.{ClientState}
use cpp_web_server.Stages.Reply.{
  not_found_body, not_found_header, connection_header, type_header, file_header, serve_file,
}

-- The bytes that the calls hand to the kernel.
abbrev pub sent : List Syscall → Bytes
sent [] = []
sent (send fd s ∷ calls) = s ++ sent calls
sent (writev fd s (some t) ∷ calls) = s ++ (t ++ sent calls)
sent (writev fd s none ∷ calls) = s ++ sent calls
sent (_ ∷ calls) = sent calls

-- What the kernel takes of the calls on a socket whose buffer has room for so many bytes: of each call as
-- many as there is room for, and none where it would block. The servers do not look at the results.
abbrev pub taken_by : ℕ → List Syscall → Bytes
taken_by room [] = []
taken_by room (send fd s ∷ calls) = take room s ++ taken_by (room - length s) calls
taken_by room (writev fd s (some t) ∷ calls) =
    take room (s ++ t) ++ taken_by (room - length (s ++ t)) calls
taken_by room (writev fd s none ∷ calls) = take room s ++ taken_by (room - length s) calls
taken_by room (_ ∷ calls) = taken_by room calls

take-append : (n : ℕ) (xs ys : Bytes) → take n (xs ++ ys) ≡ take n xs ++ take (n - length xs) ys
take-append zero xs ys = let none_left : 0 - length xs ≡ 0 = omega arith in rw none_left refl
take-append (suc n) [] ys = let all : suc n - 0 ≡ suc n = omega arith in rw all refl
take-append (suc n) (x ∷ xs) ys =
    let less : suc n - suc (length xs) ≡ n - length xs = omega arith in
    rw less (ap (λ l. x ∷ l) (take-append n xs ys))

pub taken_by-sent : (room : ℕ) (calls : List Syscall) → taken_by room calls ≡ take room (sent calls)
taken_by-sent zero [] = refl
taken_by-sent (suc n) [] = refl
taken_by-sent room (send fd s ∷ calls) =
    ap (λ l. take room s ++ l) (taken_by-sent (room - length s) calls)
    ∙ sym (take-append room s (sent calls))
taken_by-sent room (writev fd s (some t) ∷ calls) =
    ap (λ l. take room (s ++ t) ++ l) (taken_by-sent (room - length (s ++ t)) calls)
    ∙ sym (take-append room (s ++ t) (sent calls))
    ∙ ap (take room) (append_assoc s t (sent calls))
taken_by-sent room (writev fd s none ∷ calls) =
    ap (λ l. take room s ++ l) (taken_by-sent (room - length s) calls)
    ∙ sym (take-append room s (sent calls))
taken_by-sent room (epoll_ctl op fd ∷ calls) = taken_by-sent room calls
taken_by-sent room (set_nonblocking fd ∷ calls) = taken_by-sent room calls
taken_by-sent room (close fd ∷ calls) = taken_by-sent room calls
taken_by-sent room (munmap size ∷ calls) = taken_by-sent room calls
taken_by-sent room (alarm n ∷ calls) = taken_by-sent room calls
taken_by-sent room (sigaction n b ∷ calls) = taken_by-sent room calls
taken_by-sent room (sigpipe_ignored ∷ calls) = taken_by-sent room calls
taken_by-sent room (send_byte fd n ∷ calls) = taken_by-sent room calls

connection_header-words : (keep : Bool) → connection_header keep ≡ connection_words keep ++ crlf
unfolding connection_words
connection_header-words true = refl
connection_header-words false = refl

type_header-words : (url : Bytes) → type_header url ≡ type_words url ++ crlf
unfolding type_words
type_header-words url = ground arith

ruleset header_laws = (connection_header-words, type_header-words, append_assoc, append-nil)

not_found_line-Lacks : Lacks 13 (text "HTTP/1.1 404 Not Found")
unfolding text
not_found_line-Lacks = omega arith

pub not_found-IsFramed : (s : Bytes) → IsFramed (not_found_header (length s) ++ (s ++ [])) s
not_found-IsFramed s = record {
  head = text "HTTP/1.1 404 Not Found" ∷ (text "Content-Length: " ++ to_string (length s)) ∷ [];
  written = simp header_laws;
  lines = (not_found_line-Lacks, (length_line-Lacks _, tt));
  says_length = later first;
}

file_header-IsFramed :
    (url : Bytes) (keep : Bool) (s : Bytes)
    → IsFramed (file_header url keep (length s) ++ (s ++ [])) s
file_header-IsFramed url keep s = record {
  head =
      text "HTTP/1.1 200 OK"
      ∷ connection_words keep
      ∷ type_words url
      ∷ (text "Content-Length: " ++ to_string (length s))
      ∷ [];
  written = simp header_laws;
  lines = (
    ok_line-Lacks,
    (connection_words-Lacks keep, (type_words-Lacks url, (length_line-Lacks _, tt))),
  );
  says_length = later (later (later first));
}

-- What the host gives for a path: no file, and the page for that, or a file that is mapped whole.
abbrev pub Gives : Host → Bytes → Bytes → Type 0
Gives host path body =
    ((host.stat path ≡ none) × (body ≡ not_found_body))
    ⊎ ((host.stat path ≡ some (length body)) × (host.open_mmap path ≡ mapped body))

-- The path that is asked for.
abbrev pub asked_path : Bytes → Bytes
asked_path url = c_str (file_path (default_url url))

-- What the second and the third server send for a path is one message as HTTP frames it: its body is
-- the file, or the page for a missing one, and its head says the length of that.
pub serve_file-IsFramed :
    {B : Type 0} (host : Host) (fd : ℕ) (c : ClientState B) (body : Bytes)
    → Gives host (asked_path c.url) body
    → IsFramed (sent (serve_file host fd c).1) body
unfolding serve_file
serve_file-IsFramed host fd c body (inl (none_there, page)) =
    rw (none_there, page) (not_found-IsFramed not_found_body)
serve_file-IsFramed host fd c body (inr (there, whole)) =
    rw (there, whole, take_all) (file_header-IsFramed (default_url c.url) c.keep_alive body)
