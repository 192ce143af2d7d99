-- ===== src/Stages/Parse/Lines.antt =====
-- HTTP-Protocol and WebServer_Proj/HttpConn: one line in the parser of the third server and in the
-- one of the last.
use cpp_web_server.Base.{
  ℕ, zero, suc, ◌^◌, ◌≤◌, ◌<◌, ◌≡◌, refl, sym, Bool-cases, some, [], ◌∷◌, ℤ, pos, negsuc, length,
  drop, inl, inr, arith,
}
use cpp_web_server.Text.{Bytes, text, contains, skip_space}
use cpp_web_server.Text.Number.{
  Stoi, parsed, invalid_argument, out_of_range, stoi, stoi_signed, stoi_positive, stoi_negative,
  negate, read_digits,
}
use cpp_web_server.Conn
use cpp_web_server.Conn.{
  HttpConn, new_conn, CheckState, check_state_requestline, check_state_header, check_state_content,
}
use cpp_web_server.Conn.Parse
use cpp_web_server.Conn.Parse.{to_size, parse_request}
use cpp_web_server.Stages.{ClientState, of_stoi}
use cpp_web_server.Stages.Parse.{
  Flow, again, returns, throws, request_line, set_length, connection_field, header_field,
  header_line, content, check_line, body_substr,
}

-- The same client as a connection of the last server.
abbrev pub to_conn : ClientState Bytes → HttpConn
to_conn c = record new_conn {
  m_sockfd = some c.fd;
  m_read_buf = c.buffer;
  m_check_state = c.check_state;
  m_checked_idx = to_size c.checked_idx;
  m_content_length = to_size c.content_length;
  m_method = c.method;
  m_url = c.url;
  m_version = c.version;
  m_post_data = c.post_data;
  m_keep_alive = c.keep_alive;
}

-- The values of an `int`.
abbrev pub IsInt : ℤ → Type 0
IsInt (pos n) = n < 2 ^ 31
IsInt (negsuc n) = n < 2 ^ 31

-- The buffer is shorter than 2 GiB, the position lies in it, and the length is an `int`.
pub record IsInRange {B : Type 0} (c : ClientState B) : Type 0 where
  pub short : length c.buffer < 2 ^ 31
  pub within : to_size c.checked_idx ≤ length c.buffer
  pub int_length : IsInt c.content_length

abbrev pub SameFlow : Flow Bytes → Conn.Parse.Flow → Type 0
SameFlow (again c) (Conn.Parse.again h) = (to_conn c ≡ h) × IsInRange c
SameFlow (returns code c) (Conn.Parse.returns k h) = (to_conn c ≡ h) × IsInRange c × (code ≡ k)
SameFlow (throws e c) (Conn.Parse.throws v h) = (to_conn c ≡ h) × IsInRange c × (e ≡ of_stoi v)
SameFlow _ _ = ⊥

stoi_positive-IsInt : (s : Bytes) {z : ℤ} → stoi_positive s ≡ parsed z → IsInt z
stoi_positive-IsInt s {z = pos n} e = ground arith
stoi_positive-IsInt s {z = negsuc n} e = ground arith

negate-IsInt : (n : ℕ) → n ≤ 2 ^ 31 → IsInt (negate n)
negate-IsInt zero h = omega arith
negate-IsInt (suc n) h = omega arith

stoi_negative-IsInt : (s : Bytes) {z : ℤ} → stoi_negative s ≡ parsed z → IsInt z
stoi_negative-IsInt s {z} e = ground (arith, negate-IsInt (read_digits 0 s))

stoi_signed-IsInt : (s : Bytes) {z : ℤ} → stoi_signed s ≡ parsed z → IsInt z
stoi_signed-IsInt [] e = ground arith
stoi_signed-IsInt (c ∷ cs) {z} e =
    ground (arith, stoi_negative-IsInt cs, stoi_positive-IsInt cs, stoi_positive-IsInt (c ∷ cs))

pub stoi-IsInt : (s : Bytes) {z : ℤ} → stoi s ≡ parsed z → IsInt z
unfolding stoi
stoi-IsInt s e = stoi_signed-IsInt (skip_space s) e

request_line-SameFlow :
    (line : Bytes) (c : ClientState Bytes)
    → IsInRange c
    → SameFlow (request_line line c) (Conn.Parse.request_line line (to_conn c))
unfolding request_line Conn.Parse.request_line
request_line-SameFlow line c r = ground arith

connection_field-to_conn :
    (line : Bytes) (c : ClientState Bytes)
    → to_conn (connection_field line c) ≡ Conn.Parse.connection_field line (to_conn c)
unfolding connection_field Conn.Parse.connection_field
connection_field-to_conn line c = ground arith

pub content-SameFlow :
    (c : ClientState Bytes)
    → IsInRange c
    → SameFlow (content body_substr c) (Conn.Parse.content (to_conn c))
unfolding content Conn.Parse.content
content-SameFlow c r = ground arith

connection_field-IsInRange :
    (line : Bytes) (c : ClientState Bytes) → IsInRange c → IsInRange (connection_field line c)
unfolding connection_field
connection_field-IsInRange line c r = ground arith

set_length-SameFlow :
    (v : Stoi) (c : ClientState Bytes)
    → ((z : ℤ) → v ≡ parsed z → IsInt z)
    → IsInRange c
    → SameFlow (set_length v c) (Conn.Parse.set_length v (to_conn c))
set_length-SameFlow (parsed z) c i r =
    (refl, record { short = r.short; within = r.within; int_length = i z refl })
set_length-SameFlow invalid_argument c i r = (refl, r, refl)
set_length-SameFlow out_of_range c i r = (refl, r, refl)

header_field-SameFlow :
    (line : Bytes) (c : ClientState Bytes)
    → IsInRange c
    → SameFlow (header_field line c) (Conn.Parse.header_field line (to_conn c))
unfolding header_field Conn.Parse.header_field
header_field-SameFlow line c r =
    let d = connection_field line c in
    let rd = connection_field-IsInRange line c r in
    rw (sym (connection_field-to_conn line c))
      (elim (Bool-cases (contains (text "Content-Length:") line)) [
        | inl e ↦
            rw e
              (set_length-SameFlow (stoi (drop 15 line)) d (λ z m. stoi-IsInt (drop 15 line) m) rd)
        | inr e ↦ rw e (refl, rd)
      ])

header_line-SameFlow :
    (line : Bytes) (c : ClientState Bytes)
    → IsInRange c
    → SameFlow (header_line line c) (Conn.Parse.header_line line (to_conn c))
unfolding header_line Conn.Parse.header_line
header_line-SameFlow [] c r = ground arith
header_line-SameFlow (x ∷ xs) c r = header_field-SameFlow (x ∷ xs) c r

pub check_line-SameFlow :
    (state : CheckState) (line : Bytes) (c : ClientState Bytes)
    → IsInRange c
    → SameFlow (check_line body_substr state line c) (Conn.Parse.check_line state line (to_conn c))
unfolding check_line Conn.Parse.check_line
check_line-SameFlow check_state_requestline line c r = request_line-SameFlow line c r
check_line-SameFlow check_state_header line c r = header_line-SameFlow line c r
check_line-SameFlow check_state_content line c r = content-SameFlow c r
