-- ===== src/Conn/Parse/Fields.antt =====
-- WebServer_Proj/HttpConn: how a request is written, and how its lines are read.
use native.Mathlib.Nat.{add-zero}
use cpp_web_server.Base.{
  ℕ, ◌+◌, ◌≡◌, ◌≢◌, refl, ap, ◌∙◌, Bool, false, ◌||◌, ◌&&◌, List, [], ◌∷◌, ◌++◌, length, drop,
  arith,
}
use cpp_web_server.Text.{Bytes, text, contains}
use cpp_web_server.Text.Find.{Lacks}
use cpp_web_server.Text.Words.{Solid, read_word-space, read_word_skip, read_word_skip-space}
use cpp_web_server.Conn.{HttpConn, check_state_header}
use cpp_web_server.Conn.Parse.{
  again, request_line, connection_field, header_field, check_line, parse_request,
}
use cpp_web_server.Conn.Parse.Unread.{Unread, passed, passed-Unread, parse_request_line}

-- What is asked for, and how it is written.
pub record Request : Type 0 where
  pub method : Bytes
  pub url : Bytes
  pub version : Bytes
  pub fields : List Bytes

abbrev pub first_line : Request → Bytes
first_line r = r.method ++ 32 ∷ (r.url ++ 32 ∷ r.version)

abbrev pub write_fields : List Bytes → Bytes → Bytes
write_fields [] rest = rest
write_fields (f ∷ fs) rest = f ++ 13 ∷ 10 ∷ write_fields fs rest

pub request_line_words :
    (m u v : Bytes) (c : HttpConn)
    → m ≢ []
    → u ≢ []
    → v ≢ []
    → Solid m
    → Solid u
    → Solid v
    → request_line (m ++ 32 ∷ (u ++ 32 ∷ v)) c
      ≡ again
          (record c { m_method = m; m_url = u; m_version = v; m_check_state = check_state_header })
unfolding request_line
request_line_words [] u v c a b d x y z = absurd (a refl)
request_line_words (m ∷ ms) [] v c a b d x y z = absurd (b refl)
request_line_words (m ∷ ms) (u ∷ us) v c a b d x y z = rw (
  read_word-space c.m_method (m ∷ ms) ((u ∷ us) ++ 32 ∷ v) a x,
  read_word_skip-space c.m_url (u ∷ us) v b y,
  read_word_skip c.m_version v d z,
)

-- A header line of its own: not empty, on one line, and not the one that gives the length.
pub record IsField (f : Bytes) : Type 0 where
  pub not_empty : f ≢ []
  pub one_line : Lacks 13 f
  pub no_length : contains (text "Content-Length:") f ≡ false

abbrev pub AllFields : List Bytes → Type 0
AllFields [] = Unit {0}
AllFields (f ∷ fs) = IsField f × AllFields fs

-- The line asks for a connection that is kept.
abbrev pub keeps : Bytes → Bool
keeps f = contains (text "Connection:") f && contains (text "keep-alive") f

abbrev pub any_keeps : List Bytes → Bool
any_keeps [] = false
any_keeps (f ∷ fs) = keeps f || any_keeps fs

abbrev pub fields_size : List Bytes → ℕ
fields_size [] = 0
fields_size (f ∷ fs) = length f + 2 + fields_size fs

-- The connection past the header lines.
abbrev pub past_fields : List Bytes → HttpConn → HttpConn
past_fields fs c = record c {
  m_checked_idx = c.m_checked_idx + fields_size fs;
  m_keep_alive = any_keeps fs || c.m_keep_alive;
}

pub connection_field-keeps :
    (f : Bytes) (c : HttpConn)
    → connection_field f c ≡ record c { m_keep_alive = keeps f || c.m_keep_alive }
unfolding connection_field
connection_field-keeps f c = ground arith

check_line_field :
    (f : Bytes) (c : HttpConn)
    → IsField f
    → check_line check_state_header f c
      ≡ again (record c { m_keep_alive = keeps f || c.m_keep_alive })
unfolding check_line header_field
check_line_field [] c i = absurd (i.not_empty refl)
check_line_field (x ∷ xs) c i = rw (i.no_length) (ap again (connection_field-keeps (x ∷ xs) c))

past_fields-cons :
    (f : Bytes) (fs : List Bytes) (c : HttpConn)
    → past_fields fs (record (passed f c) { m_keep_alive = keeps f || c.m_keep_alive })
      ≡ past_fields (f ∷ fs) c
past_fields-cons f fs c = ground arith

pub past_fields-Unread :
    (fs : List Bytes) (c : HttpConn) (rest : Bytes)
    → Unread c (write_fields fs rest)
    → Unread (past_fields fs c) rest
past_fields-Unread [] c rest u = record { at = rw add-zero u.at; within = rw add-zero u.within }
past_fields-Unread (f ∷ fs) c rest u =
    let v = passed-Unread c f (write_fields fs rest) u in
    let w = past_fields-Unread fs (passed f c) rest (record { at = v.at; within = v.within }) in
    record { at = ap (λ n. drop n c.m_read_buf) place ∙ w.at; within = omega (arith, w.within) }
  where
    place :
        c.m_checked_idx + (length f + 2 + fields_size fs)
        ≡ c.m_checked_idx + length f + 2 + fields_size fs
    place = omega arith

-- The parser passes the header lines, and keeps of them only whether the connection is kept.
pub parse_request_fields :
    (fs : List Bytes) (c : HttpConn) (rest : Bytes)
    → c.m_check_state ≡ check_state_header
    → AllFields fs
    → Unread c (write_fields fs rest)
    → parse_request c ≡ parse_request (past_fields fs c)
parse_request_fields [] c rest s a u = ap parse_request (ground arith)
parse_request_fields (f ∷ fs) c rest s a u =
    parse_request_line c _ f (write_fields fs rest) a.0.one_line u
      (ap (λ state. check_line state f (passed f c)) s ∙ check_line_field f (passed f c) a.0)
    ∙ parse_request_fields fs _ rest s a.1 (record { at = v.at; within = v.within })
    ∙ ap parse_request (past_fields-cons f fs c)
  where
    v : Unread (passed f c) (write_fields fs rest)
    v = passed-Unread c f (write_fields fs rest) u
