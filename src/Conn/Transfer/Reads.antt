-- ===== src/Conn/Transfer/Reads.antt =====
-- WebServer_Proj/HttpConn: what `read` keeps of the chunks that `recv` gives.
use cpp_web_server.Base.{ℕ, ◌≡◌, refl, ap, ap₂, ◌∙◌, List, [], ◌∷◌, ◌++◌, arith}
use cpp_web_server.Text.{Bytes, c_str}
use cpp_web_server.Text.Find.{Lacks}
use cpp_web_server.Conn.{HttpConn}
use cpp_web_server.Conn.Transfer.{Arrival, received, read, read_result}

-- The bytes that came.
abbrev pub joined : List Bytes → Bytes
joined [] = []
joined (chunk ∷ chunks) = chunk ++ joined chunks

abbrev pub AllLack : ℕ → List Bytes → Type 0
AllLack b [] = Unit {0}
AllLack b (chunk ∷ chunks) = Lacks b chunk × AllLack b chunks

c_str-Lacks : (s : Bytes) → Lacks 0 s → c_str s ≡ s
unfolding c_str
c_str-Lacks [] l = refl
c_str-Lacks (x ∷ xs) l = ground (arith, c_str-Lacks xs l.1)

c_str_nul : (front lost : Bytes) → Lacks 0 front → c_str (front ++ 0 ∷ lost) ≡ front
unfolding c_str
c_str_nul [] lost l = refl
c_str_nul (x ∷ xs) lost l = ground (arith, c_str_nul xs lost l.1)

received-joined : (chunks : List Bytes) → AllLack 0 chunks → received chunks ≡ joined chunks
received-joined [] l = refl
received-joined (chunk ∷ chunks) l =
    ap₂ (λ a b. a ++ b) (c_str-Lacks chunk l.0) (received-joined chunks l.1)

-- On chunks without a NUL, `read` appends all that came to the buffer, also where it then reports a
-- failure; how the chunks are cut makes no difference.
pub read-joined :
    (a : Arrival) (c : HttpConn)
    → AllLack 0 a.chunks
    → read a c ≡ (
      read_result a.stop (c.m_read_buf ++ joined a.chunks),
      record c { m_read_buf = c.m_read_buf ++ joined a.chunks },
    )
unfolding read
read-joined a c l =
    ap (λ b. (read_result a.stop (c.m_read_buf ++ b), record c { m_read_buf = c.m_read_buf ++ b }))
      (received-joined a.chunks l)

-- A first chunk that holds a NUL is cut at the first one, and what stands behind it in the chunk
-- is lost; the chunks that follow, which hold none, are appended whole.
pub read_nul :
    (a : Arrival) (c : HttpConn) (front lost : Bytes) (chunks : List Bytes)
    → Lacks 0 front
    → AllLack 0 chunks
    → a.chunks ≡ (front ++ 0 ∷ lost) ∷ chunks
    → (read a c).1.m_read_buf ≡ c.m_read_buf ++ (front ++ joined chunks)
unfolding read
read_nul a c front lost chunks l k e =
    ap (λ b. c.m_read_buf ++ b)
      (ap received e ∙ ap₂ (λ x y. x ++ y) (c_str_nul front lost l) (received-joined chunks k))
