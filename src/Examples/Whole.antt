-- ===== src/Examples/Whole.antt =====
-- Tests and examples of HTTP-Protocol: whole requests to the third server.
use cpp_web_server.Base.{◌≤◌, ◌<◌, ◌≡◌, refl, false, ◌&&◌, ◌||◌, [], ◌∷◌, ◌++◌, length, inl, arith}
use cpp_web_server.Text.{Bytes, text, same, is_space, c_str}
use cpp_web_server.Text.Find.{Lacks}
use cpp_web_server.Text.Number.{int_max, to_string, digits_onto}
use cpp_web_server.Conn.Parse.Fields.{Request, first_line, write_fields, any_keeps}
use cpp_web_server.Conn.Parse.RoundTrip.{IsRequest, Awaits}
use cpp_web_server.Conn.Parse.Body.{length_line}
use cpp_web_server.Conn.Reply.{check_login as last_check_login}
use cpp_web_server.Conn.Reply.Login.{login_form}
use cpp_web_server.Stages.{ClientState}
use cpp_web_server.Stages.Parse.Lines.{to_conn, IsInRange}
use cpp_web_server.Stages.Pool.{MySqlPool}
use cpp_web_server.Stages.Reply.Framing.{asked_path, Gives}
use cpp_web_server.Stages.Reply.Login.{whole_sql, to_pool}
use cpp_web_server.Stages.Reply.{not_found_body}
use cpp_web_server.Stages.Handle.{handle_client}
use cpp_web_server.Stages.Handle.Serve.{Served, handle_client-Served}
use cpp_web_server.Stages.Handle.Login.{LoggedIn, handle_client-LoggedIn}
use cpp_web_server.Stages.Servers.{new_client}
use cpp_web_server.Examples.{get_root, get_root-IsRequest, small_host, empty_host}

abbrev has_come : Bytes → ClientState Bytes
has_come s = record (new_client []) { fd = 5; buffer = s }

abbrev one_pool : MySqlPool
one_pool = record { pool = 100 ∷ []; max_conn = 10 }

abbrev root_bytes : Bytes
root_bytes = first_line get_root ++ 13 ∷ 10 ∷ write_fields get_root.fields (13 ∷ 10 ∷ [])

root_IsInRange : IsInRange (has_come root_bytes)
root_IsInRange = record { short = omega arith; within = omega arith; int_length = omega arith }

root_Awaits : Awaits (to_conn (has_come root_bytes)) root_bytes
root_Awaits = record {
  unread = record { at = refl; within = omega arith };
  at_start = refl;
  no_content = refl;
}

not_login : (same get_root.method (text "POST") && same get_root.url (text "/login")) ≡ false
unfolding same text
not_login = refl

no_root : Gives empty_host (asked_path get_root.url) not_found_body
no_root = inl (refl, refl)

handle_client-Served_example :
    Served 5
      (any_keeps get_root.fields || false)
      not_found_body
      (has_come root_bytes)
      one_pool
      (handle_client empty_host 5 (has_come root_bytes) one_pool)
handle_client-Served_example =
    handle_client-Served empty_host 5 get_root (has_come root_bytes) one_pool [] not_found_body
      get_root-IsRequest root_IsInRange root_Awaits not_login no_root

-- A login with a user of three bytes and a password of two.
abbrev post_form : Request
post_form = record {
  method = 80 ∷ 79 ∷ 83 ∷ 84 ∷ [];
  url = 47 ∷ 108 ∷ 111 ∷ 103 ∷ 105 ∷ 110 ∷ [];
  version = get_root.version;
  fields = get_root.fields;
}

post_form-IsRequest : IsRequest post_form
unfolding is_space
post_form-IsRequest = record {
  has_method = λ e. cc;
  has_url = λ e. cc;
  has_version = get_root-IsRequest.has_version;
  solid_method = (refl, (refl, (refl, (refl, tt))));
  solid_url = (refl, (refl, (refl, (refl, (refl, (refl, tt))))));
  solid_version = get_root-IsRequest.solid_version;
  good_fields = get_root-IsRequest.good_fields;
}

abbrev bob : Bytes
bob = 98 ∷ 111 ∷ 98 ∷ []

abbrev secret : Bytes
secret = 49 ∷ 50 ∷ []

abbrev form_bytes : Bytes
form_bytes =
    first_line post_form
    ++ 13
      ∷ 10
      ∷ write_fields post_form.fields (
          length_line (length (login_form bob secret)) ++ 13 ∷ 10 ∷ 13 ∷ 10 ∷ login_form bob secret)

is_post : post_form.method ≡ text "POST"
unfolding text
is_post = refl

is_login : post_form.url ≡ text "/login"
unfolding text
is_login = refl

form_IsInRange : IsInRange (has_come form_bytes)
unfolding text to_string digits_onto
form_IsInRange = record { short = omega arith; within = omega arith; int_length = omega arith }

form_Awaits : Awaits (to_conn (has_come form_bytes)) form_bytes
form_Awaits = record {
  unread = record { at = refl; within = omega arith };
  at_start = refl;
  no_content = refl;
}

bob-Lacks : Lacks 38 bob
bob-Lacks = omega arith

form-Lacks : Lacks 13 (login_form bob secret)
unfolding text
form-Lacks = omega arith

form_small : length (login_form bob secret) ≤ int_max
unfolding text
form_small = omega arith

sql_fits : length (whole_sql bob secret) < 1024
unfolding text c_str
sql_fits = omega arith

handle_client-LoggedIn_example :
    LoggedIn 5
      (any_keeps post_form.fields || false)
      (last_check_login small_host [] bob secret (to_pool one_pool)).0
      one_pool
      (handle_client small_host 5 (has_come form_bytes) one_pool)
handle_client-LoggedIn_example =
    handle_client-LoggedIn small_host 5 post_form (has_come form_bytes) one_pool bob secret
      post_form-IsRequest is_post is_login form_IsInRange bob-Lacks form-Lacks form_small
      (omega arith) sql_fits form_Awaits
