-- ===== src/Logger.antt =====
-- WebServer_Proj/Logger: the lines of the log. The clock, and what `vsnprintf` makes of a format and its
-- arguments, are arguments; the mutex makes each `write` one step. The static instance is the state.
use cpp_web_server.Base.{
  ℕ, ◌+◌, ◌-◌, Bool, true, false, Option, none, some, ◌++◌, length, take, replicate,
}
use cpp_web_server.Text.{Bytes, text, c_str}
use cpp_web_server.Text.Number.{to_string}

-- `file_` holds what the file holds, where it is open; `out` is what was printed.
pub record Logger : Type 0 where
  pub file_ : Option Bytes
  pub out : Bytes

-- `init`: the file is opened for appending; `none` where that fails.
unfoldable pub init : Option Bytes → Logger → Bool × Logger
init none l = (false, record l { file_ = none })
init (some held) l = (true, record l { file_ = some held })

pub data LogLevel : Type 0 where
  log_debug log_info log_warn log_error : LogLevel

-- A `tm` and the microseconds.
pub record Moment : Type 0 where
  pub tm_year : ℕ
  pub tm_mon : ℕ
  pub tm_mday : ℕ
  pub tm_hour : ℕ
  pub tm_min : ℕ
  pub tm_sec : ℕ
  pub tv_usec : ℕ

-- `%0nd`
abbrev padded : ℕ → ℕ → Bytes
padded n k = replicate (n - length (to_string k)) 48 ++ to_string k

-- What `snprintf` leaves in `time_buf[64]`.
unfoldable pub time_text : Moment → Bytes
time_text t = take 63 (
    padded 4 (t.tm_year + 1900)
    ++ (text "-"
        ++ (padded 2 (t.tm_mon + 1)
            ++ (text "-"
                ++ (padded 2 t.tm_mday
                    ++ (text " "
                        ++ (padded 2 t.tm_hour
                            ++ (text ":"
                                ++ (padded 2 t.tm_min
                                    ++ (text ":"
                                        ++ (padded 2 t.tm_sec
                                            ++ (text "." ++ padded 6 t.tv_usec))))))))))))

unfoldable pub level_str : LogLevel → Bytes
level_str log_debug = text "[DEBUG]"
level_str log_info = text "[INFO] "
level_str log_warn = text "[WARN] "
level_str log_error = text "[ERROR]"

-- One call of `write`, with the clock and the formatted text.
pub record Entry : Type 0 where
  pub level : LogLevel
  pub moment : Moment
  pub content : Bytes

-- The text is cut to `content_buf[4096]`.
abbrev pub final_line : Entry → Bytes
final_line e =
    time_text e.moment
    ++ (text " " ++ (level_str e.level ++ (text " " ++ (take 4095 (c_str e.content) ++ text "\n"))))

abbrev append_to : Bytes → Option Bytes → Option Bytes
append_to line none = none
append_to line (some held) = some (held ++ line)

unfoldable pub write : Entry → Logger → Logger
write e l = record { file_ = append_to (final_line e) l.file_; out = l.out ++ final_line e }
