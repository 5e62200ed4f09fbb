-- ===== src/Server.antt =====
-- src/server.rs, `handle_conn`: one request line of the control socket and its answer. The socket
-- itself, its threads and its file permissions are the operating system's; what a client sends is the
-- list of its bytes and how they end. The text of an answer is serde_json's, a parameter.
pub mod Requests
mod Tests
use luci_app_overwatch.Base.{
  ℕ, zero, suc, ◌*◌, Bool, true, false, ◌==◌, List, [], ◌∷◌, ◌++◌, Option, none, some,
}
use luci_app_overwatch.Base.Float.{F64}
use luci_app_overwatch.Base.Lines.{trim}
use luci_app_overwatch.Base.Outcome.{Outcome, value, ◌>>=◌}
use luci_app_overwatch.Base.Text.{Str, text}
use luci_app_overwatch.Base.Utf8.{from_utf8}
use luci_app_overwatch.Control.{Shared, Json, Reply, and_then, dispatch}
use mathlib.Core.Option

abbrev pub max_req_bytes : ℕ
max_req_bytes = 65536

-- After its last byte a client closes its side, or the read fails: a time-out, or another error.
pub data Ending : Type 0 where
  closed broken : Ending

-- `read_line` on what `take` lets through: the bytes up to a newline, which belongs to them, to the
-- end or to the limit; `none` is an error.
unfoldable pub read_bytes : ℕ → List ℕ → Ending → Option (List ℕ)
read_bytes zero bs e = some []
read_bytes (suc n) [] closed = some []
read_bytes (suc n) [] broken = none
read_bytes (suc n) (b ∷ bs) e = elim (b == 10) [
  | true ↦ some (b ∷ [])
  | false ↦ Option.map (λ line. b ∷ line) (read_bytes n bs e)
]

-- A line that is not UTF-8 is an error as well.
unfoldable pub read_line : List ℕ → Ending → Option Str
unfolding read_bytes
read_line bs e = and_then (read_bytes max_req_bytes bs e) from_utf8

-- What comes of a connection: an error, nothing written, or a text written.
pub data Served : Type 0 where
  failed silent : Served
  wrote : Str → Served

module _ (float : F64) (json : Json) (cause : Str) (to_string : Reply → Str) where
  open json use {Value, null, get, as_str, from_str}

  abbrev pub request_of : Str → Value
  request_of line = Option.get_or (from_str (trim line)) null

  abbrev pub method_of : Value → Str
  method_of req = Option.get_or (and_then (get req (text "method")) as_str) []

  abbrev pub params_of : Value → Value
  params_of req = Option.get_or (get req (text "params")) null

  abbrev pub answer : Shared → Value → Outcome Reply
  answer shared req = dispatch float json cause shared (method_of req) (params_of req)

  -- The answer to a line, as `read_line` gives it.
  unfoldable pub serve_line : Shared → Option Str → Outcome Served
  serve_line shared none = value failed
  serve_line shared (some []) = value silent
  serve_line shared (some (c ∷ line)) =
      answer shared (request_of (c ∷ line)) >>= λ r. value (wrote (to_string r ++ 10 ∷ []))

  unfoldable pub handle_conn : Shared → List ℕ → Ending → Outcome Served
  unfolding serve_line read_line
  handle_conn shared bs e = serve_line shared (read_line bs e)
