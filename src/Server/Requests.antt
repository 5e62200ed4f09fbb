-- ===== src/Server/Requests.antt =====
-- Requests and their answers.
use luci_app_overwatch.Base.{
  ℕ, zero, suc, ◌<◌, ◌≤◌, ◌≡◌, ◌≢◌, ◌↔◌, refl, sym, ap, ◌∙◌, true, false, ◌==◌, List, [], ◌∷◌, ◌++◌,
  none, some, arith, length, take, Bool-cases, inl, inr, ℕ_discrete,
}
use luci_app_overwatch.Base.Float.{F64}
use luci_app_overwatch.Base.Lines.{trim}
use luci_app_overwatch.Base.Outcome.{value}
use luci_app_overwatch.Base.Text.{Str, Str-discrete, text}
use luci_app_overwatch.Base.Utf8.{from_utf8}
use luci_app_overwatch.Control.{Shared, Json, Reply, error, and_then, dispatch}
use luci_app_overwatch.Control.Refused.{IsServable, IsError, IsRefused, dispatch-IsRefused}
use luci_app_overwatch.Server.{
  max_req_bytes, Ending, read_bytes, read_line, wrote, request_of, method_of, params_of, serve_line,
  handle_conn,
}
use mathlib.Core.Option

-- Bytes of a line without its end.
abbrev pub HasNoNewline : List ℕ → Type 0
HasNoNewline [] = Unit
HasNoNewline (b ∷ bs) = (b ≢ 10) × HasNoNewline bs

read_bytes_more :
    (n b : ℕ) (bs : List ℕ) (e : Ending)
    → (b == 10) ≡ false
    → read_bytes (suc n) (b ∷ bs) e ≡ Option.map (λ l. b ∷ l) (read_bytes n bs e)
unfolding read_bytes
read_bytes_more n b bs e q = rw (q, read_bytes) refl

read_bytes_end :
    (n b : ℕ) (bs : List ℕ) (e : Ending)
    → (b == 10) ≡ true
    → read_bytes (suc n) (b ∷ bs) e ≡ some (b ∷ [])
unfolding read_bytes
read_bytes_end n b bs e q = rw (q, read_bytes) refl

read_bytes-line :
    (n : ℕ) (line rest : List ℕ) (e : Ending)
    → HasNoNewline line
    → length line < n
    → read_bytes n (line ++ 10 ∷ rest) e ≡ some (line ++ 10 ∷ [])
unfolding read_bytes
read_bytes-line zero line rest e h l = absurd (omega arith)
read_bytes-line (suc n) [] rest e h l = refl
read_bytes-line (suc n) (b ∷ line) rest e h l =
    let other : (b == 10) ≡ false = ground arith in
    read_bytes_more n b (line ++ 10 ∷ rest) e other
    ∙ ap (Option.map (λ l. b ∷ l)) (read_bytes-line n line rest e h.1 (omega arith))

-- What lies past the limit makes no difference, nor does how it ends.
read_bytes-take :
    (n : ℕ) (bs : List ℕ) (e f : Ending)
    → n ≤ length bs
    → read_bytes n bs e ≡ read_bytes n (take n bs) f
unfolding read_bytes
read_bytes-take zero bs e f h = refl
read_bytes-take (suc n) [] e f h = absurd (omega arith)
read_bytes-take (suc n) (b ∷ bs) e f h = elim (Bool-cases (b == 10)) [
  | inl q ↦ read_bytes_end n b bs e q ∙ sym (read_bytes_end n b (take n bs) f q)
  | inr q ↦
      read_bytes_more n b bs e q
      ∙ ap (Option.map (λ l. b ∷ l)) (read_bytes-take n bs e f (omega arith))
      ∙ sym (read_bytes_more n b (take n bs) f q)
]

module _ (float : F64) (json : Json) (cause : Str) (to_string : Reply → Str) where
  open json use {Value, null, get, as_str, from_str}

  -- A request is one line of UTF-8, shorter than 64 KiB. Where the series that it may ask for can be
  -- cut, it is answered: exactly one answer is written, with a newline behind it, whatever the client
  -- sends after the line and however that ends. The answer is an error exactly if the request is
  -- refused.
  pub handle_conn-IsRefused :
      (shared : Shared) (line rest : List ℕ) (e : Ending) (c : ℕ) (s : Str)
      → HasNoNewline line
      → length line < max_req_bytes
      → from_utf8 (line ++ 10 ∷ []) ≡ some (c ∷ s)
      → IsServable float json cause shared
          (params_of float json cause to_string (request_of float json cause to_string (c ∷ s)))
      → let req = request_of float json cause to_string (c ∷ s) in
        (r : Reply) × (handle_conn float json cause to_string shared (line ++ 10 ∷ rest) e
          ≡ value (wrote (to_string r ++ 10 ∷ [])))
        × (IsError r
            ↔ IsRefused float json cause shared
                (method_of float json cause to_string req)
                (params_of float json cause to_string req))
  unfolding handle_conn serve_line read_line
  handle_conn-IsRefused shared line rest e c s h l u ok =
      let req = request_of float json cause to_string (c ∷ s) in
      let (r, answered, refused) =
        dispatch-IsRefused float json cause shared (method_of float json cause to_string req)
          (params_of float json cause to_string req) ok in
      (r, rw (read_bytes-line max_req_bytes line rest e h l, u, answered) refl, refused)

  -- A line of UTF-8 that is no JSON is answered by the error `unknown method`, as long as `null` has no
  -- members.
  pub handle_conn-unknown :
      (shared : Shared) (line rest : List ℕ) (e : Ending) (c : ℕ) (s : Str)
      → HasNoNewline line
      → length line < max_req_bytes
      → from_utf8 (line ++ 10 ∷ []) ≡ some (c ∷ s)
      → from_str (trim (c ∷ s)) ≡ none
      → ((key : Str) → get null key ≡ none)
      → handle_conn float json cause to_string shared (line ++ 10 ∷ rest) e
        ≡ value (wrote (to_string (error (text "unknown method")) ++ 10 ∷ []))
  unfolding handle_conn serve_line read_line dispatch Str-discrete ℕ_discrete
  handle_conn-unknown shared line rest e c s h l u bad no_keys =
      rw (read_bytes-line max_req_bytes line rest e h l, u, bad, no_keys (text "method")) refl

  -- At most 64 KiB of what a client sends are read: from a client that sends as much or more, the
  -- first 64 KiB alone, however they end, come to the same.
  pub handle_conn-take :
      (shared : Shared) (bs : List ℕ) (e f : Ending)
      → max_req_bytes ≤ length bs
      → handle_conn float json cause to_string shared bs e
        ≡ handle_conn float json cause to_string shared (take max_req_bytes bs) f
  unfolding handle_conn read_line
  handle_conn-take shared bs e f h =
      ap (λ o. serve_line float json cause to_string shared (and_then o from_utf8))
        (read_bytes-take max_req_bytes bs e f h)
