-- ===== src/Dns/Parse/RoundTrip.antt =====
-- A name written label by label is read back, whatever the header is and whatever follows.
use luci_app_overwatch.Base.{
  ℕ, ◌+◌, ◌%◌, ◌≤◌, ◌<◌, ◌≡◌, refl, sym, ap, ap₂, ◌∙◌, List, [], ◌∷◌, ◌++◌, append_assoc, some,
  arith, length, take, drop, get_elem?, length-append,
}
use luci_app_overwatch.Base.Outcome.{value}
use luci_app_overwatch.Base.Utf8.{IsAscii, from_utf8-IsAscii}
use luci_app_overwatch.Dns.Parse.Bytes.{IsBytes}
use luci_app_overwatch.Dns.Parse.Exact.{parse_dns_qname_iff}
use luci_app_overwatch.Dns.Parse.Name.{Spells, stop, label}
use luci_app_overwatch.Dns.Parse.{join, parse_dns_qname}

-- `encode_qname` of the tests: each label behind its length, and a zero.
unfoldable pub encode_qname : List (List ℕ) → List ℕ
encode_qname [] = 0 ∷ []
encode_qname (l ∷ ls) = length l % 256 ∷ l ++ encode_qname ls

-- ASCII labels of 1 to 63 bytes.
abbrev pub AreLabels : List (List ℕ) → Type 0
AreLabels [] = Unit
AreLabels (l ∷ ls) = IsAscii l × (0 < length l) × (length l < 64) × AreLabels ls

module _ {A : Type 0} where
  get-length-append :
      (pre : List A) (x : A) (xs : List A) → get_elem? (pre ++ x ∷ xs) (length pre) ≡ some x
  get-length-append [] x xs = refl
  get-length-append (p ∷ pre) x xs = get-length-append pre x xs

  drop-length-append : (pre xs : List A) → drop (length pre) (pre ++ xs) ≡ xs
  drop-length-append [] xs = refl
  drop-length-append (p ∷ pre) xs = drop-length-append pre xs

  take-length-append : (xs ys : List A) → take (length xs) (xs ++ ys) ≡ xs
  take-length-append [] ys = refl
  take-length-append (x ∷ xs) ys = ap (◌∷◌ x) (take-length-append xs ys)

IsBytes-append : (xs ys : List ℕ) → IsBytes xs → IsBytes ys → IsBytes (xs ++ ys)
IsBytes-append [] ys h k = k
IsBytes-append (x ∷ xs) ys h k = (h.0, IsBytes-append xs ys h.1 k)

IsBytes-IsAscii : (xs : List ℕ) → IsAscii xs → IsBytes xs
IsBytes-IsAscii [] h = tt
IsBytes-IsAscii (x ∷ xs) h = (omega (arith, h.0), IsBytes-IsAscii xs h.1)

encode-IsBytes : (ls : List (List ℕ)) → AreLabels ls → IsBytes (encode_qname ls)
unfolding encode_qname
encode-IsBytes [] h = (omega arith, tt)
encode-IsBytes (l ∷ ls) h = (
  omega (arith, h.2),
  IsBytes-append l (encode_qname ls) (IsBytes-IsAscii l h.0) (encode-IsBytes ls h.3),
)

encode-Spells :
    (pre : List ℕ) (ls : List (List ℕ)) (rest : List ℕ) (msg : List ℕ) (pos : ℕ)
    → AreLabels ls
    → msg ≡ pre ++ (encode_qname ls ++ rest)
    → pos ≡ length pre
    → Spells msg pos 0 ls
unfolding encode_qname
encode-Spells pre [] rest msg pos h e p = stop (rw (e, p) (get-length-append pre 0 rest)) refl refl
encode-Spells pre (l ∷ ls) rest msg pos h e p =
    let n : ℕ = length l in
    let tail : List ℕ = encode_qname ls ++ rest in
    let small : n % 256 ≡ n = omega (arith, h.2) in
    let here : msg ≡ pre ++ (n ∷ (l ++ tail)) =
      e
      ∙ ap (λ (m : ℕ). pre ++ (m ∷ ((l ++ encode_qname ls) ++ rest))) small
      ∙ ap (λ t. pre ++ (n ∷ t)) (append_assoc l (encode_qname ls) rest) in
    let behind : msg ≡ (pre ++ n ∷ []) ++ (l ++ tail) =
      here ∙ sym (append_assoc pre (n ∷ []) (l ++ tail)) in
    let start : pos + 1 ≡ length (pre ++ n ∷ []) = omega (arith, length-append pre (n ∷ [])) in
    let dropped : drop (pos + 1) msg ≡ l ++ tail =
      ap₂ drop start behind ∙ drop-length-append (pre ++ n ∷ []) (l ++ tail) in
    label n l ls (rw (here, p) (get-length-append pre n (l ++ tail))) h.1 h.2
      (omega (arith, ap length here, length-append pre (n ∷ (l ++ tail)), length-append l tail))
      (rw (dropped, take-length-append l tail) (from_utf8-IsAscii l h.0)) refl
      (encode-Spells (pre ++ (n ∷ l)) ls rest msg (pos + 1 + n) h.3
        (here ∙ sym (append_assoc pre (n ∷ l) tail)) (omega (arith, length-append pre (n ∷ l))))

-- Behind any 12 bytes of header and before any other bytes, ASCII labels of 1 to 63 bytes are read
-- back as the name with dots between them.
pub parse-encode_qname :
    (header : List ℕ) (ls : List (List ℕ)) (rest : List ℕ)
    → length header ≡ 12
    → IsBytes header
    → IsBytes rest
    → AreLabels ls
    → parse_dns_qname (header ++ (encode_qname ls ++ rest)) ≡ value (join ls)
parse-encode_qname header ls rest twelve hb rb h =
    (parse_dns_qname_iff msg (join ls) bytes long).1
      (ls, 0, encode-Spells header ls rest msg 12 h refl (sym twelve), omega arith, refl)
  where
    msg : List ℕ
    msg = header ++ (encode_qname ls ++ rest)

    bytes : IsBytes msg
    bytes =
        IsBytes-append header _ hb (IsBytes-append (encode_qname ls) rest (encode-IsBytes ls h) rb)

    long : 12 ≤ length msg
    long = omega (arith, length-append header (encode_qname ls ++ rest))
