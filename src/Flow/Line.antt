-- ===== src/Flow/Line.antt =====
-- A line of the kernel's table, read back.
use luci_app_overwatch.Base.{
  ℕ, ◌≡◌, refl, sym, ap, subst, ◌∙◌, if_pos, if_neg, List, [], ◌∷◌, ◌++◌, none, some, arith,
}
use luci_app_overwatch.Base.Ip.{IpAddr}
use luci_app_overwatch.Base.Lines.{split_whitespace}
use luci_app_overwatch.Base.Read.{parse_ip, parse_uint, strip_prefix}
use luci_app_overwatch.Base.Text.{Str, Str-discrete, text}
use luci_app_overwatch.Base.Tokens.{
  Spaced, words_of, spaced, AreSpaced, HasNoSpace, AreWords, AreWords-append,
  split_whitespace-spaced,
}
use luci_app_overwatch.Flow.{
  Proto, Fields, End, tcp, udp, find_proto, no_fields, collect, compute_flow_key, parse_line,
  u16_mod, u64_values,
}
use mathlib.Core.List.{foldl}

-- What the kernel prints of one direction.
pub record Direction : Type 0 where
  pub src : Str
  pub dst : Str
  pub sport : Str
  pub dport : Str
  pub packets : Str
  pub bytes : Str

abbrev pub tokens_of : Direction → List Str
tokens_of d =
    (text "src=" ++ d.src)
    ∷ (text "dst=" ++ d.dst)
    ∷ (text "sport=" ++ d.sport)
    ∷ (text "dport=" ++ d.dport)
    ∷ (text "packets=" ++ d.packets)
    ∷ (text "bytes=" ++ d.bytes)
    ∷ []

-- The values that the texts of a direction stand for.
pub record Values : Type 0 where
  pub src : IpAddr
  pub dst : IpAddr
  pub sport : ℕ
  pub dport : ℕ
  pub bytes : ℕ

pub record Stands (d : Direction) (v : Values) : Type 0 where
  pub src : parse_ip d.src ≡ some v.src
  pub dst : parse_ip d.dst ≡ some v.dst
  pub sport : parse_uint u16_mod d.sport ≡ some v.sport
  pub dport : parse_uint u16_mod d.dport ≡ some v.dport
  pub bytes : parse_uint u64_values d.bytes ≡ some v.bytes
  pub no_space :
      HasNoSpace d.src
      × HasNoSpace d.dst
      × HasNoSpace d.sport
      × HasNoSpace d.dport
      × HasNoSpace d.packets
      × HasNoSpace d.bytes

-- A token with none of the prefixes that are looked for.
abbrev pub IsPlain : Str → Type 0
IsPlain t =
    (strip_prefix (text "src=") t ≡ none)
    × (strip_prefix (text "dst=") t ≡ none)
    × (strip_prefix (text "sport=") t ≡ none)
    × (strip_prefix (text "dport=") t ≡ none)
    × (strip_prefix (text "bytes=") t ≡ none)

abbrev pub ArePlain : List Str → Type 0
ArePlain [] = Unit
ArePlain (t ∷ ts) = IsPlain t × ArePlain ts

collect-IsPlain : (f : Fields) (t : Str) → IsPlain t → collect f t ≡ f
unfolding collect
collect-IsPlain f t h = rw (h.0, h.1, h.2, h.3, h.4) refl

foldl-ArePlain : (f : Fields) (ts : List Str) → ArePlain ts → foldl collect f ts ≡ f
foldl-ArePlain f [] h = refl
foldl-ArePlain f (t ∷ ts) h =
    ap (λ g. foldl collect g ts) (collect-IsPlain f t h.0) ∙ foldl-ArePlain f ts h.1

foldl-collect-append :
    (f : Fields) (xs ys : List Str)
    → foldl collect f (xs ++ ys) ≡ foldl collect (foldl collect f xs) ys
foldl-collect-append f [] ys = refl
foldl-collect-append f (x ∷ xs) ys = foldl-collect-append (collect f x) xs ys

abbrev with_values : Fields → Values → Fields
with_values f v = record {
  src = f.src ++ v.src ∷ [];
  dst = f.dst ++ v.dst ∷ [];
  sport = f.sport ++ v.sport ∷ [];
  dport = f.dport ++ v.dport ∷ [];
  bytes = f.bytes ++ v.bytes ∷ [];
}

collect-Direction :
    (f : Fields) (d : Direction) (v : Values)
    → Stands d v
    → foldl collect f (tokens_of d) ≡ with_values f v
unfolding collect
collect-Direction f d v h = rw (h.src, h.dst, h.sport, h.dport, h.bytes) refl

find_proto-append :
    (xs ys : List Str) {p : Proto} → find_proto xs ≡ some p → find_proto (xs ++ ys) ≡ some p
find_proto-append [] ys e = cc
find_proto-append (x ∷ xs) ys e = elim (Str-discrete x (text "tcp")) [
  | yes t ↦
      rw (if_pos (Str-discrete x (text "tcp")) t)
        (sym (if_pos (Str-discrete x (text "tcp")) t _ _) ∙ e)
  | no nt ↦
      let e1 = sym (if_neg (Str-discrete x (text "tcp")) nt (some tcp) _) ∙ e in
      rw (if_neg (Str-discrete x (text "tcp")) nt) (elim (Str-discrete x (text "udp")) [
        | yes u ↦
            rw (if_pos (Str-discrete x (text "udp")) u)
              (sym (if_pos (Str-discrete x (text "udp")) u _ _) ∙ e1)
        | no nu ↦ rw (if_neg (Str-discrete x (text "udp")) nu) (
            find_proto-append xs ys
              (sym (if_neg (Str-discrete x (text "udp")) nu (some udp) _) ∙ e1))
      ])
]

AreWords-Direction : (d : Direction) (v : Values) → Stands d v → AreWords (tokens_of d)
AreWords-Direction d v h = ground (arith, h.no_space)

-- The tokens of a line: some in front, the two directions, and some between and behind.
abbrev pub line_of : List Str → Direction → List Str → Direction → List Str → List Str
line_of front d between r behind = front ++ (tokens_of d ++ (between ++ (tokens_of r ++ behind)))

module _ (hash : End → End → ℕ → ℕ) (front between behind : List Str) (d r : Direction)
    (v w : Values) (p : Proto) where
  -- A line of tokens with any white space between them, in which a protocol's name stands in front, then
  -- the original direction and later the reply direction as the kernel prints them, with texts that
  -- can be read as addresses and numbers, and nothing else has one of the prefixes looked for, is
  -- read as the flow of the original direction with both byte counters.
  pub parse_line-spaced :
      (line : Spaced)
      → words_of line ≡ line_of front d between r behind
      → AreSpaced line
      → AreWords front
      → AreWords between
      → AreWords behind
      → ArePlain front
      → ArePlain between
      → ArePlain behind
      → find_proto front ≡ some p
      → Stands d v
      → Stands r w
      → parse_line hash (spaced line)
        ≡ some (record {
          proto = p;
          orig_src = v.src;
          orig_dst = v.dst;
          orig_bytes = v.bytes;
          reply_bytes = w.bytes;
          flow_key = compute_flow_key hash v.src v.sport v.dst v.dport p;
        })
  unfolding parse_line
  parse_line-spaced line same gaps a b c pa pb pc e h k = rw (split, found, read)
    where
      toks : List Str
      toks = line_of front d between r behind

      one : Fields
      one = with_values no_fields v

      words : AreWords toks
      words = AreWords-append front _ a (
          AreWords-append (tokens_of d) _ (AreWords-Direction d v h) (
            AreWords-append between _ b
              (AreWords-append (tokens_of r) behind (AreWords-Direction r w k) c)))

      split : split_whitespace (spaced line) ≡ toks
      split = split_whitespace-spaced line (subst AreWords (sym same) words) gaps ∙ same

      found : find_proto toks ≡ some p
      found = find_proto-append front _ e

      read : foldl collect no_fields toks ≡ with_values (with_values no_fields v) w
      read =
          foldl-collect-append no_fields front (tokens_of d ++ (between ++ (tokens_of r ++ behind)))
          ∙ ap (λ f. foldl collect f (tokens_of d ++ (between ++ (tokens_of r ++ behind))))
              (foldl-ArePlain no_fields front pa)
          ∙ foldl-collect-append no_fields (tokens_of d) (between ++ (tokens_of r ++ behind))
          ∙ ap (λ f. foldl collect f (between ++ (tokens_of r ++ behind)))
              (collect-Direction no_fields d v h)
          ∙ foldl-collect-append one between (tokens_of r ++ behind)
          ∙ ap (λ f. foldl collect f (tokens_of r ++ behind)) (foldl-ArePlain one between pb)
          ∙ foldl-collect-append one (tokens_of r) behind
          ∙ ap (λ f. foldl collect f behind) (collect-Direction one r w k)
          ∙ foldl-ArePlain (with_values one w) behind pc
