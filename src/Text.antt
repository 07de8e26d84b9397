-- ===== src/Text.antt =====
-- What the code uses of Rust's `str`: a `&[u8]` is a list of bytes, a `&str` the list of its code
-- points, decoded from UTF-8 as `std::str::from_utf8` does.
pub mod Split
pub mod Decimal
use Prim.Native.Char.{code}
use edge.Prelude.{
  take, drop, length, ℕ, [], not, String, is_empty, some, Option, if◌then◌else◌, ◌&&◌, none, ◌-◌,
  leb, ◌∷◌, ◌+◌, true, List, suc, ◌++◌, u64_max, ◌||◌, false, ◌*◌, ltb, ◌==◌, Bool, map, ◌↔◌, ◌≡◌,
  arith, ◌/◌, ◌%◌,
}
use mathlib.Core.Option

abbrev pub Bytes : Type 0
Bytes = List ℕ

abbrev pub Text : Type 0
Text = List ℕ

-- The code points of a literal.
abbrev pub txt : String → Text
txt String.[] = []
txt (String.◌∷◌ c s) = code c ∷ txt s

abbrev pub within : ℕ → ℕ → ℕ → Bool
within lo hi c = leb lo c && leb c hi

-- A decoder between two bytes: how many continuation bytes are missing, the bits so far, and the range
-- of the next one.
pub record Decoder : Type 0 where
  pub need : ℕ
  pub bits : ℕ
  pub lo : ℕ
  pub hi : ℕ

abbrev pub fresh_decoder : Decoder
fresh_decoder = record { need = 0; bits = 0; lo = 128; hi = 191 }

abbrev begin_char : ℕ → ℕ → ℕ → ℕ → Option (Option ℕ × Decoder)
begin_char need bits lo hi = some (none, record { need = need; bits = bits; lo = lo; hi = hi })

lead_byte : ℕ → Option (Option ℕ × Decoder)
lead_byte b =
    if ltb b 128
    then some (some b, fresh_decoder)
    else if within 0xc2 0xdf b
    then begin_char 1 (b - 0xc0) 0x80 0xbf
    else if b == 0xe0
    then begin_char 2 0 0xa0 0xbf
    else if b == 0xed
    then begin_char 2 0xd 0x80 0x9f
    else if within 0xe1 0xef b
    then begin_char 2 (b - 0xe0) 0x80 0xbf
    else if b == 0xf0
    then begin_char 3 0 0x90 0xbf
    else if within 0xf1 0xf3 b
    then begin_char 3 (b - 0xf0) 0x80 0xbf
    else if b == 0xf4
    then begin_char 3 4 0x80 0x8f
    else none

decode_byte : Decoder → ℕ → Option (Option ℕ × Decoder)
unfolding lead_byte
decode_byte d b =
    if d.need == 0
    then lead_byte b
    else if not (within d.lo d.hi b)
    then none
    else if d.need == 1
    then some (some (d.bits * 64 + (b - 128)), fresh_decoder)
    else begin_char (d.need - 1) (d.bits * 64 + (b - 128)) 0x80 0xbf

abbrev emit : Option ℕ → Option Text → Option Text
emit _ none = none
emit none (some t) = some t
emit (some c) (some t) = some (c ∷ t)

decode_from : Decoder → Bytes → Option Text
unfolding decode_byte
decode_from d [] = if d.need == 0 then some [] else none
decode_from d (b ∷ bs) = elim (decode_byte d b) [
  | none ↦ none
  | some (out, d') ↦ emit out (decode_from d' bs)
]

-- `std::str::from_utf8`
unfoldable pub from_utf8 : Bytes → Option Text
unfolding decode_from
from_utf8 bs = decode_from fresh_decoder bs

-- `char::len_utf8`, and `str::len`, which counts bytes.
abbrev pub len_utf8 : ℕ → ℕ
len_utf8 c = if ltb c 0x80 then 1 else if ltb c 0x800 then 2 else if ltb c 0x10000 then 3 else 4

abbrev pub byte_len : Text → ℕ
byte_len [] = 0
byte_len (c ∷ t) = len_utf8 c + byte_len t

-- `char::is_whitespace`: the White_Space property.
unfoldable pub is_whitespace : ℕ → Bool
is_whitespace c =
    within 9 13 c
    || c == 0x20
    || c == 0x85
    || c == 0xa0
    || c == 0x1680
    || within 0x2000 0x200a c
    || c == 0x2028
    || c == 0x2029
    || c == 0x202f
    || c == 0x205f
    || c == 0x3000

unfoldable pub trim_start : Text → Text
trim_start [] = []
trim_start (c ∷ t) = if is_whitespace c then trim_start t else c ∷ t

unfoldable pub trim_end : Text → Text
trim_end [] = []
trim_end (c ∷ t) =
    let rest = trim_end t in if is_empty rest && is_whitespace c then [] else c ∷ rest

unfoldable pub trim : Text → Text
trim t = trim_end (trim_start t)

-- `split_once`: before and behind the first separator.
unfoldable pub split_once : ℕ → Text → Option (Text × Text)
split_once sep [] = none
split_once sep (c ∷ t) =
    let rest = Option.map (λ (p : Text × Text). (c ∷ p.0, p.1)) (split_once sep t) in
    if c == sep then some ([], t) else rest

abbrev pub cons_head : ℕ → List Text → List Text
cons_head c [] = (c ∷ []) ∷ []
cons_head c (p ∷ ps) = (c ∷ p) ∷ ps

-- `split(sep)` for one character; never empty.
unfoldable pub split_char : ℕ → Text → List Text
split_char sep [] = [] ∷ []
split_char sep (c ∷ t) =
    let rest = split_char sep t in if c == sep then [] ∷ rest else cons_head c rest

-- `split("\r\n")`
unfoldable pub split_crlf : Text → List Text
split_crlf [] = [] ∷ []
split_crlf (c ∷ []) = (c ∷ []) ∷ []
split_crlf (c ∷ d ∷ t) =
    let cut = [] ∷ split_crlf t in
    let go = cons_head c (split_crlf (d ∷ t)) in if c == 13 && d == 10 then cut else go

abbrev pub add_word : Bool → Text → List Text → List Text
add_word true w ws = ws
add_word false w ws = w ∷ ws

-- `split_whitespace`: `word` is the word that is being read.
unfoldable pub split_words : Text → Text → List Text
split_words word [] = add_word (is_empty word) word []
split_words word (c ∷ t) =
    let ended = add_word (is_empty word) word (split_words [] t) in
    let longer = split_words (word ++ c ∷ []) t in if is_whitespace c then ended else longer

unfoldable pub split_whitespace : Text → List Text
unfolding split_words
split_whitespace t = split_words [] t

abbrev pub to_ascii_lower : ℕ → ℕ
to_ascii_lower c = if within b'A' b'Z' c then c + 32 else c

-- `==` and `eq_ignore_ascii_case`
unfoldable pub text_eq : Text → Text → Bool
text_eq [] [] = true
text_eq (c ∷ s) (d ∷ t) = c == d && text_eq s t
text_eq _ _ = false

unfoldable pub eq_ignore_ascii_case : Text → Text → Bool
unfolding text_eq
eq_ignore_ascii_case s t = text_eq (map to_ascii_lower s) (map to_ascii_lower t)

abbrev pub is_digit : ℕ → Bool
is_digit c = within b'0' b'9' c

-- `char::to_digit`
digit_value : ℕ → ℕ → Option ℕ
digit_value radix c =
    let value : ℕ =
      if is_digit c
      then c - 48
      else if within b'a' b'z' c
      then c - 87
      else if within b'A' b'Z' c
      then c - 55
      else 99 in
    if ltb value radix then some value else none

add_digit : ℕ → ℕ → Option ℕ → Option ℕ
add_digit radix acc none = none
add_digit radix acc (some v) =
    if leb (acc * radix + v) u64_max then some (acc * radix + v) else none

parse_digits : ℕ → ℕ → Text → Option ℕ
unfolding digit_value add_digit
parse_digits radix acc [] = some acc
parse_digits radix acc (c ∷ t) = elim (add_digit radix acc (digit_value radix c)) [
  | none ↦ none
  | some n ↦ parse_digits radix n t
]

-- `usize::from_str_radix`: one leading `+` is allowed, no digit or an overflow is an error.
unfoldable pub from_str_radix : ℕ → Text → Option ℕ
unfolding parse_digits
from_str_radix radix [] = none
from_str_radix radix (c ∷ []) = if c == b'+' then none else parse_digits radix 0 (c ∷ [])
from_str_radix radix (c ∷ d ∷ t) =
    if c == b'+' then parse_digits radix 0 (d ∷ t) else parse_digits radix 0 (c ∷ d ∷ t)

-- `str::parse::<usize>`
abbrev pub parse_usize : Text → Option ℕ
parse_usize = from_str_radix 10

-- `windows(4).position(|w| w == b"\r\n\r\n")`
abbrev starts_blank_line : Bytes → Bool
starts_blank_line (a ∷ b ∷ c ∷ d ∷ _) = a == 13 && b == 10 && c == 13 && d == 10
starts_blank_line _ = false

unfoldable pub find_blank_line : Bytes → Option ℕ
find_blank_line [] = none
find_blank_line (b ∷ bs) =
    let later = Option.map suc (find_blank_line bs) in
    if starts_blank_line (b ∷ bs) then some 0 else later

-- `ends_with`, and `strip_suffix`.
unfoldable pub ends_with : List ℕ → List ℕ → Bool
unfolding text_eq
ends_with suffix t = text_eq (drop (length t - length suffix) t) suffix

unfoldable pub strip_suffix : Text → Text → Option Text
unfolding ends_with
strip_suffix suffix t =
    if ends_with suffix t then some (take (length t - length suffix) t) else none

-- `char::is_control`: the general category Cc.
abbrev pub is_control : ℕ → Bool
is_control c = ltb c 0x20 || within 0x7f 0x9f c

-- `str::parse::<u8>` and `str::parse::<u16>`
unfoldable pub parse_u8 : Text → Option ℕ
parse_u8 t = elim (parse_usize t) [ none ↦ none | some n ↦ if leb n 255 then some n else none ]

unfoldable pub parse_u16 : Text → Option ℕ
parse_u16 t = elim (parse_usize t) [ none ↦ none | some n ↦ if leb n 65535 then some n else none ]

abbrev pub crlf : List ℕ
crlf = 13 ∷ 10 ∷ []

abbrev pub blank_line : List ℕ
blank_line = 13 ∷ 10 ∷ 13 ∷ 10 ∷ []

-- `trim_end_matches` for one character, `starts_with`, and `strip_prefix`.
unfoldable pub trim_end_matches : ℕ → Text → Text
trim_end_matches sep [] = []
trim_end_matches sep (c ∷ t) =
    let rest = trim_end_matches sep t in if is_empty rest && c == sep then [] else c ∷ rest

abbrev pub starts_with : ℕ → Text → Bool
starts_with sep [] = false
starts_with sep (c ∷ t) = c == sep

unfoldable pub strip_prefix : Text → Text → Option Text
strip_prefix [] t = some t
strip_prefix (p ∷ prefix) [] = none
strip_prefix (p ∷ prefix) (c ∷ t) =
    let rest = strip_prefix prefix t in if p == c then rest else none

abbrev pub to_ascii_lowercase : Text → Text
to_ascii_lowercase = map to_ascii_lower

-- `text_eq` decides equality.
pub text_eq_iff : (s t : Text) → (text_eq s t ≡ true) ↔ (s ≡ t)
unfolding text_eq
text_eq_iff [] [] = ground arith
text_eq_iff [] (c ∷ t) = ground arith
text_eq_iff (c ∷ s) [] = ground arith
text_eq_iff (c ∷ s) (d ∷ t) = ground (arith, text_eq_iff s t)

-- `String::into_bytes`: the UTF-8 encoding.
abbrev continuation : ℕ → ℕ
continuation n = 128 + n % 64

unfoldable pub encode_char : ℕ → Bytes
encode_char c =
    if ltb c 0x80
    then c ∷ []
    else if ltb c 0x800
    then (192 + c / 64) ∷ continuation c ∷ []
    else if ltb c 0x10000
    then (224 + c / 4096) ∷ continuation (c / 64) ∷ continuation c ∷ []
    else (240 + c / 262144) ∷ continuation (c / 4096) ∷ continuation (c / 64) ∷ continuation c ∷ []

unfoldable pub into_bytes : Text → Bytes
unfolding encode_char
into_bytes [] = []
into_bytes (c ∷ t) = encode_char c ++ into_bytes t
