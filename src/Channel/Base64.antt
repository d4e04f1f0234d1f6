-- ===== src/Channel/Base64.antt =====
-- `b64encode` and `b64decode` of pqc_channel/channel.py, with the part of Python's `base64` that
-- they use: standard alphabet, strict decoding (`validate=True`).
pub mod RoundTrip
use sodtware_dev_ops_gp_proj.Base.{
  ℕ, zero, suc, ◌+◌, ◌-◌, ◌*◌, ◌/◌, ◌%◌, ◌≤◌, ◌<◌, ◌≡◌, ◌≢◌, refl, ap, Bool, true, false, Option,
  none, some, List, [], ◌∷◌, ◌++◌, ◌&&◌, arith, Bytes, Text, IsBytes, length, ltb, leb, ◌==◌,
  if◌then◌else◌, ==_iff, codes,
}
use sodtware_dev_ops_gp_proj.Base.Result.{Result, ok, err, channel_error, type_error}
use sodtware_dev_ops_gp_proj.Base.Json.{Json, str}
use mathlib.Core.Option

abbrev pad : ℕ
pad = b'='

-- The alphabet: A-Z a-z 0-9 + /
sextet : ℕ → ℕ
sextet v =
    if ltb v 26
    then v + 65
    else if ltb v 52
    then v + 71
    else if ltb v 62
    then v - 4
    else if v == 62
    then b'+'
    else b'/'

value : ℕ → Option ℕ
value c =
    if leb b'A' c && leb c b'Z'
    then some (c - 65)
    else if leb b'a' c && leb c b'z'
    then some (c - 71)
    else if leb b'0' c && leb c b'9'
    then some (c + 4)
    else if c == b'+'
    then some 62
    else if c == b'/'
    then some 63
    else none

unfoldable pub b64encode : Bytes → Text
unfolding sextet
b64encode [] = []
b64encode (a ∷ []) = sextet (a / 4) ∷ sextet (a % 4 * 16) ∷ pad ∷ pad ∷ []
b64encode (a ∷ b ∷ []) =
    sextet (a / 4) ∷ sextet (a % 4 * 16 + b / 16) ∷ sextet (b % 16 * 4) ∷ pad ∷ []
b64encode (a ∷ b ∷ c ∷ rest) =
    sextet (a / 4)
    ∷ sextet (a % 4 * 16 + b / 16)
    ∷ sextet (b % 16 * 4 + c / 64)
    ∷ sextet (c % 64)
    ∷ b64encode rest

-- One byte in front of what the rest of the text decodes to.
abbrev before : ℕ → Option Bytes → Option Bytes
before b none = none
before b (some bs) = some (b ∷ bs)

-- The strict decoder, one character a round: the place in the group of four, the bits left over,
-- the pad characters since the last digit, and whether a pad was seen.
pub data Quad : Type 0 where
  q0 q1 q2 q3 : Quad

abbrev place : Quad → ℕ
place q0 = 0
place q1 = 1
place q2 = 2
place q3 = 3

-- A pad that completes a group must be the last character; any other pad is passed over.
abbrev completes : Quad → ℕ → Bool
completes q pads = leb 2 (place q) && leb 4 (place q + pads + 1)

-- The decoder after a digit of value `v`; `go` is its call on the rest of the text.
accept : Quad → ℕ → ℕ → (Quad → ℕ → Option Bytes) → Option Bytes
accept q0 left v go = go q1 v
accept q1 left v go = before (left * 4 + v / 16) (go q2 (v % 16))
accept q2 left v go = before (left * 16 + v / 4) (go q3 (v % 4))
accept q3 left v go = before (left * 64 + v) (go q0 0)

finished : Text → Option Bytes
finished [] = some []
finished (_ ∷ _) = none

-- One character: a pad, a digit, or refused. The two functions are the loop on the rest.
turn : Quad → ℕ → ℕ → Bool → ℕ → Text → (Quad → ℕ → ℕ → Bool → Option Bytes) → Option Bytes
unfolding finished accept
turn q left pads started c rest go =
    if c == pad
    then (if completes q pads
        then finished rest
        else go q left (if leb 2 (place q) then pads + 1 else pads) true)
    else elim (value c) [
      | none ↦ none
      | some v ↦ if started then none else accept q left v (λ q' left'. go q' left' 0 false)
    ]

decode_loop : Text → Quad → ℕ → ℕ → Bool → Option Bytes
unfolding turn value
decode_loop [] q0 left pads started = some []
decode_loop [] q left pads started = none
decode_loop (c ∷ rest) q left pads started = turn q left pads started c rest (decode_loop rest)

-- `base64.b64decode(text, validate=True)`: a pad in front is refused.
decode_strict : Text → Option Bytes
unfolding decode_loop
decode_strict [] = some []
decode_strict (c ∷ rest) = if c == pad then none else decode_loop (c ∷ rest) q0 0 0 false

-- The optional check of the decoded length.
check_len : Option ℕ → Bytes → Result Bytes
check_len none data' = ok data'
check_len (some n) data' = if length data' == n then ok data' else err channel_error

unfoldable pub b64decode : Text → Option ℕ → Result Bytes
unfolding decode_strict check_len
b64decode text expected_len = elim (decode_strict text) [
  | none ↦ err channel_error
  | some data' ↦ check_len expected_len data'
]

-- `channel.b64decode` of a JSON value: what is no text raises `TypeError`.
unfoldable pub b64decode_json : Json → Option ℕ → Result Bytes
b64decode_json (str t) n = b64decode t n
b64decode_json _ n = err type_error
