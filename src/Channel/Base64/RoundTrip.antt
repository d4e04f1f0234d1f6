-- ===== src/Channel/Base64/RoundTrip.antt =====
-- Decoding what `b64encode` wrote, and the length of the text.
use sodtware_dev_ops_gp_proj.Base.{
  ℕ, ◌+◌, ◌*◌, ◌/◌, ◌%◌, ◌<◌, ◌≡◌, refl, ◌∙◌, false, none, some, [], ◌∷◌, arith, Bytes, IsBytes,
  length, ◌==◌, if◌then◌else◌,
}
use sodtware_dev_ops_gp_proj.Base.Result.{ok, err, channel_error}
use sodtware_dev_ops_gp_proj.Channel.Base64.{
  sextet, value, pad, before, q0, q1, q2, q3, decode_loop, decode_strict, b64encode, b64decode,
}

value-sextet : (v : ℕ) → v < 64 → value (sextet v) ≡ some v
unfolding sextet value
value-sextet v h = ground arith

sextet-ne-pad : (v : ℕ) → v < 64 → (sextet v == pad) ≡ false
unfolding sextet
sextet-ne-pad v h = ground arith

-- A digit in its four places.
digit0 :
    (v : ℕ) (rest : Bytes) (left pads : ℕ)
    → v < 64
    → decode_loop (sextet v ∷ rest) q0 left pads false ≡ decode_loop rest q1 v 0 false
unfolding decode_loop
digit0 v rest left pads h = rw (sextet-ne-pad v h, value-sextet v h)

digit1 :
    (v : ℕ) (rest : Bytes) (left pads : ℕ)
    → v < 64
    → decode_loop (sextet v ∷ rest) q1 left pads false
      ≡ before (left * 4 + v / 16) (decode_loop rest q2 (v % 16) 0 false)
unfolding decode_loop
digit1 v rest left pads h = rw (sextet-ne-pad v h, value-sextet v h)

digit2 :
    (v : ℕ) (rest : Bytes) (left pads : ℕ)
    → v < 64
    → decode_loop (sextet v ∷ rest) q2 left pads false
      ≡ before (left * 16 + v / 4) (decode_loop rest q3 (v % 4) 0 false)
unfolding decode_loop
digit2 v rest left pads h = rw (sextet-ne-pad v h, value-sextet v h)

digit3 :
    (v : ℕ) (rest : Bytes) (left pads : ℕ)
    → v < 64
    → decode_loop (sextet v ∷ rest) q3 left pads false
      ≡ before (left * 64 + v) (decode_loop rest q0 0 0 false)
unfolding decode_loop
digit3 v rest left pads h = rw (sextet-ne-pad v h, value-sextet v h)

pad_end : (left pads : ℕ) → decode_loop (pad ∷ []) q3 left pads false ≡ some []
unfolding decode_loop
pad_end left pads = ground arith

pads_end : (left : ℕ) → decode_loop (pad ∷ pad ∷ []) q2 left 0 false ≡ some []
unfolding decode_loop
pads_end left = refl

b64encode_head : (a : ℕ) (bs : Bytes) → (t : Bytes) × (b64encode (a ∷ bs) ≡ sextet (a / 4) ∷ t)
unfolding b64encode
b64encode_head a [] = (_, refl)
b64encode_head a (b ∷ []) = (_, refl)
b64encode_head a (b ∷ c ∷ rest) = (_, refl)

-- The loop reads back a whole encoding, from the start of any group.
decode_loop-b64encode :
    (bs : Bytes) (left pads : ℕ)
    → IsBytes bs
    → decode_loop (b64encode bs) q0 left pads false ≡ some bs
unfolding b64encode
decode_loop-b64encode [] left pads h = unfold decode_loop in refl
decode_loop-b64encode (a ∷ []) left pads h =
    rw
      (
        digit0 (a / 4) _ left pads (omega arith),
        digit1 (a % 4 * 16) _ (a / 4) 0 (omega arith),
        pads_end,
      )
      (ground arith)
decode_loop-b64encode (a ∷ b ∷ []) left pads h =
    rw
      (
        digit0 (a / 4) _ left pads (omega arith),
        digit1 (a % 4 * 16 + b / 16) _ (a / 4) 0 (omega arith),
        digit2 (b % 16 * 4) _ _ 0 (omega arith),
        pad_end,
      )
      (ground arith)
decode_loop-b64encode (a ∷ b ∷ c ∷ rest) left pads h =
    rw
      (
        digit0 (a / 4) _ left pads (omega arith),
        digit1 (a % 4 * 16 + b / 16) _ (a / 4) 0 (omega arith),
        digit2 (b % 16 * 4 + c / 64) _ _ 0 (omega arith),
        digit3 (c % 64) _ _ 0 (omega arith),
        decode_loop-b64encode rest 0 0 h.1.1.1,
      )
      (ground arith)

decode_strict-digit :
    (c : ℕ) (rest : Bytes)
    → (c == pad) ≡ false
    → decode_strict (c ∷ rest) ≡ decode_loop (c ∷ rest) q0 0 0 false
unfolding decode_strict
decode_strict-digit c rest h = rw h

-- The text starts with a digit, so it is not refused for a pad in front.
decode_strict-b64encode : (bs : Bytes) → IsBytes bs → decode_strict (b64encode bs) ≡ some bs
decode_strict-b64encode [] h = unfold decode_strict b64encode in refl
decode_strict-b64encode (a ∷ bs) h =
    let (rest, e) = b64encode_head a bs in
    rw e (
      decode_strict-digit _ rest (sextet-ne-pad (a / 4) (omega arith))
      ∙ (rw e at (decode_loop-b64encode (a ∷ bs) 0 0 h)))

-- Decoding an encoding gives the bytes back when no length is asked for or the length is theirs,
-- and raises `ChannelError` when another length is asked for.
pub b64decode-b64encode :
    (bs : Bytes) (n : ℕ)
    → IsBytes bs
    → (b64decode (b64encode bs) none ≡ ok bs)
      × (b64decode (b64encode bs) (some n) ≡ (if length bs == n then ok bs else err channel_error))
unfolding b64decode
b64decode-b64encode bs n h = rw (decode_strict-b64encode bs h, b64decode) (refl, refl)

pub b64decode_exact :
    (bs : Bytes) (n : ℕ) → IsBytes bs → length bs ≡ n → b64decode (b64encode bs) (some n) ≡ ok bs
b64decode_exact bs n h e = (b64decode-b64encode bs n h).1 ∙ (ground arith)

-- Every three bytes, or what is left of three, take four characters.
pub length-b64encode : (bs : Bytes) → length (b64encode bs) ≡ (length bs + 2) / 3 * 4
unfolding b64encode
length-b64encode [] = refl
length-b64encode (a ∷ []) = refl
length-b64encode (a ∷ b ∷ []) = refl
length-b64encode (a ∷ b ∷ c ∷ rest) = omega (arith, length-b64encode rest)
