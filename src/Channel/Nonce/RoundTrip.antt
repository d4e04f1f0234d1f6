-- ===== src/Channel/Nonce/RoundTrip.antt =====
-- Counters and nonces of pqc_channel/channel.py, both ways.
use native.Mathlib.Nat.{pow-suc}
use sodtware_dev_ops_gp_proj.Base.{
  ℕ, zero, suc, ◌+◌, ◌*◌, ◌/◌, ◌%◌, ◌^◌, ◌<◌, ◌≡◌, refl, ◌∙◌, ap, inl, inr, ◌⊎◌, true, false, [],
  ◌∷◌, ◌++◌, arith, Bytes, IsBytes, length, length-append, All-append, ltb, ltb→lt, lt→ltb,
  Bool-cases, ◌==◌, if◌then◌else◌,
}
use sodtware_dev_ops_gp_proj.Base.Result.{ok, err, overflow_error, ◌>>=◌}
use sodtware_dev_ops_gp_proj.Channel.Nonce.{
  big_endian, horner, nonce_for, counter_from, nonce_bytes,
}

length-big_endian : (len n : ℕ) → length (big_endian len n) ≡ len
unfolding big_endian
length-big_endian zero n = refl
length-big_endian (suc len) n = omega (
  arith,
  length-append (big_endian len (n / 256)) (n % 256 ∷ []),
  length-big_endian len (n / 256),
)

big_endian-IsBytes : (len n : ℕ) → IsBytes (big_endian len n)
unfolding big_endian
big_endian-IsBytes zero n = tt
big_endian-IsBytes (suc len) n =
    All-append _ (big_endian len (n / 256)) (n % 256 ∷ []) (big_endian-IsBytes len (n / 256))
      (omega arith)

horner-append : (acc b : ℕ) (bs : Bytes) → horner acc (bs ++ b ∷ []) ≡ horner acc bs * 256 + b
unfolding horner
horner-append acc b [] = refl
horner-append acc b (x ∷ bs) = horner-append (acc * 256 + x) b bs

horner-big_endian : (len n : ℕ) → n < 256 ^ len → horner 0 (big_endian len n) ≡ n
unfolding big_endian
horner-big_endian zero n h = unfold horner in omega arith
horner-big_endian (suc len) n h =
    horner-append 0 (n % 256) (big_endian len (n / 256))
    ∙ omega (arith, horner-big_endian len (n / 256) (omega (arith, pow-suc 256 len)))

nonce_for-fits :
    (counter : ℕ)
    → counter < 256 ^ nonce_bytes
    → nonce_for counter ≡ ok (big_endian nonce_bytes counter)
unfolding nonce_for
nonce_for-fits counter h = rw (lt→ltb _ _ h)

counter_from-length :
    (nonce : Bytes) → length nonce ≡ nonce_bytes → counter_from nonce ≡ ok (horner 0 nonce)
unfolding counter_from
counter_from-length nonce h = ground arith

-- A counter below 2 ^ 96 comes back from its nonce; a larger one raises `OverflowError`.
pub counter_from-nonce_for :
    (counter : ℕ)
    → (nonce_for counter >>= counter_from)
      ≡ (if ltb counter (256 ^ nonce_bytes) then ok counter else err overflow_error)
counter_from-nonce_for counter = elim (Bool-cases (ltb counter (256 ^ nonce_bytes))) [
  | inl fits ↦
      let h = ltb→lt counter _ fits in
      rw (
        fits,
        nonce_for-fits counter h,
        counter_from-length _ (length-big_endian nonce_bytes counter),
        horner-big_endian nonce_bytes counter h,
      )
  | inr large ↦ unfold nonce_for in rw large
]

-- The same by cases, for callers that go on from the nonce.
pub nonce_for_cases :
    (counter : ℕ)
    → ((nonce : Bytes) × (nonce_for counter ≡ ok nonce)
        × (counter_from nonce ≡ ok counter)
        × (length nonce ≡ nonce_bytes)
        × IsBytes nonce
        × (ltb counter (256 ^ nonce_bytes) ≡ true))
      ⊎ ((nonce_for counter ≡ err overflow_error) × (ltb counter (256 ^ nonce_bytes) ≡ false))
nonce_for_cases counter = elim (Bool-cases (ltb counter (256 ^ nonce_bytes))) [
  | inl fits ↦
      let h = ltb→lt counter _ fits in
      let len = length-big_endian nonce_bytes counter in
      inl (
        big_endian nonce_bytes counter,
        nonce_for-fits counter h,
        counter_from-length _ len ∙ ap ok (horner-big_endian nonce_bytes counter h),
        len,
        big_endian-IsBytes nonce_bytes counter,
        fits,
      )
  | inr large ↦ inr ((unfold nonce_for in rw large), large)
]

split_last :
    (len : ℕ) (bs : Bytes)
    → length bs ≡ suc len
    → IsBytes bs
    → (init : Bytes) × (last : ℕ) × (bs ≡ init ++ last ∷ [])
      × (length init ≡ len)
      × IsBytes init
      × (last < 256)
split_last len [] e h = absurd (omega arith)
split_last zero (b ∷ []) e h = ([], b, refl, refl, tt, h.0)
split_last zero (b ∷ c ∷ bs) e h = absurd (omega arith)
split_last (suc len) (b ∷ bs) e h =
    let (init, last, q, l, i, k) = split_last len bs (omega arith) h.1 in
    (b ∷ init, last, ap (λ (t : Bytes). b ∷ t) q, omega arith, (h.0, i), k)

-- The bytes are the digits of the number that they spell.
big_endian-horner :
    (len : ℕ) (bs : Bytes)
    → length bs ≡ len
    → IsBytes bs
    → (big_endian len (horner 0 bs) ≡ bs) × (horner 0 bs < 256 ^ len)
unfolding big_endian
big_endian-horner zero [] e h = (refl, unfold horner in omega arith)
big_endian-horner zero (b ∷ bs) e h = absurd (omega arith)
big_endian-horner (suc len) bs e h =
    let (init, last, q, l, i, k) = split_last len bs e h in
    let (digits, small) = big_endian-horner len init l i in
    let quotient : (horner 0 init * 256 + last) / 256 ≡ horner 0 init = omega arith in
    let rest : (horner 0 init * 256 + last) % 256 ≡ last = omega arith in
    rw (q, horner-append 0 last init)
      (rw (quotient, rest, digits) refl, omega (arith, pow-suc 256 len))

-- A nonce is accepted only with twelve bytes, and is then the nonce of the counter that is read
-- from it: two nonces with one counter are equal.
pub nonce_for-counter_from :
    (nonce : Bytes) {counter : ℕ}
    → IsBytes nonce
    → counter_from nonce ≡ ok counter
    → nonce_for counter ≡ ok nonce
nonce_for-counter_from nonce {counter} h e = elim (Bool-cases (length nonce == nonce_bytes)) [
  | inl l ↦
      let len : length nonce ≡ nonce_bytes = ground arith in
      let value : counter ≡ horner 0 nonce = cc (counter_from-length nonce len) in
      let (digits, small) = big_endian-horner nonce_bytes nonce len h in
      rw value (nonce_for-fits _ small ∙ ap ok digits)
  | inr l ↦ unfold counter_from in ground arith
]
