-- ===== src/Proto/Tls/Bounds.antt =====
-- pkg/spoofdpi/internal/proto/tls.go, ExtractSNIOffset: every input is answered, and in bounds.
use proksitool.Base.{
  ℕ, zero, suc, ◌+◌, ◌≤◌, ◌<◌, ◌≡◌, Bool, false, not, List, arith, length, get_elem?-some, err,
  ◌>>=◌, Returns, if_cases, ltb, leb, ◌==◌, if◌then◌else◌, ltb→le,
}
use proksitool.Proto.Tls.{
  Read, TlsError, byte_at, uint16_at, sni_at, scan_extension, find_sni, after_cipher_suites,
  after_random, extract_sni_offset,
}

-- The two offsets cut a piece out of `raw`.
abbrev pub InBounds : List ℕ → ℕ × ℕ → Type 0
InBounds raw (start, stop) = (start ≤ stop) × (stop ≤ length raw)

byte_at-bind :
    {A : Type 0} (P : A → Type 0) (raw : List ℕ) (i : ℕ) (f : ℕ → Read A)
    → i < length raw
    → ((b : ℕ) → Returns P (f b))
    → Returns P (byte_at raw i >>= f)
byte_at-bind P raw i f h k = let (b, e) = get_elem?-some raw i h in rw e (k b)

uint16_at-bind :
    {A : Type 0} (P : A → Type 0) (raw : List ℕ) (i : ℕ) (f : ℕ → Read A)
    → i + 1 < length raw
    → ((n : ℕ) → Returns P (f n))
    → Returns P (uint16_at raw i >>= f)
uint16_at-bind P raw i f h k =
    let (b, e) = get_elem?-some raw i (omega arith) in
    let (c, d) = get_elem?-some raw (i + 1) h in rw (e, d) (k _)

-- A branch that gives an error keeps any promise; the other one has the test's outcome.
err_or :
    {A : Type 0} (P : A → Type 0) (e : TlsError) (b : Bool) (y : Read A)
    → (b ≡ false → Returns P y)
    → Returns P (if b then err e else y)
err_or P e b y h = if_cases (Returns P) b _ y (λ _. tt) h

sni_at-Returns :
    (raw : List ℕ) (curr ext_len : ℕ)
    → curr + ext_len ≤ length raw
    → Returns (InBounds raw) (sni_at raw curr ext_len)
unfolding sni_at
sni_at-Returns raw curr ext_len h = err_or (InBounds raw) _ (ltb ext_len 5) _ λ long.
    uint16_at-bind (InBounds raw) raw (curr + 3) _ (omega (arith, ltb→le ext_len 5 long)) λ n.
      err_or (InBounds raw) _ (ltb (curr + ext_len) (curr + 5 + n)) _
        λ fits. omega (arith, ltb→le _ _ fits)

-- Below the extensions' end the loop ends before its fuel does.
find_sni-Returns :
    (fuel : ℕ) (raw : List ℕ) (curr stop : ℕ)
    → stop ≤ length raw
    → curr ≤ stop
    → stop < fuel + curr
    → Returns (InBounds raw) (find_sni fuel raw curr stop)
unfolding find_sni scan_extension
find_sni-Returns zero raw curr stop h k m = omega arith
find_sni-Returns (suc fuel) raw curr stop h k m =
    if_cases P (ltb curr stop) _ _
      (λ _. err_or (InBounds raw) _ (ltb stop (curr + 4)) _ λ room.
        let room : curr + 4 ≤ stop = ltb→le _ _ room in
        uint16_at-bind (InBounds raw) raw curr _ (omega arith) λ ext_type.
          uint16_at-bind (InBounds raw) raw (curr + 2) _ (omega arith) λ ext_len.
            err_or (InBounds raw) _ (ltb stop (curr + 4 + ext_len)) _ λ fits.
              let fits : curr + 4 + ext_len ≤ stop = ltb→le _ _ fits in
              if_cases P (ext_type == 0) _ _
                (λ _. sni_at-Returns raw (curr + 4) ext_len (omega arith))
                (λ _. find_sni-Returns fuel raw (curr + 4 + ext_len) stop h fits (omega arith)))
      (λ _. tt)
  where
    P : Read (ℕ × ℕ) → Type 0
    P = Returns (InBounds raw)

after_cipher_suites-Returns :
    (raw : List ℕ) (curr : ℕ) → 0 < curr → Returns (InBounds raw) (after_cipher_suites raw curr)
unfolding after_cipher_suites
after_cipher_suites-Returns raw curr h = err_or P _ (ltb (length raw) (curr + 1)) _ λ room.
    byte_at-bind P raw curr _ (omega (arith, ltb→le _ _ room)) λ n.
      err_or P _ (leb (length raw) (curr + (1 + n))) _ λ _.
        err_or P _ (ltb (length raw) (curr + (1 + n) + 2)) _ λ two.
          let two : curr + (1 + n) + 2 ≤ length raw = ltb→le _ _ two in
          uint16_at-bind P raw (curr + (1 + n)) _ (omega arith) λ k.
            err_or P _ (ltb (length raw) (curr + (1 + n) + 2 + k)) _ λ fits.
              find_sni-Returns (length raw) raw _ _ (ltb→le _ _ fits) (omega arith)
                (omega (arith, ltb→le _ _ fits))
  where
    P : ℕ × ℕ → Type 0
    P = InBounds raw

after_random-Returns : (raw : List ℕ) (curr : ℕ) → Returns (InBounds raw) (after_random raw curr)
unfolding after_random
after_random-Returns raw curr = err_or P _ (leb (length raw) curr) _ λ inside.
    byte_at-bind P raw curr _ (ground arith) λ n.
      err_or P _ (leb (length raw) (curr + (1 + n))) _ λ _.
        err_or P _ (ltb (length raw) (curr + (1 + n) + 2)) _ λ two.
          uint16_at-bind P raw (curr + (1 + n)) _ (omega (arith, ltb→le _ _ two)) λ k.
            err_or P _ (leb (length raw) (curr + (1 + n) + (2 + k))) _
              λ _. after_cipher_suites-Returns raw _ (omega arith)
  where
    P : ℕ × ℕ → Type 0
    P = InBounds raw

-- ExtractSNIOffset answers every byte string: it indexes nothing out of range and its loop ends;
-- offsets that it returns are in order and within the message.
pub extract_sni_offset-Returns : (raw : List ℕ) → Returns (InBounds raw) (extract_sni_offset raw)
unfolding extract_sni_offset
extract_sni_offset-Returns raw = err_or P _ (ltb (length raw) 43) _ λ long.
    let long : 43 ≤ length raw = ltb→le _ _ long in
    byte_at-bind P raw 0 _ (omega arith) λ content. err_or P _ (not (content == 0x16)) _ λ _.
      byte_at-bind P raw 5 _ (omega arith)
        λ handshake. err_or P _ (not (handshake == 0x01)) _ λ _. after_random-Returns raw 43
  where
    P : ℕ × ℕ → Type 0
    P = InBounds raw
