-- ===== src/Proto/Tls/Record.antt =====
-- pkg/spoofdpi/internal/proto/tls.go, ReadTLSMessage and TLSHeader.Bytes: a record that is written
-- is read back whole, with the rest of the stream left.
use proksitool.Base.{
  ◌⊎◌, inl, inr, take, drop, Bool-cases, ltb→lt, panic, out_of_fuel, zero, suc, ◌*◌, ◌+◌, sym, ◌∙◌,
  ap, ltb, ltb→le, if_cases, take-append-drop, length-take, Returns, Returns-bind, ℕ, ◌≤◌, ◌<◌, ◌≡◌,
  refl, List, [], ◌∷◌, ◌++◌, arith, length, length-append, take-append, drop-append, ok, err,
  le→ltb,
}
use proksitool.Proto.Tls.{
  TlsHeader, TlsMessage, TlsError, Read, uint16_at, real, tls_max_payload_len, header_bytes,
  read_full, read_tls_message,
}

read_full-append : (xs rest : List ℕ) → read_full (length xs) (xs ++ rest) ≡ ok (xs, rest)
unfolding read_full
read_full-append [] rest = refl
read_full-append (x ∷ xs) rest = rw (
  le→ltb (length (xs ++ rest)) (length xs) (omega (arith, length-append xs rest)),
  take-append,
  drop-append,
)

-- The fields of a header fit their widths.
pub record Fits (h : TlsHeader) : Type 0 where
  pub kind_fits : h.kind < 256
  pub version_fits : h.proto_version < 65536

-- A record of at most 16384 bytes, written header first, is read back with its fields, its bytes
-- and nothing of what follows it.
pub read_tls_message-header_bytes :
    (h : TlsHeader) (payload rest : List ℕ)
    → Fits h
    → length payload ≡ h.payload_len
    → h.payload_len ≤ tls_max_payload_len
    → read_tls_message (header_bytes h ++ (payload ++ rest))
      ≡ ok (record { kind = real; header = h; raw = header_bytes h ++ payload }, rest)
unfolding read_tls_message header_bytes
read_tls_message-header_bytes h payload rest fits size small =
    ground (arith, read_full-append payload rest)

ok≢err : {A : Type 0} {a : A} {x : TlsError} → ¬ (ok a ≡ err x)
ok≢err e = cc

-- What is read in full is the start of the stream.
read_full-start :
    (n : ℕ) (stream : List ℕ)
    → Returns (λ r. (r.0 ++ r.1 ≡ stream) × (length (r.0) ≡ n)) (read_full n stream)
unfolding read_full
read_full-start zero stream = (refl, refl)
read_full-start (suc n) [] = tt
read_full-start (suc n) (b ∷ stream) =
    if_cases (Returns (λ r. (r.0 ++ r.1 ≡ b ∷ stream) × (length (r.0) ≡ suc n)))
      (ltb (length stream) n) _ _ (λ _. tt)
      (λ e. (
        ap (◌∷◌ b) (take-append-drop n stream),
        omega (arith, length-take n stream, ltb→le (length stream) n e),
      ))

five_bytes :
    (raw : List ℕ)
    → length raw ≡ 5
    → (a : ℕ) × (b : ℕ) × (c : ℕ) × (d : ℕ) × (e : ℕ) × (raw ≡ a ∷ b ∷ c ∷ d ∷ e ∷ [])
five_bytes [] h = absurd (omega (arith, h))
five_bytes (a ∷ []) h = absurd (omega (arith, h))
five_bytes (a ∷ b ∷ []) h = absurd (omega (arith, h))
five_bytes (a ∷ b ∷ c ∷ []) h = absurd (omega (arith, h))
five_bytes (a ∷ b ∷ c ∷ d ∷ []) h = absurd (omega (arith, h))
five_bytes (a ∷ b ∷ c ∷ d ∷ e ∷ []) h = (a, b, c, d, e, refl)
five_bytes (a ∷ b ∷ c ∷ d ∷ e ∷ f ∷ raw) h = absurd (omega (arith, h))

-- A record that was read from a stream, and what is left of it.
pub record IsRead (stream : List ℕ) (r : TlsMessage × List ℕ) : Type 0 where
  pub whole : (r.0).raw ++ r.1 ≡ stream
  pub measured : length ((r.0).raw) ≡ 5 + (r.0).header.payload_len
  pub limited : (r.0).header.payload_len ≤ 16384
  pub header_read :
      (rest : List ℕ) × ((r.0).raw ≡ (r.0).header.kind ∷ rest)
      × (uint16_at ((r.0).raw) 1 ≡ ok ((r.0).header.proto_version))
      × (uint16_at ((r.0).raw) 3 ≡ ok ((r.0).header.payload_len))

read_tls_message-IsRead : (stream : List ℕ) → Returns (IsRead stream) (read_tls_message stream)
unfolding read_tls_message
read_tls_message-IsRead stream =
    Returns-bind (λ r. (r.0 ++ r.1 ≡ stream) × (length (r.0) ≡ 5)) (IsRead stream)
      (read_full 5 stream) _ (read_full-start 5 stream)
      (λ (raw, rest) (whole, size).
        let (a, b, c, d, e, bytes) = five_bytes raw size in
        rw bytes (
          if_cases (Returns (IsRead stream)) (ltb 16384 (d * 256 + e)) _ _ (λ _. tt)
            (λ small.
              Returns-bind (λ r. (r.0 ++ r.1 ≡ rest) × (length (r.0) ≡ d * 256 + e)) (IsRead stream)
                (read_full (d * 256 + e) rest) _ (read_full-start (d * 256 + e) rest)
                (λ (payload, after) (joined, long). record {
                  whole =
                      ap (λ l. a ∷ b ∷ c ∷ d ∷ e ∷ l) joined
                      ∙ ap (λ l. l ++ rest) (sym bytes)
                      ∙ whole;
                  measured = omega (arith, long);
                  limited = ltb→le 16384 (d * 256 + e) small;
                  header_read = (b ∷ c ∷ d ∷ e ∷ payload, refl, refl, refl);
                }))))

read_full-enough :
    (n : ℕ) (stream : List ℕ)
    → n ≤ length stream
    → read_full n stream ≡ ok (take n stream, drop n stream)
unfolding read_full
read_full-enough zero stream h = refl
read_full-enough (suc n) [] h = absurd (omega (arith, h))
read_full-enough (suc n) (b ∷ stream) h = rw (le→ltb (length stream) n (omega arith)) refl

-- A stream without a whole record: too short for a header, of a payload above 16384 bytes, or too
-- short for the payload.
abbrev pub IsRefused : List ℕ → Type 0
IsRefused stream =
    (length stream < 5)
    ⊎ ((n : ℕ) × (uint16_at stream 3 ≡ ok n) × ((16384 < n) ⊎ (length stream < 5 + n)))

read_tls_message-IsRefused :
    (stream : List ℕ) (x : TlsError) → read_tls_message stream ≡ err x → IsRefused stream
unfolding read_tls_message
read_tls_message-IsRefused [] x h = inl (omega arith)
read_tls_message-IsRefused (a ∷ []) x h = inl (omega arith)
read_tls_message-IsRefused (a ∷ b ∷ []) x h = inl (omega arith)
read_tls_message-IsRefused (a ∷ b ∷ c ∷ []) x h = inl (omega arith)
read_tls_message-IsRefused (a ∷ b ∷ c ∷ d ∷ []) x h = inl (omega arith)
read_tls_message-IsRefused (a ∷ b ∷ c ∷ d ∷ e ∷ rest) x h =
    elim (Bool-cases (ltb 16384 (d * 256 + e))) [
      | inl big ↦ inr (d * 256 + e, refl, inl (ltb→lt _ _ big))
      | inr small ↦ elim (Bool-cases (ltb (length rest) (d * 256 + e))) [
        | inl missing ↦ inr (d * 256 + e, refl, inr (omega (arith, ltb→lt _ _ missing)))
        | inr there ↦
            let header = read_full-enough 5 (a ∷ b ∷ c ∷ d ∷ e ∷ rest) (omega arith) in
            let payload = read_full-enough (d * 256 + e) rest (ltb→le _ _ there) in
            absurd (ok≢err (rw (header, small, payload) at h))
      ]
    ]

-- The outcome of a read.
abbrev pub Reads : List ℕ → Read (TlsMessage × List ℕ) → Type 0
Reads stream (ok r) = IsRead stream r
Reads stream (err x) = IsRefused stream
Reads stream panic = ⊥
Reads stream out_of_fuel = ⊥

-- Whatever the stream holds, ReadTLSMessage does not panic. A record that it gives is the start of the
-- stream: as long as its header says, with the fields of its header, 16384 bytes of payload at most,
-- and the rest of the stream left. It fails only where the stream is too short for a header, where the
-- payload declared is longer than that, or where the stream ends before the payload does.
pub read_tls_message-Reads : (stream : List ℕ) → Reads stream (read_tls_message stream)
read_tls_message-Reads stream =
    go (read_tls_message stream) (read_tls_message-IsRead stream)
      (read_tls_message-IsRefused stream)
  where
    go :
        (r : Read (TlsMessage × List ℕ))
        → Returns (IsRead stream) r
        → ((x : TlsError) → r ≡ err x → IsRefused stream)
        → Reads stream r
    go (ok r) h k = h
    go (err x) h k = k x refl
    go panic h k = h
    go out_of_fuel h k = h
