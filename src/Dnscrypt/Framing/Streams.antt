-- ===== src/Dnscrypt/Framing/Streams.antt =====
-- pkg/dnscrypt/common.go: ReadPrefixed on a stream, however it is cut into Reads.
use proksitool.Base.{
  ℕ, zero, suc, ◌+◌, ◌*◌, ◌/◌, ◌%◌, ◌≤◌, ◌<◌, ◌≡◌, refl, sym, ◌∙◌, ap, true, false, List, [], ◌∷◌,
  ◌++◌, append-nil, append_assoc, none, some, ltb, leb, length, take, if◌then◌else◌, Outcome, ok,
  err, ◌>>=◌, arith, Bool-cases, inl, inr, length-append, lt→leb, le→leb, le→ltb, take_long,
}
use proksitool.Dnscrypt.Framing.{
  FrameError, too_large, too_short, read_failed, size_bytes, prefix_with_size, size_at,
  packet_length, finish, read_loop, read_prefixed,
}

-- All the bytes of a connection.
abbrev pub concat : List (List ℕ) → List ℕ
concat [] = []
concat (c ∷ conn) = c ++ concat conn

-- What a stream holds: two bytes with a size from 17 to 4095, and as many bytes.
unfoldable pub framed : List ℕ → Outcome FrameError (List ℕ)
framed [] = err read_failed
framed (x ∷ []) = err read_failed
framed (x ∷ y ∷ t) =
    if ltb 4095 (256 * x + y)
    then err too_large
    else if ltb (256 * x + y) 17
    then err too_short
    else if ltb (length t) (256 * x + y)
    then err read_failed
    else ok (take (256 * x + y) t)

take-append_le : (n : ℕ) (s t : List ℕ) → n ≤ length s → take n (s ++ t) ≡ take n s
take-append_le zero s t h = refl
take-append_le (suc n) [] t h = absurd (omega arith)
take-append_le (suc n) (b ∷ s) t h = ap (◌∷◌ b) (take-append_le n s t (omega arith))

framed-enough :
    (x y : ℕ) (t more : List ℕ)
    → 17 ≤ 256 * x + y
    → 256 * x + y ≤ 4095
    → 256 * x + y ≤ length t
    → framed (x ∷ y ∷ (t ++ more)) ≡ ok (take (256 * x + y) t)
unfolding framed
framed-enough x y t more low high h =
    let l : length (t ++ more) ≡ length t + length more = length-append t more in
    rw
      (
        le→ltb 4095 (256 * x + y) high,
        le→ltb (256 * x + y) 17 low,
        le→ltb (length (t ++ more)) (256 * x + y) (omega (arith, l)),
      )
      (ap ok (take-append_le (256 * x + y) t more h))

-- With the size known and bytes missing.
read_loop-some :
    (x y : ℕ) (t : List ℕ) (conn : List (List ℕ))
    → 17 ≤ 256 * x + y
    → 256 * x + y ≤ 4095
    → length t < 256 * x + y
    → read_loop (some (256 * x + y)) (x ∷ y ∷ t) conn ≡ framed (x ∷ y ∷ (t ++ concat conn))
unfolding read_loop packet_length finish framed
read_loop-some x y t [] low high h = rw (append-nil t) (ground (arith, low, high, h))
read_loop-some x y t (c ∷ conn) low high h =
    elim (Bool-cases (leb (256 * x + y) (length (t ++ c)))) [
      | inl e ↦
          let enough : 256 * x + y ≤ length (t ++ c) = ground (arith, e) in
          let all : 2 + (256 * x + y) ≤ length (x ∷ y ∷ (t ++ c)) = omega arith in
          rw (le→leb (2 + (256 * x + y)) (length (x ∷ y ∷ (t ++ c))) all) (
            sym (framed-enough x y (t ++ c) (concat conn) low high enough)
            ∙ ap (λ (s : List ℕ). framed (x ∷ y ∷ s)) (append_assoc t c (concat conn)))
      | inr e ↦
          let missing : length (t ++ c) < 256 * x + y = ground (arith, e) in
          let few : length (x ∷ y ∷ (t ++ c)) < 2 + (256 * x + y) = omega arith in
          rw (lt→leb (2 + (256 * x + y)) (length (x ∷ y ∷ (t ++ c))) few) (
            read_loop-some x y (t ++ c) conn low high missing
            ∙ ap (λ (s : List ℕ). framed (x ∷ y ∷ s)) (append_assoc t c (concat conn)))
    ]

two_bytes : (x y : ℕ) (t : List ℕ) → leb 2 (length (x ∷ y ∷ t)) ≡ true
two_bytes x y t = le→leb 2 (length (x ∷ y ∷ t)) (omega arith)

packet_length-some :
    (x y : ℕ) (t : List ℕ)
    → 17 ≤ 256 * x + y
    → 256 * x + y ≤ 4095
    → packet_length none (x ∷ y ∷ t) ≡ ok (some (256 * x + y))
unfolding packet_length size_at
packet_length-some x y t low high =
    rw (two_bytes x y t, le→ltb 4095 (256 * x + y) high, le→ltb (256 * x + y) 17 low) refl

finish-framed :
    (x y : ℕ) (t : List ℕ) (conn : List (List ℕ))
    → 17 ≤ 256 * x + y
    → 256 * x + y ≤ 4095
    → finish (some (256 * x + y)) (x ∷ y ∷ t) (read_loop (some (256 * x + y)) (x ∷ y ∷ t) conn)
      ≡ framed (x ∷ y ∷ (t ++ concat conn))
unfolding finish
finish-framed x y t conn low high = elim (Bool-cases (leb (256 * x + y) (length t))) [
  | inl e ↦
      let enough : 256 * x + y ≤ length t = ground (arith, e) in
      let all : 2 + (256 * x + y) ≤ length (x ∷ y ∷ t) = omega arith in
      rw (le→leb (2 + (256 * x + y)) (length (x ∷ y ∷ t)) all)
        (sym (framed-enough x y t (concat conn) low high enough))
  | inr e ↦
      let missing : length t < 256 * x + y = ground (arith, e) in
      let few : length (x ∷ y ∷ t) < 2 + (256 * x + y) = omega arith in
      rw (lt→leb (2 + (256 * x + y)) (length (x ∷ y ∷ t)) few)
        (read_loop-some x y t conn low high missing)
]

-- The end of a round that began without the size, with the rounds after it known.
after_read :
    (buf : List ℕ) (conn : List (List ℕ))
    → ((b : List ℕ) → length b < 2 → read_loop none b conn ≡ framed (b ++ concat conn))
    → (packet_length none buf >>= (λ known. finish known buf (read_loop known buf conn)))
      ≡ framed (buf ++ concat conn)
unfolding packet_length finish size_at framed
after_read [] conn next = next [] (omega arith)
after_read (x ∷ []) conn next = next (x ∷ []) (omega arith)
after_read (x ∷ y ∷ t) conn next = elim (Bool-cases (ltb 4095 (256 * x + y))) [
  | inl e ↦ rw (two_bytes x y t, e) refl
  | inr e ↦ elim (Bool-cases (ltb (256 * x + y) 17)) [
    | inl f ↦ rw (two_bytes x y t, e, f) refl
    | inr f ↦
        let low : 17 ≤ 256 * x + y = ground (arith, f) in
        let high : 256 * x + y ≤ 4095 = ground (arith, e) in
        ap (λ o. o >>= (λ known. finish known (x ∷ y ∷ t) (read_loop known (x ∷ y ∷ t) conn)))
          (packet_length-some x y t low high)
        ∙ finish-framed x y t conn low high
  ]
]

read_loop-none :
    (buf : List ℕ) (conn : List (List ℕ))
    → length buf < 2
    → read_loop none buf conn ≡ framed (buf ++ concat conn)
unfolding read_loop framed
read_loop-none [] [] h = refl
read_loop-none (x ∷ []) [] h = refl
read_loop-none (x ∷ y ∷ t) [] h = absurd (omega arith)
read_loop-none buf (c ∷ conn) h =
    after_read (buf ++ c) conn (λ b few. read_loop-none b conn few)
    ∙ ap framed (append_assoc buf c (concat conn))

-- However a stream is cut into Reads, even within the two bytes of the size, ReadPrefixed gives what
-- the stream holds: the packet, without what follows it, or the error for its size or its end.
pub read_prefixed-framed : (conn : List (List ℕ)) → read_prefixed conn ≡ framed (concat conn)
unfolding read_prefixed
read_prefixed-framed conn = read_loop-none [] conn (omega arith)

-- A packet of a size that ReadPrefixed takes, framed by PrefixWithSize and sent with more behind it, is
-- read back, however the bytes arrive.
pub read_prefixed-prefix_with_size :
    (packet sent more : List ℕ) (conn : List (List ℕ))
    → 17 ≤ length packet
    → length packet ≤ 4095
    → prefix_with_size packet ≡ ok sent
    → concat conn ≡ sent ++ more
    → read_prefixed conn ≡ ok packet
unfolding prefix_with_size size_bytes
read_prefixed-prefix_with_size packet sent more conn low high e arrived =
    let small : ltb 65535 (length packet) ≡ false = le→ltb 65535 (length packet) (omega arith) in
    let is : prefix_with_size packet ≡ ok (size_bytes (length packet) ++ packet) = rw small refl in
    let same : size_bytes (length packet) ++ packet ≡ sent = cc in
    let size : 256 * (length packet / 256 % 256) + length packet % 256 ≡ length packet =
      omega arith in
    read_prefixed-framed conn
    ∙ ap framed (arrived ∙ ap (λ (s : List ℕ). s ++ more) (sym same))
    ∙ framed-enough (length packet / 256 % 256) (length packet % 256) packet more (omega arith)
        (omega arith) (omega arith)
    ∙ ap ok
        (take_long packet (256 * (length packet / 256 % 256) + length packet % 256) (omega arith))
