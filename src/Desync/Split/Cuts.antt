-- ===== src/Desync/Split/Cuts.antt =====
-- pkg/spoofdpi/internal/desync/tls.go: each way to cut a message keeps its bytes and their order.
use proksitool.Base.{
  ℕ, zero, suc, ◌+◌, ◌-◌, ◌≤◌, ◌<◌, ◌≡◌, refl, sym, ◌∙◌, ap, min, Bool, true, false, not, ◌&&◌,
  List, [], ◌∷◌, ◌++◌, arith, ltb, length, take, drop, take-append-drop, drop-drop, length-drop, ok,
  err, panic, out_of_fuel, Returns, All, drop-length, if_cases, ◌==◌, get_elem?-some,
  drop-get_elem?, ◌||◌, ltb→le, le→leb, ==_iff, Bool-cases, inl, inr, bit_and,
}
use proksitool.Desync.Split.{
  Segment, segment, Segments, SplitPoint, slice, and_then, piece, chunks, split_chunks,
  split_first_byte, sni_bytes, split_sni, rotate_left_one, mask_loop, split_mask, cut,
}

-- The bytes that go out, in order.
abbrev pub payload : List Segment → List ℕ
payload [] = []
payload (s ∷ segments) = s.packet ++ payload segments

abbrev pub Carries : List ℕ → List Segment → Type 0
Carries raw segments = payload segments ≡ raw

part-append-drop :
    (raw : List ℕ) (a b : ℕ) → a ≤ b → take (b - a) (drop a raw) ++ drop b raw ≡ drop a raw
part-append-drop raw a b h =
    let e : b ≡ a + (b - a) = omega arith in
    let f : drop b raw ≡ drop (b - a) (drop a raw) =
      ap (λ n. drop n raw) e ∙ sym (drop-drop a (b - a) raw) in
    rw f (take-append-drop (b - a) (drop a raw))

-- A segment in front: the rest carries what comes after it.
and_then-Carries :
    {raw : List ℕ} (rest : List ℕ) (s : Segment) (more : Segments)
    → s.packet ++ rest ≡ raw
    → Returns (Carries rest) more
    → Returns (Carries raw) (and_then s more)
and_then-Carries rest s (ok segments) e h = rw h e
and_then-Carries rest s (err x) e h = tt
and_then-Carries rest s panic e h = h
and_then-Carries rest s out_of_fuel e h = h

-- A slice within the message, in front of what carries the rest.
piece-Carries :
    (raw : List ℕ) (a b : ℕ) (lazy : Bool) (more : Segments)
    → a ≤ b
    → b ≤ length raw
    → Returns (Carries (drop b raw)) more
    → Returns (Carries (drop a raw)) (piece raw a b lazy more)
unfolding piece slice
piece-Carries raw a b lazy more order inside h =
    rw (le→leb a b order, le→leb b (length raw) inside)
      (and_then-Carries (drop b raw) (segment (take (b - a) (drop a raw)) lazy) more
        (part-append-drop raw a b order) h)

-- The slice that ends the message.
last-Carries :
    (raw : List ℕ) (a : ℕ) (lazy : Bool)
    → a ≤ length raw
    → Returns (Carries (drop a raw)) (piece raw a (length raw) lazy (ok []))
last-Carries raw a lazy h =
    piece-Carries raw a (length raw) lazy (ok []) h (omega arith)
      (sym (drop-length raw (length raw) (omega arith)))

chunks-Carries :
    (fuel : ℕ) (raw : List ℕ) (size : ℕ) (disorder cur : Bool)
    → length raw ≤ fuel
    → 0 < size
    → Returns (Carries raw) (chunks fuel raw size disorder cur)
unfolding chunks
chunks-Carries zero [] size disorder cur h p = refl
chunks-Carries zero (b ∷ raw) size disorder cur h p = omega arith
chunks-Carries (suc fuel) [] size disorder cur h p = refl
chunks-Carries (suc fuel) (b ∷ raw) size disorder cur h p =
    let n = min (length (b ∷ raw)) size in
    piece-Carries (b ∷ raw) 0 n (cur && disorder) _ (omega arith) (omega arith) (
      chunks-Carries fuel (drop n (b ∷ raw)) size disorder (not cur)
        (omega (arith, length-drop n (b ∷ raw))) p)

pub split_chunks-Carries :
    (raw : List ℕ) (size : ℕ) (disorder : Bool)
    → Returns (Carries raw) (split_chunks raw size disorder)
unfolding split_chunks
split_chunks-Carries raw size disorder =
    if_cases (Returns (Carries raw)) (length raw == 0) _ _ (λ _. tt)
      λ _.
        if_cases (Returns (Carries raw)) (size == 0) _ _ (λ _. tt)
          λ some_size.
            chunks-Carries (length raw) raw size disorder true (omega arith) (ground arith)

pub split_first_byte-Carries :
    (raw : List ℕ) (disorder : Bool) → Returns (Carries raw) (split_first_byte raw disorder)
unfolding split_first_byte
split_first_byte-Carries [] disorder = tt
split_first_byte-Carries (b ∷ []) disorder = tt
split_first_byte-Carries (b ∷ c ∷ raw) disorder =
    if_cases (Returns (Carries (b ∷ c ∷ raw))) (ltb (length (b ∷ c ∷ raw)) 2) _ _ (λ _. tt)
      λ _.
        piece-Carries (b ∷ c ∷ raw) 0 1 (disorder && true) _ (omega arith) (omega arith)
          (last-Carries (b ∷ c ∷ raw) 1 false (omega arith))

sni_bytes-Carries :
    (n i : ℕ) (raw : List ℕ) (disorder cur : Bool)
    → i + n ≤ length raw
    → Returns (Carries (drop i raw)) (sni_bytes n i raw disorder cur)
unfolding sni_bytes
sni_bytes-Carries zero i raw disorder cur h = last-Carries raw i (cur && disorder) (omega arith)
sni_bytes-Carries (suc n) i raw disorder cur h =
    let (b, e) = get_elem?-some raw i (omega arith) in
    rw e (
      and_then-Carries _ (segment (b ∷ []) (cur && disorder)) _ (sym (drop-get_elem? raw i b e))
        (sni_bytes-Carries n (i + 1) raw disorder (not cur) (omega arith)))

pub split_sni-Carries :
    (raw : List ℕ) (start stop : ℕ) (disorder : Bool)
    → Returns (Carries raw) (split_sni raw start stop disorder)
unfolding split_sni
split_sni-Carries raw start stop disorder =
    if_cases P (length raw == 0) _ _ (λ _. tt)
      λ _.
        if_cases P (ltb stop start) _ _ (λ _. tt)
          λ order.
            if_cases P (not (ltb start (length raw)) || not (ltb stop (length raw))) _ _ (λ _. tt)
              λ inside. piece-Carries raw 0 start false _ (omega arith) (ground (arith, inside)) (
                sni_bytes-Carries (stop - start) start raw disorder true
                  (ground (arith, ltb→le stop start order)))
  where
    P : Segments → Type 0
    P = Returns (Carries raw)

mask_loop-Carries :
    (n i start cur_bit : ℕ) (raw : List ℕ) (mask : ℕ) (disorder cur : Bool)
    → start ≤ i
    → i + n ≡ length raw
    → Returns (Carries (drop start raw)) (mask_loop n i start cur_bit raw mask disorder cur)
unfolding mask_loop
mask_loop-Carries zero i start cur_bit raw mask disorder cur h e =
    if_cases (Returns (Carries (drop start raw))) (ltb start (length raw)) _ _
      (λ some_left. last-Carries raw start (cur && disorder) (omega arith))
      (λ none_left. sym (drop-length raw start (ltb→le start (length raw) none_left)))
mask_loop-Carries (suc n) i start cur_bit raw mask disorder cur h e =
    let after = λ (turn : Bool).
      mask_loop-Carries n (i + 1) (i + 1) (rotate_left_one cur_bit) raw mask disorder turn
        (omega arith) (omega arith) in
    elim (Bool-cases (bit_and mask cur_bit == cur_bit)) [
      | inl hit ↦ elim (Bool-cases (ltb start i)) [
        | inl pending ↦
            rw (hit, pending, mask_loop)
              (piece-Carries raw start i (cur && disorder) _ h (omega arith) (
                piece-Carries raw i (i + 1) (not cur && disorder) _ (omega arith) (omega arith)
                  (after cur)))
        | inr fresh ↦
            rw (hit, fresh, mask_loop)
              (let here : start ≡ i = omega (arith, ltb→le start i fresh) in
                rw here (
                  piece-Carries raw i (i + 1) (cur && disorder) _ (omega arith) (omega arith)
                    (after (not cur))))
      ]
      | inr miss ↦
          rw (miss, mask_loop)
            (mask_loop-Carries n (i + 1) start (rotate_left_one cur_bit) raw mask disorder cur
              (omega arith) (omega arith))
    ]

pub split_mask-Carries :
    (raw : List ℕ) (mask : ℕ) (disorder : Bool)
    → Returns (Carries raw) (split_mask raw mask disorder)
unfolding split_mask
split_mask-Carries raw mask disorder =
    if_cases (Returns (Carries raw)) (length raw == 0) _ _ (λ _. tt)
      λ _. mask_loop-Carries (length raw) 0 0 1 raw mask disorder true (omega arith) (omega arith)

-- Cut points in order, none before `prv`.
abbrev pub Ascends : ℕ → List SplitPoint → Type 0
Ascends prv [] = Unit
Ascends prv (p ∷ points) = (prv ≤ p.at) × Ascends p.at points

pub cut-Carries :
    (raw : List ℕ) (prv : ℕ) (points : List SplitPoint)
    → Ascends prv points
    → All (λ p. p.at ≤ length raw) points
    → Returns (Carries (drop prv raw)) (cut raw prv points)
unfolding cut
cut-Carries raw prv [] asc inside =
    if_cases (Returns (Carries (drop prv raw))) (ltb prv (length raw)) _ _
      (λ some_left. last-Carries raw prv false (ground (arith, some_left)))
      λ none_left. sym (drop-length raw prv (ltb→le prv (length raw) none_left))
cut-Carries raw prv (p ∷ points) (low, asc) (here, inside) = elim (Bool-cases (p.at == prv)) [
  | inl same ↦
      let e : prv ≡ p.at = sym ((==_iff p.at prv).0 same) in
      rw (same, cut) (rw e (cut-Carries raw p.at points asc inside))
  | inr later ↦
      rw (later, cut)
        (piece-Carries raw prv p.at p.lazy _ low here (cut-Carries raw p.at points asc inside))
]
