-- ===== src/Proto/Tls/Hello/Extensions.antt =====
-- pkg/spoofdpi/internal/proto/tls.go, ExtractSNIOffset: the loop over the extensions.
use proksitool.Base.{
  ℕ, zero, suc, ◌+◌, ◌≤◌, ◌<◌, ◌≡◌, ◌∙◌, ap, List, [], ◌∷◌, ◌++◌, arith, length, All, take, drop,
  length-append, length-drop, drop-drop, drop-append, append_assoc, ok, lt→ltb, le→ltb, ≢→==,
}
use proksitool.Proto.Tls.{put_uint16, scan_extension, uint16_at, byte_at, sni_at, find_sni}
use proksitool.Proto.Tls.Hello.Layout.{
  Extension, encode_extension, encode_all, server_name, IsOther,
}

-- What stands at a place: the byte there, and what stands after it.
pub byte_here :
    (raw : List ℕ) (i : ℕ) {b : ℕ} {rest : List ℕ}
    → drop i raw ≡ b ∷ rest
    → (byte_at raw i ≡ ok b) × (drop (i + 1) raw ≡ rest)
byte_here [] zero h = ground arith
byte_here [] (suc i) h = ground arith
byte_here (x ∷ xs) zero h = ground arith
byte_here (x ∷ xs) (suc i) h =
    let (here, after) = byte_here xs i h in
    let e : suc i + 1 ≡ suc (i + 1) = omega arith in (here, rw e after)

pub uint16_here :
    (raw : List ℕ) (i n : ℕ) {rest : List ℕ}
    → n < 65536
    → drop i raw ≡ put_uint16 n ++ rest
    → (uint16_at raw i ≡ ok n) × (drop (i + 2) raw ≡ rest)
uint16_here raw i n small h =
    let (hi, next) = byte_here raw i h in
    let (lo, after) = byte_here raw (i + 1) next in
    let e : i + 2 ≡ i + 1 + 1 = omega arith in (rw (hi, lo) (ap ok (omega arith)), rw e after)

pub skip :
    (raw xs : List ℕ) (i : ℕ) {rest : List ℕ}
    → drop i raw ≡ xs ++ rest
    → drop (i + length xs) raw ≡ rest
skip raw xs i h = rw (← drop-drop i (length xs) raw, h, drop-append)

-- A place before something lies inside.
pub inside :
    (raw xs : List ℕ) (i : ℕ) → drop i raw ≡ xs → 0 < length xs → length raw ≡ i + length xs
inside raw xs i h p = omega (arith, length-drop i raw, ap length h)

pub append_inside :
    (raw xs ys : List ℕ) (i : ℕ)
    → drop i raw ≡ xs ++ ys
    → 0 < length xs
    → length raw ≡ i + length xs + length ys
append_inside raw xs ys i h p =
    omega
      (arith, inside raw (xs ++ ys) i h (omega (arith, length-append xs ys)), length-append xs ys)

-- A round with room for the four bytes of an extension's head.
find_sni_round :
    (fuel : ℕ) (raw : List ℕ) (curr stop ext_type ext_len : ℕ)
    → curr + 4 ≤ stop
    → uint16_at raw curr ≡ ok ext_type
    → uint16_at raw (curr + 2) ≡ ok ext_len
    → find_sni (suc fuel) raw curr stop
      ≡ scan_extension (λ c. find_sni fuel raw c stop) raw (curr + 4) stop ext_type ext_len
unfolding find_sni
find_sni_round fuel raw curr stop ext_type ext_len room here len_here =
    rw (lt→ltb curr stop (omega arith), le→ltb stop (curr + 4) room, here, len_here)

-- One round at an extension of another type.
find_sni_step :
    (fuel : ℕ) (raw : List ℕ) (curr stop : ℕ) (x : Extension) (rest : List ℕ)
    → IsOther x
    → drop curr raw ≡ encode_extension x ++ rest
    → curr + length (encode_extension x) ≤ stop
    → find_sni (suc fuel) raw curr stop
      ≡ find_sni fuel raw (curr + length (encode_extension x)) stop
unfolding scan_extension
find_sni_step fuel raw curr stop (t, body) rest (other, small, fits) h room =
    let (type_here, next) = uint16_here raw curr t small h in
    let (len_here, _) = uint16_here raw (curr + 2) (length body) fits next in
    find_sni_round fuel raw curr stop t (length body) (omega arith) type_here len_here
    ∙ rw (le→ltb stop (curr + 4 + length body) (omega arith), ≢→== t 0 other)
        (ap (λ c. find_sni fuel raw c stop) (omega arith))

sni_at_hit :
    (raw : List ℕ) (curr ext_len n : ℕ)
    → ext_len ≡ n + 5
    → uint16_at raw (curr + 3) ≡ ok n
    → sni_at raw curr ext_len ≡ ok (curr + 5, curr + 5 + n)
unfolding sni_at
sni_at_hit raw curr ext_len n e here =
    rw (le→ltb ext_len 5 (omega arith), here, le→ltb (curr + ext_len) (curr + 5 + n) (omega arith))

-- The round at the server name.
find_sni_hit :
    (fuel : ℕ) (raw : List ℕ) (curr stop : ℕ) (name rest : List ℕ)
    → length name < 65531
    → drop curr raw ≡ encode_extension (0, server_name name) ++ rest
    → curr + 9 + length name ≤ stop
    → (find_sni (suc fuel) raw curr stop ≡ ok (curr + 9, curr + 9 + length name))
      × (drop (curr + 9) raw ≡ name ++ rest)
unfolding scan_extension sni_at
find_sni_hit fuel raw curr stop name rest fits h room =
    let (type_here, next) = uint16_here raw curr 0 (omega arith) h in
    let (len_here, _) = uint16_here raw (curr + 2) (length (server_name name)) (omega arith) next in
    let name_here : drop (curr + 4 + 3) raw ≡ put_uint16 (length name) ++ (name ++ rest) =
      let e : curr + 4 + 3 ≡ curr + 7 = omega arith in
      rw e (skip raw (take 7 (encode_extension (0, server_name name))) curr h) in
    let (name_len, after) = uint16_here raw (curr + 4 + 3) (length name) (omega arith) name_here in
    let e : curr + 9 ≡ curr + 4 + 5 = omega arith in
    let e' : curr + 9 ≡ curr + 4 + 3 + 2 = omega arith in
    (
      find_sni_round fuel raw curr stop 0 (length (server_name name)) (omega arith) type_here
            len_here
          ∙ rw (le→ltb stop (curr + 4 + length (server_name name)) (omega arith), e)
              (sni_at_hit raw (curr + 4) _ (length name) (omega arith) name_len),
      rw e' after,
    )

pub find_sni-encode_all :
    (before : List Extension) (fuel : ℕ) (raw : List ℕ) (curr stop : ℕ) (name rest : List ℕ)
    → All IsOther before
    → length name < 65531
    → drop curr raw ≡ encode_all before ++ (encode_extension (0, server_name name) ++ rest)
    → curr + length (encode_all before) + 9 + length name ≤ stop
    → length (encode_all before) < fuel
    → (s : ℕ) × (find_sni fuel raw curr stop ≡ ok (s, s + length name))
      × (drop s raw ≡ name ++ rest)
find_sni-encode_all [] zero raw curr stop name rest o fits h room enough = absurd (omega arith)
find_sni-encode_all [] (suc fuel) raw curr stop name rest o fits h room enough =
    let (found, after) = find_sni_hit fuel raw curr stop name rest fits h (omega arith) in
    (curr + 9, found, after)
find_sni-encode_all (x ∷ xs) zero raw curr stop name rest o fits h room enough =
    absurd (omega arith)
find_sni-encode_all (x ∷ xs) (suc fuel) raw curr stop name rest o fits h room enough =
    let more = encode_all xs ++ (encode_extension (0, server_name name) ++ rest) in
    let size = length-append (encode_extension x) (encode_all xs) in
    let here : drop curr raw ≡ encode_extension x ++ more =
      h
      ∙ append_assoc (encode_extension x) (encode_all xs)
          (encode_extension (0, server_name name) ++ rest) in
    let step = find_sni_step fuel raw curr stop x more o.0 here (omega arith) in
    let (s, found, after) =
      find_sni-encode_all xs fuel raw (curr + length (encode_extension x)) stop name rest o.1 fits
        (skip raw (encode_extension x) curr here) (omega arith) (omega arith) in
    (s, step ∙ found, after)
