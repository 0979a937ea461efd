-- ===== src/Proto/Tls/Hello.antt =====
-- pkg/spoofdpi/internal/proto/tls.go, ExtractSNIOffset: on a well-formed Client Hello it finds the
-- server name. The layout is that of Layout, not the code's.
pub mod Layout
pub mod Extensions
pub use proksitool.Proto.Tls.Hello.Layout.{
  Extension, encode_extension, encode_all, server_name, ClientHello, extensions, from_compression,
  from_suites, layout, IsOther, IsWellFormed,
}
use proksitool.Base.{
  ℕ, zero, suc, ◌+◌, ◌≤◌, ◌<◌, ◌≡◌, ◌≢◌, ◌∙◌, ap, List, [], ◌∷◌, ◌++◌, arith, length, get_elem?,
  All, take, drop, length-append, length-drop, drop-drop, drop-append, take-append, append_assoc,
  some, ok, lt→ltb, le→ltb, ≢→==, lt→leb,
}
use proksitool.Proto.Tls.{
  Read, put_uint16, scan_extension, uint16_at, byte_at, sni_at, find_sni, after_cipher_suites,
  after_random, extract_sni_offset,
}
use proksitool.Proto.Tls.Hello.Extensions.{
  byte_here, uint16_here, skip, inside, append_inside, find_sni-encode_all,
}

module _ (h : ClientHello) (raw : List ℕ) (w : IsWellFormed h) where
  abbrev Answer : Read (ℕ × ℕ) → Type 0
  Answer r = (s : ℕ) × (r ≡ ok (s, s + length h.name)) × (drop s raw ≡ h.name ++ encode_all h.after)

  after_cipher_suites-Answer :
      (curr : ℕ) → drop curr raw ≡ from_compression h → Answer (after_cipher_suites raw curr)
  unfolding after_cipher_suites
  after_cipher_suites-Answer curr here =
      let n = length (extensions h) in
      let (comp, next) = byte_here raw curr here in
      let at = curr + (1 + length h.compression) in
      let e : curr + 1 + length h.compression ≡ at = omega arith in
      let at_here : drop at raw ≡ put_uint16 n ++ extensions h =
        rw e at (skip raw h.compression (curr + 1) next) in
      let (len_here, exts) = uint16_here raw at n w.extensions_fit at_here in
      let size = append_inside raw (put_uint16 n) (extensions h) at at_here (omega arith) in
      let before =
        length-append (encode_all h.before) (encode_extension sni ++ encode_all h.after) in
      let after = length-append (encode_extension sni) (encode_all h.after) in
      let reach : after_cipher_suites raw curr ≡ find_sni (length raw) raw (at + 2) (at + 2 + n) =
        rw (
          le→ltb (length raw) (curr + 1) (omega arith),
          comp,
          lt→leb (length raw) at (omega arith),
          le→ltb (length raw) (at + 2) (omega arith),
          len_here,
          le→ltb (length raw) (at + 2 + n) (omega arith),
        ) in
      rw reach (
        find_sni-encode_all h.before (length raw) raw (at + 2) (at + 2 + n) h.name
          (encode_all h.after) w.others w.name_fits exts (omega arith) (omega arith))
    where
      sni : Extension
      sni = (0, server_name h.name)

  after_random-Answer :
      (curr : ℕ)
      → drop curr raw ≡ length h.session_id ∷ (h.session_id ++ from_suites h)
      → Answer (after_random raw curr)
  unfolding after_random
  after_random-Answer curr here =
      let n = length h.cipher_suites in
      let (sid, next) = byte_here raw curr here in
      let at = curr + (1 + length h.session_id) in
      let e : curr + 1 + length h.session_id ≡ at = omega arith in
      let at_here : drop at raw ≡ from_suites h = rw e at (skip raw h.session_id (curr + 1) next) in
      let (len_here, suites) = uint16_here raw at n w.suites_fit at_here in
      let e' : at + 2 + n ≡ at + (2 + n) = omega arith in
      let comp_here : drop (at + (2 + n)) raw ≡ from_compression h =
        rw e' at (skip raw h.cipher_suites (at + 2) suites) in
      let size = inside raw (from_compression h) (at + (2 + n)) comp_here (omega arith) in
      let reach : after_random raw curr ≡ after_cipher_suites raw (at + (2 + n)) = rw (
        lt→leb (length raw) curr (omega arith),
        sid,
        lt→leb (length raw) at (omega arith),
        le→ltb (length raw) (at + 2) (omega arith),
        len_here,
        lt→leb (length raw) (at + (2 + n)) (omega arith),
      ) in
      rw reach (after_cipher_suites-Answer (at + (2 + n)) comp_here)

get_elem?-append_left :
    (xs ys : List ℕ) (i : ℕ) {a : ℕ} → get_elem? xs i ≡ some a → get_elem? (xs ++ ys) i ≡ some a
get_elem?-append_left [] ys i h = cc
get_elem?-append_left (x ∷ xs) ys zero h = h
get_elem?-append_left (x ∷ xs) ys (suc i) h = get_elem?-append_left xs ys i h

-- On every well-formed Client Hello, ExtractSNIOffset returns the offsets of the server name.
pub extract_sni_offset-layout :
    (h : ClientHello)
    → IsWellFormed h
    → (s : ℕ) × (extract_sni_offset (layout h) ≡ ok (s, s + length h.name))
      × (take (length h.name) (drop s (layout h)) ≡ h.name)
unfolding extract_sni_offset
extract_sni_offset-layout h w =
    let rest = length h.session_id ∷ (h.session_id ++ from_suites h) in
    let raw = layout h in
    let e : drop 43 raw ≡ rest = rw (← w.opens) (drop-append h.opening rest) in
    let (s, found, after) = after_random-Answer h raw w 43 e in
    let content = get_elem?-append_left h.opening rest 0 w.handshake in
    let handshake = get_elem?-append_left h.opening rest 5 w.client_hello in
    (
      s,
      rw (le→ltb (length raw) 43 (omega (arith, length-append h.opening rest)), content, handshake)
          found,
      rw (after, take-append),
    )
