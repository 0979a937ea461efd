-- ===== src/Dnscrypt/Messages/Responses.antt =====
-- pkg/dnscrypt/crypto.go, Decrypt, with pqStripControl of pq.go: which responses are taken.
use proksitool.Base.{
  take_long, length-append, panic, out_of_fuel, ◌<◌, false, ◌++◌, ℕ, ◌+◌, ◌≤◌, ◌≡◌, refl, sym, ◌∙◌,
  ap, List, Option, none, some, length, take, drop, Outcome, ok, err, arith, Returns, Returns-map,
  le→ltb,
}
use proksitool.Dnscrypt.Keys.{
  Construction, xsalsa20_poly1305, xchacha20_poly1305, xwing_pq, undefined,
}
use proksitool.Dnscrypt.Padding.{pad, unpad-pad, length-pad, unpad}
use proksitool.Dnscrypt.Certs.{slice, is_pq}
use proksitool.Dnscrypt.Resumption.{Kdf, Resumption, ControlError, pq_strip_control, split_control}
use proksitool.Dnscrypt.Messages.{
  Boxes, MessageError, Target, server_magic, response_box, from_unpad, unpad_response,
  after_control, opened, response_parts, open_parts, decrypt,
}
use proksitool.Dnscrypt.Messages.Queries.{BoxLaws, BoxesLaws, drop-prefix, take-prefix}
use proksitool.Dnscrypt.Messages.Parts.{Parts, response_parts-Parts, response_parts-ok}
use proksitool.Dnscrypt.Messages.Control.{unpad_response-only, stripped-ok, after_control-only}

-- The body that `plaintext` holds: all of it, or what follows the control block.
abbrev pub Body : Construction → List ℕ → List ℕ → Type 0
Body xwing_pq plaintext body = (control : List ℕ) × (split_control plaintext ≡ ok (control, body))
Body _ plaintext body = plaintext ≡ body

-- A response is taken for the packet: it has the server's magic and the nonce of the query, and what
-- its box opens to is the packet, padded, behind a control block if the construction has one.
pub record Accepts (boxes : Boxes) (c : Construction) (key nonce encrypted packet : List ℕ)
    : Type 0 where
  pub magic : take 8 encrypted ≡ server_magic
  pub same_nonce : take 12 nonce ≡ take 12 (slice 8 32 encrypted)
  pub plaintext : List ℕ
  pub opens :
      (response_box boxes c).open_box (slice 8 32 encrypted) key (drop 32 encrypted)
      ≡ some plaintext
  pub body : List ℕ
  pub of_body : Body c plaintext body
  pub unpads : unpad body ≡ ok packet
  pub long : 17 ≤ length packet

-- What a server sends for a packet: it is padded to a length and sealed.
unfoldable pub response_of : Boxes → Construction → List ℕ → List ℕ → List ℕ → ℕ → List ℕ
response_of boxes c key server_nonce packet padded =
    server_magic ++ server_nonce ++ (response_box boxes c).seal server_nonce key (pad packet padded)

response_box-Laws :
    (boxes : Boxes) (c : Construction) → BoxesLaws boxes → BoxLaws (response_box boxes c)
unfolding response_box
response_box-Laws boxes undefined h = h.xsalsa_laws
response_box-Laws boxes xsalsa20_poly1305 h = h.xsalsa_laws
response_box-Laws boxes xchacha20_poly1305 h = h.xchacha_laws
response_box-Laws boxes xwing_pq h = h.xchacha_laws

Body-classic :
    (c : Construction) (plaintext : List ℕ) → is_pq c ≡ false → Body c plaintext plaintext
unfolding is_pq
Body-classic undefined plaintext h = refl
Body-classic xsalsa20_poly1305 plaintext h = refl
Body-classic xchacha20_poly1305 plaintext h = refl
Body-classic xwing_pq plaintext h = cc

response_of-Accepts :
    (boxes : Boxes) (c : Construction) (key nonce server_nonce packet : List ℕ) (padded : ℕ)
    → BoxesLaws boxes
    → is_pq c ≡ false
    → length nonce ≡ 12
    → length server_nonce ≡ 24
    → take 12 server_nonce ≡ nonce
    → 17 ≤ length packet
    → Accepts boxes c key nonce (response_of boxes c key server_nonce packet padded) packet
unfolding response_of slice
response_of-Accepts boxes c key nonce server_nonce packet padded laws classic short long same low =
    record {
      magic = refl;
      same_nonce = take_long nonce 12 (omega arith) ∙ sym same ∙ ap (take 12) (sym front);
      plaintext = pad packet padded;
      opens =
          rw (front, drop-prefix 24 server_nonce sealed long)
            ((response_box-Laws boxes c laws).open-seal server_nonce key (pad packet padded));
      body = pad packet padded;
      of_body = Body-classic c (pad packet padded) classic;
      unpads = (unpad-pad packet padded).0;
      long = low;
    }
  where
    sealed : List ℕ
    sealed = (response_box boxes c).seal server_nonce key (pad packet padded)

    front : take 24 (server_nonce ++ sealed) ≡ server_nonce
    front = take-prefix 24 server_nonce sealed long

length-response_of :
    (boxes : Boxes) (c : Construction) (key server_nonce packet : List ℕ) (padded : ℕ)
    → BoxesLaws boxes
    → length server_nonce ≡ 24
    → length packet < padded
    → length (response_of boxes c key server_nonce packet padded) ≡ 48 + padded
unfolding response_of
length-response_of boxes c key server_nonce packet padded laws long fits = omega (
  arith,
  length-append server_nonce ((response_box boxes c).seal server_nonce key (pad packet padded)),
  (response_box-Laws boxes c laws).length-seal server_nonce key (pad packet padded),
  length-pad packet padded fits,
)

module _ (boxes : Boxes) (kdf : Kdf) (target : Target) (key nonce : List ℕ)
    (query_epoch current now : ℕ) where
  abbrev strip : List ℕ → Resumption → Resumption × Outcome ControlError (List ℕ)
  strip = pq_strip_control kdf target.magic_query key nonce query_epoch current now

  -- What the box opened to holds the packet.
  abbrev Holds : Construction → Option (List ℕ) → List ℕ → Type 0
  Holds c o packet =
      (plaintext : List ℕ) × (o ≡ some plaintext)
      × ((body : List ℕ) × Body c plaintext body × (unpad body ≡ ok packet) × (17 ≤ length packet))

  opened-Holds :
      (c : Construction) (o : Option (List ℕ)) (s : Resumption)
      → Returns (Holds c o) ((opened strip c o s).1)
  unfolding opened is_pq
  opened-Holds c none s = tt
  opened-Holds xwing_pq (some p) s =
      Returns-map _ (Holds xwing_pq (some p)) _ (λ packet h. (p, refl, h))
        (after_control-only kdf target.magic_query key nonce query_epoch current now p s)
  opened-Holds undefined (some p) s =
      Returns-map _ (Holds undefined (some p)) _ (λ packet h. (p, refl, (p, refl, h.0, h.1)))
        (unpad_response-only p)
  opened-Holds xsalsa20_poly1305 (some p) s =
      Returns-map _ (Holds xsalsa20_poly1305 (some p)) _
        (λ packet h. (p, refl, (p, refl, h.0, h.1))) (unpad_response-only p)
  opened-Holds xchacha20_poly1305 (some p) s =
      Returns-map _ (Holds xchacha20_poly1305 (some p)) _
        (λ packet h. (p, refl, (p, refl, h.0, h.1))) (unpad_response-only p)

  open_parts-Accepts :
      (encrypted : List ℕ) (parts : Outcome MessageError (List ℕ × List ℕ))
      → Returns (Parts nonce encrypted) parts
      → (s : Resumption)
      → Returns
          (Accepts boxes target.construction key nonce encrypted)
          ((open_parts boxes kdf target key nonce query_epoch current now parts s).1)
  unfolding open_parts
  open_parts-Accepts encrypted (ok (server_nonce, boxed)) (m, n, e, f) s =
      Returns-map _ (Accepts boxes target.construction key nonce encrypted) _
        (λ packet (p, o, (body, b, u, l)). record {
          magic = m;
          same_nonce = n;
          plaintext = p;
          opens = rw (← e, ← f) o;
          body = body;
          of_body = b;
          unpads = u;
          long = l;
        })
        (opened-Holds target.construction
          ((response_box boxes target.construction).open_box server_nonce key boxed) s)
  open_parts-Accepts encrypted (err e) h s = tt
  open_parts-Accepts encrypted panic h s = h
  open_parts-Accepts encrypted out_of_fuel h s = h

  -- Whatever bytes arrive, no slice that Decrypt or pqStripControl takes of them is out of range, and the
  -- packet that is returned came from a response with the server's magic, the nonce of the query and a
  -- valid box, of 17 bytes at least. The nonce of the query has 12 bytes at least.
  pub decrypt-Accepts :
      (encrypted : List ℕ) (s : Resumption)
      → 12 ≤ length nonce
      → Returns
          (Accepts boxes target.construction key nonce encrypted)
          ((decrypt boxes kdf target key nonce query_epoch current now encrypted s).1)
  unfolding decrypt
  decrypt-Accepts encrypted s enough =
      open_parts-Accepts encrypted (response_parts nonce encrypted)
        (response_parts-Parts nonce encrypted enough) s

  unpad_response-ok :
      (body packet : List ℕ)
      → unpad body ≡ ok packet
      → 17 ≤ length packet
      → unpad_response body ≡ ok packet
  unfolding unpad_response from_unpad
  unpad_response-ok body packet u l = rw (u, le→ltb (length packet) 17 l) refl

  after_control-ok :
      (p control body packet : List ℕ) (s : Resumption)
      → split_control p ≡ ok (control, body)
      → unpad body ≡ ok packet
      → 17 ≤ length packet
      → (after_control (strip p s)).1 ≡ ok packet
  unfolding after_control
  after_control-ok p control body packet s e u l =
      let (t, q) =
        stripped-ok kdf target.magic_query key nonce query_epoch current now p control body s e in
      ap (λ (r : Resumption × Outcome ControlError (List ℕ)). (after_control r).1) q
      ∙ unpad_response-ok body packet u l

  opened-ok :
      (c : Construction) (p body packet : List ℕ) (s : Resumption)
      → Body c p body
      → unpad body ≡ ok packet
      → 17 ≤ length packet
      → (opened strip c (some p) s).1 ≡ ok packet
  unfolding opened is_pq
  opened-ok undefined p body packet s b u l = unpad_response-ok p packet (ap unpad b ∙ u) l
  opened-ok xsalsa20_poly1305 p body packet s b u l = unpad_response-ok p packet (ap unpad b ∙ u) l
  opened-ok xchacha20_poly1305 p body packet s b u l = unpad_response-ok p packet (ap unpad b ∙ u) l
  opened-ok xwing_pq p body packet s (control, b) u l =
      after_control-ok p control body packet s b u l

  accepted :
      (encrypted packet : List ℕ) (s : Resumption)
      → 12 ≤ length nonce
      → 65 ≤ length encrypted
      → length encrypted ≤ 4144
      → Accepts boxes target.construction key nonce encrypted packet
      → (decrypt boxes kdf target key nonce query_epoch current now encrypted s).1 ≡ ok packet
  unfolding decrypt open_parts
  accepted encrypted packet s enough low high a =
      rw
        (
          response_parts-ok nonce encrypted enough low high a.magic a.same_nonce,
          open_parts,
          a.opens,
        )
        (opened-ok target.construction a.plaintext a.body packet s a.of_body a.unpads a.long)

  -- The packet that a server answers with comes back: from the magic, a nonce that begins with that of
  -- the query, and the box of the padded packet, Decrypt gives the packet, if the construction is a
  -- classic one, the packet has 17 bytes at least and the response 4144 bytes at most.
  pub decrypt-response :
      (server_nonce packet : List ℕ) (padded : ℕ) (s : Resumption)
      → BoxesLaws boxes
      → is_pq target.construction ≡ false
      → length nonce ≡ 12
      → length server_nonce ≡ 24
      → take 12 server_nonce ≡ nonce
      → 17 ≤ length packet
      → length packet < padded
      → padded ≤ 4096
      → (decrypt boxes kdf target key nonce query_epoch current now
          (response_of boxes target.construction key server_nonce packet padded)
          s).1
        ≡ ok packet
  decrypt-response server_nonce packet padded s laws classic short long same low fits high =
      let size =
        length-response_of boxes target.construction key server_nonce packet padded laws long
          fits in
      accepted (response_of boxes target.construction key server_nonce packet padded) packet s
        (omega (arith, short)) (omega (arith, size)) (omega (arith, size))
        (response_of-Accepts boxes target.construction key nonce server_nonce packet padded laws
          classic short long same low)
