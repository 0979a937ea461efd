-- ===== src/Desync/Send/Wire.antt =====
-- pkg/spoofdpi/internal/desync/tls.go, sendSegments and Desync: what reaches the connection, and
-- under which TTL.
use proksitool.Base.{
  ℕ, ◌+◌, ◌≤◌, ◌≡◌, refl, sym, ◌∙◌, ap, Bool, false, List, [], ◌∷◌, ◌++◌, arith, length, take,
  length-append, append-nil, append_assoc, take_long, Bool-cases, inl, inr, false≢true, length-take,
}
use proksitool.Desync.Split.{Segment}
use proksitool.Desync.Split.Cuts.{payload}
use proksitool.Desync.Send.{
  World, Net, Sending, default_ttl, set_ttl_wrap, set_if_lazy, write_chunk, send_loop,
  send_segments,
}

abbrev pub bytes : List (ℕ × List ℕ) → List ℕ
bytes [] = []
bytes ((ttl, p) ∷ sent) = p ++ bytes sent

-- The contract of `io.Writer`: a write takes no more than it is given, and all of it unless it fails.
pub record WritesWell (net : Net) : Type 0 where
  pub count_le : (w : World) (p : List ℕ) → (net.write w p).0 ≤ length p
  pub all_or_error :
      (w : World) (p : List ℕ) → (net.write w p).1 ≡ false → (net.write w p).0 ≡ length p

bytes-append : (xs ys : List (ℕ × List ℕ)) → bytes (xs ++ ys) ≡ bytes xs ++ bytes ys
bytes-append [] ys = refl
bytes-append ((ttl, p) ∷ xs) ys =
    ap (λ l. p ++ l) (bytes-append xs ys) ∙ sym (append_assoc p (bytes xs) (bytes ys))

set_if_lazy-wire :
    (net : Net) (ttl : ℕ) (chunk : Segment) (s : Sending)
    → ((set_if_lazy net ttl chunk s).world.wire ≡ s.world.wire)
      × ((set_if_lazy net ttl chunk s).total ≡ s.total)
unfolding set_if_lazy set_ttl_wrap
set_if_lazy-wire net ttl chunk s = ground arith

-- What a run from `s` to `s'` has sent: the total counts the bytes on the wire, and without a failed
-- write these are all bytes of the segments.
pub record Sent (s : Sending) (segments : List Segment) (s' : Sending) (failed : Bool)
    : Type 0 where
  pub counted : s'.total + length (bytes s.world.wire) ≡ s.total + length (bytes s'.world.wire)
  pub all_sent : failed ≡ false → bytes s'.world.wire ≡ bytes s.world.wire ++ payload segments

write_chunk-bytes :
    (chunk : Segment) (n : ℕ) (s : Sending)
    → bytes (write_chunk chunk n s).world.wire ≡ bytes s.world.wire ++ take n chunk.packet
unfolding write_chunk
write_chunk-bytes chunk n s =
    bytes-append s.world.wire _
    ∙ ap (λ l. bytes s.world.wire ++ l) (append-nil (take n chunk.packet))

write_chunk-total :
    (chunk : Segment) (n : ℕ) (s : Sending) → (write_chunk chunk n s).total ≡ s.total + n
unfolding write_chunk
write_chunk-total chunk n s = refl

payload-append : (xs ys : List Segment) → payload (xs ++ ys) ≡ payload xs ++ payload ys
payload-append [] ys = refl
payload-append (x ∷ xs) ys =
    ap (λ l. x.packet ++ l) (payload-append xs ys)
    ∙ sym (append_assoc x.packet (payload xs) (payload ys))

Sent-set_if_lazy :
    (net : Net) (ttl : ℕ) (chunk : Segment) (xs : List Segment) (s t : Sending) {b : Bool}
    → Sent s xs t b
    → Sent s xs (set_if_lazy net ttl chunk t) b
Sent-set_if_lazy net ttl chunk xs s t p =
    let (wire, total) = set_if_lazy-wire net ttl chunk t in
    record { counted = rw (wire, total) p.counted; all_sent = λ e. rw wire (p.all_sent e) }

Sent-trans :
    (xs ys : List Segment) (s t u : Sending) (b : Bool)
    → Sent s xs t false
    → Sent t ys u b
    → Sent s (xs ++ ys) u b
Sent-trans xs ys s t u b p q = record {
  counted = omega (arith, p.counted, q.counted);
  all_sent = λ e.
      q.all_sent e
      ∙ ap (λ l. l ++ payload ys) (p.all_sent refl)
      ∙ append_assoc (bytes s.world.wire) (payload xs) (payload ys)
      ∙ ap (λ l. bytes s.world.wire ++ l) (sym (payload-append xs ys));
}

module _ (net : Net) (well : WritesWell net) where
  -- One chunk: what the connection takes is counted, and is the chunk if the write succeeds.
  step-Sent :
      (s low : Sending) (chunk : Segment)
      → low.world.wire ≡ s.world.wire
      → low.total ≡ s.total
      → Sent s
          (chunk ∷ [])
          (write_chunk chunk (net.write low.world chunk.packet).0 low)
          (net.write low.world chunk.packet).1
  step-Sent s low chunk wire total =
      let n = (net.write low.world chunk.packet).0 in
      let grown : bytes (write_chunk chunk n low).world.wire
          ≡ bytes s.world.wire ++ take n chunk.packet =
        write_chunk-bytes chunk n low ∙ ap (λ l. bytes l ++ take n chunk.packet) wire in
      record {
        counted = omega (
          arith,
          ap length grown,
          length-append (bytes s.world.wire) (take n chunk.packet),
          length-take n chunk.packet,
          well.count_le low.world chunk.packet,
          write_chunk-total chunk n low,
        );
        all_sent = λ e.
            grown
            ∙ ap (λ l. bytes s.world.wire ++ l)
                (take_long chunk.packet n
                    (omega (arith, well.all_or_error low.world chunk.packet e))
                  ∙ sym (append-nil chunk.packet));
      }

  send_loop-Sent :
      (s : Sending) (segments : List Segment)
      → Sent s segments (send_loop net s segments).0 (send_loop net s segments).1
  unfolding send_loop
  send_loop-Sent s [] = record {
    counted = refl;
    all_sent = λ _. sym (append-nil (bytes s.world.wire));
  }
  send_loop-Sent s (chunk ∷ segments) =
      let low = set_if_lazy net 1 chunk s in
      let (wire, total) = set_if_lazy-wire net 1 chunk s in
      let n = (net.write low.world chunk.packet).0 in
      let sent = write_chunk chunk n low in
      let after = set_if_lazy net default_ttl chunk sent in
      let one = step-Sent s low chunk wire total in
      elim (Bool-cases (net.write low.world chunk.packet).1) [
        | inl failed ↦
            rw (failed, send_loop)
              (record { counted = one.counted; all_sent = λ e. absurd (false≢true (sym e)) })
        | inr done ↦
            rw (done, send_loop)
              (Sent-trans (chunk ∷ []) segments s after (send_loop net after segments).0
                (send_loop net after segments).1
                (Sent-set_if_lazy net default_ttl chunk (chunk ∷ []) s sent (rw done at one))
                (send_loop-Sent after segments))
      ]

  -- sendSegments counts the bytes that the connection took, and if no write fails these are the
  -- packets of the segments in order, if the connection's writes keep the contract of `io.Writer`.
  pub send_segments-Sent :
      (w : World) (segments : List Segment)
      → Sent
          (record { world = w; ttl_errored = false; total = 0 })
          segments
          (send_segments net w segments).0
          (send_segments net w segments).1
  unfolding send_segments
  send_segments-Sent w segments =
      send_loop-Sent (record { world = w; ttl_errored = false; total = 0 }) segments
