-- ===== src/Desync/Send/Ttl.antt =====
-- pkg/spoofdpi/internal/desync/tls.go, sendSegments: the TTL under which each segment leaves.
use proksitool.Base.{
  ℕ, ◌≡◌, refl, sym, ◌∙◌, ap, true, false, List, [], ◌∷◌, ◌++◌, map, arith, if◌then◌else◌, length,
  append-nil, append_assoc, take_long, Bool-cases, inl, inr, false≢true,
}
use proksitool.Desync.Split.{Segment}
use proksitool.Desync.Send.{
  World, Net, Sending, default_ttl, set_ttl_wrap, set_if_lazy, write_chunk, send_loop,
  send_segments,
}
use proksitool.Desync.Send.Wire.{WritesWell}

-- A lazy segment leaves under TTL 1, another one under the default.
abbrev pub stamp : Segment → ℕ × List ℕ
stamp s = (if s.lazy then 1 else default_ttl, s.packet)

module _ (net : Net) (well : WritesWell net)
    (settable : (w : World) (ttl : ℕ) → net.set_ttl w ttl ≡ true) where
  -- The state in which each round begins: the TTL is the default one.
  record Ready (s : Sending) : Type 0 where
    at_default : s.world.ttl ≡ default_ttl
    no_error : s.ttl_errored ≡ false

  set_if_lazy-lowers :
      (s : Sending) (chunk : Segment)
      → Ready s
      → ((set_if_lazy net 1 chunk s).world.ttl ≡ (stamp chunk).0)
        × ((set_if_lazy net 1 chunk s).world.wire ≡ s.world.wire)
        × ((set_if_lazy net 1 chunk s).ttl_errored ≡ false)
  unfolding set_if_lazy set_ttl_wrap
  set_if_lazy-lowers s chunk r = ground (arith, settable s.world 1)

  set_if_lazy-Ready :
      (s : Sending) (chunk : Segment)
      → s.world.ttl ≡ (stamp chunk).0
      → s.ttl_errored ≡ false
      → Ready (set_if_lazy net default_ttl chunk s)
        × ((set_if_lazy net default_ttl chunk s).world.wire ≡ s.world.wire)
  unfolding set_if_lazy set_ttl_wrap
  set_if_lazy-Ready s chunk t e = ground (arith, settable s.world default_ttl)

  write_chunk-all :
      (s : Sending) (chunk : Segment) (n : ℕ)
      → n ≡ length chunk.packet
      → ((write_chunk chunk n s).world.wire ≡ s.world.wire ++ ((s.world.ttl, chunk.packet) ∷ []))
        × ((write_chunk chunk n s).world.ttl ≡ s.world.ttl)
        × ((write_chunk chunk n s).ttl_errored ≡ s.ttl_errored)
  unfolding write_chunk
  write_chunk-all s chunk n e = (rw (take_long chunk.packet n (omega arith)), refl, refl)

  send_loop-stamp :
      (s : Sending) (segments : List Segment)
      → Ready s
      → (send_loop net s segments).1 ≡ false
      → Ready (send_loop net s segments).0
        × ((send_loop net s segments).0.world.wire ≡ s.world.wire ++ map stamp segments)
  unfolding send_loop
  send_loop-stamp s [] r e = (r, sym (append-nil s.world.wire))
  send_loop-stamp s (chunk ∷ segments) r e =
      let low = set_if_lazy net 1 chunk s in
      let (ttl, wire, fine) = set_if_lazy-lowers s chunk r in
      let n = (net.write low.world chunk.packet).0 in
      let sent = write_chunk chunk n low in
      let after = set_if_lazy net default_ttl chunk sent in
      elim (Bool-cases (net.write low.world chunk.packet).1) [
        | inl failed ↦ absurd (false≢true (sym (rw (failed, send_loop) at e)))
        | inr done ↦
            let (wire', ttl', fine') =
              write_chunk-all low chunk n (well.all_or_error low.world chunk.packet done) in
            let (ready, wire'') = set_if_lazy-Ready sent chunk (ttl' ∙ ttl) (fine' ∙ fine) in
            let (ready', rest) = send_loop-stamp after segments ready (rw (done, send_loop) at e) in
            let grown : after.world.wire ≡ s.world.wire ++ (stamp chunk ∷ []) =
              wire''
              ∙ wire'
              ∙ ap (λ l. l ++ ((low.world.ttl, chunk.packet) ∷ [])) wire
              ∙ ap (λ t. s.world.wire ++ ((t, chunk.packet) ∷ [])) ttl in
            rw (done, send_loop)
              (
                ready',
                rest
                    ∙ ap (λ l. l ++ map stamp segments) grown
                    ∙ append_assoc s.world.wire (stamp chunk ∷ []) (map stamp segments),
              )
      ]

  -- On a connection at the default TTL where setting the TTL never fails, when sendSegments ends
  -- without an error each lazy segment has left under TTL 1, every other one under TTL 64, in
  -- order and nothing else, and the TTL is 64 again.
  pub send_segments-stamp :
      (w : World) (segments : List Segment)
      → w.ttl ≡ default_ttl
      → (send_segments net w segments).1 ≡ false
      → ((send_segments net w segments).0.world.ttl ≡ default_ttl)
        × ((send_segments net w segments).0.world.wire ≡ w.wire ++ map stamp segments)
  unfolding send_segments
  send_segments-stamp w segments t e =
      let start : Sending = record { world = w; ttl_errored = false; total = 0 } in
      let (ready, wire) =
        send_loop-stamp start segments (record { at_default = t; no_error = refl }) e in
      (ready.at_default, wire)
