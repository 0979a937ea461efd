-- ===== src/Desync/Send/Fakes.antt =====
-- pkg/spoofdpi/internal/desync/tls.go, sendFakePackets and Desync: the fakes go beside the
-- connection, and the message goes whole.
use proksitool.Base.{
  ℕ, zero, suc, ◌+◌, ◌≡◌, refl, sym, ◌∙◌, ap, Bool, true, false, ◌&&◌, List, [], ◌∷◌, ◌++◌, map,
  arith, ltb, ltb→le, if_cases, length, append-nil, append_assoc, some, Option-cases, Bool-cases,
  inl, inr, Outcome, ok, All,
}
use proksitool.Desync.Split.{Segment, segment, Chance, SplitError}
use proksitool.Desync.Split.Cuts.{Carries}
use proksitool.Desync.Split.Reassembly.{Sorts, NoiseFits, split-Carries}
use proksitool.Desync.Send.{
  World, Net, Sending, HttpsOptions, TlsDesyncer, fake_round, fake_rounds, send_fake_packets,
  send_fakes, send_segments, desync,
}
use proksitool.Desync.Send.Wire.{WritesWell, bytes, send_segments-Sent}

-- The connection is as it was.
abbrev Untouched : World → World → Type 0
Untouched w w' = (w'.wire ≡ w.wire) × (w'.ttl ≡ w.ttl)

-- The fakes of one round, and those of `count` rounds.
abbrev pub fakes : ℕ → List Segment → List (ℕ × List ℕ)
fakes ttl = map (λ v. (ttl, v.packet))

abbrev pub all_fakes : ℕ → ℕ → List Segment → List (ℕ × List ℕ)
all_fakes ttl zero segments = []
all_fakes ttl (suc count) segments = fakes ttl segments ++ all_fakes ttl count segments

module _ (net : Net) (ttl : ℕ) where
  fake_round-Untouched :
      (w : World) (total : ℕ) (segments : List Segment)
      → Untouched w (fake_round net ttl w total segments).0
  unfolding fake_round
  fake_round-Untouched w total [] = (refl, refl)
  fake_round-Untouched w total (v ∷ segments) = elim (Option-cases (net.craft w ttl v.packet)) [
    | inl failed ↦ rw (failed, fake_round) (refl, refl)
    | inr (n, sent) ↦
        rw (sent, fake_round)
          (fake_round-Untouched (record w { crafted = w.crafted ++ ((ttl, v.packet) ∷ []) })
            (total + n) segments)
  ]

  fake_rounds-Untouched :
      (count : ℕ) (w : World) (total : ℕ) (segments : List Segment)
      → Untouched w (fake_rounds count net ttl w total segments).0
  unfolding fake_rounds
  fake_rounds-Untouched zero w total segments = (refl, refl)
  fake_rounds-Untouched (suc count) w total segments =
      let (w', total', failed) = fake_round net ttl w total segments in
      let (wire, same_ttl) = fake_round-Untouched w total segments in
      elim (Bool-cases failed) [
        | inl e ↦ rw (e, fake_rounds) (wire, same_ttl)
        | inr e ↦
            let (wire', same_ttl') = fake_rounds-Untouched count w' total' segments in
            rw (e, fake_rounds) (wire' ∙ wire, same_ttl' ∙ same_ttl)
      ]

  module _ (crafts : (w : World) (p : List ℕ) → (n : ℕ) × (net.craft w ttl p ≡ some n)) where
    fake_round-crafted :
        (w : World) (total : ℕ) (segments : List Segment)
        → ((fake_round net ttl w total segments).2 ≡ false)
          × ((fake_round net ttl w total segments).0.crafted ≡ w.crafted ++ fakes ttl segments)
    unfolding fake_round
    fake_round-crafted w total [] = (refl, sym (append-nil w.crafted))
    fake_round-crafted w total (v ∷ segments) =
        let (n, sent) = crafts w v.packet in
        let (fine, more) =
          fake_round-crafted (record w { crafted = w.crafted ++ ((ttl, v.packet) ∷ []) })
            (total + n) segments in
        rw (sent, fake_round)
          (fine, more ∙ append_assoc w.crafted ((ttl, v.packet) ∷ []) (fakes ttl segments))

    fake_rounds-crafted :
        (count : ℕ) (w : World) (total : ℕ) (segments : List Segment)
        → (fake_rounds count net ttl w total segments).0.crafted
          ≡ w.crafted ++ all_fakes ttl count segments
    unfolding fake_rounds
    fake_rounds-crafted zero w total segments = sym (append-nil w.crafted)
    fake_rounds-crafted (suc count) w total segments =
        let (fine, crafted) = fake_round-crafted w total segments in
        let (w', total', _) = fake_round net ttl w total segments in
        rw (fine, fake_rounds)
          (fake_rounds-crafted count w' total' segments
            ∙ ap (λ l. l ++ all_fakes ttl count segments) crafted
            ∙ append_assoc w.crafted (fakes ttl segments) (all_fakes ttl count segments))

module _ (net : Net) (c : Chance) (sorts : Sorts c.sort) (d : TlsDesyncer) (o : HttpsOptions)
    (small : All NoiseFits o.split.plans) where
  send_fakes-Untouched :
      (w : World) → (w' : World) × (send_fakes net c d o w ≡ ok w') × Untouched w w'
  unfolding send_fakes send_fake_packets
  send_fakes-Untouched w =
      let (segments, e, _) = split-Carries c sorts o.fake_packet o.split small in
      elim (Bool-cases (ltb 0 o.fake_count && (d.has_sniffer && d.has_writer))) [
        | inl fake ↦ (
          (fake_rounds o.fake_count net d.optimal_ttl w 0 segments).0,
          rw (fake, e),
          fake_rounds-Untouched net d.optimal_ttl o.fake_count w 0 segments,
        )
        | inr no_fake ↦ (w, rw no_fake, (refl, refl))
      ]

  -- With a sniffer, a writer and crafting that never fails, the fakes are the cut fake packet as
  -- often as the options say, each under the TTL that the sniffer gives, and the connection is as
  -- it was.
  pub send_fakes-crafted :
      (w : World)
      → ((w' : World) (p : List ℕ) → (n : ℕ) × (net.craft w' d.optimal_ttl p ≡ some n))
      → d.has_sniffer ≡ true
      → d.has_writer ≡ true
      → (w' : World) × (segments : List Segment) × (send_fakes net c d o w ≡ ok w')
        × Carries o.fake_packet segments
        × (w'.crafted ≡ w.crafted ++ all_fakes d.optimal_ttl o.fake_count segments)
        × (w'.wire ≡ w.wire)
        × (w'.ttl ≡ w.ttl)
  unfolding send_fakes send_fake_packets
  send_fakes-crafted w crafts sniffer writer =
      let (segments, e, carries) = split-Carries c sorts o.fake_packet o.split small in
      let (wire, ttl) = fake_rounds-Untouched net d.optimal_ttl o.fake_count w 0 segments in
      elim (Bool-cases (ltb 0 o.fake_count)) [
        | inl some_fakes ↦ (
          (fake_rounds o.fake_count net d.optimal_ttl w 0 segments).0,
          segments,
          rw (some_fakes, sniffer, writer, e),
          carries,
          fake_rounds-crafted net d.optimal_ttl crafts o.fake_count w 0 segments,
          wire,
          ttl,
        )
        | inr no_fakes ↦
            let e : o.fake_count ≡ 0 = omega (arith, ltb→le 0 o.fake_count no_fakes) in
            (w, segments, rw no_fakes, carries, rw e (sym (append-nil w.crafted)), refl, refl)
      ]

-- An answer of `Desync` on a message.
abbrev pub Delivers : World → List ℕ → Outcome SplitError (Sending × Bool) → Type 0
Delivers w raw r =
    (s : Sending) × (failed : Bool) × (r ≡ ok (s, failed))
    × (s.total + length (bytes w.wire) ≡ length (bytes s.world.wire))
    × (failed ≡ false → bytes s.world.wire ≡ bytes w.wire ++ raw)

module _ (net : Net) (well : WritesWell net) (w w' : World) (wire : w'.wire ≡ w.wire) where
  Delivers-send_segments :
      (raw : List ℕ) (segments : List Segment)
      → Carries raw segments
      → Delivers w raw (ok (send_segments net w' segments))
  Delivers-send_segments raw segments carries =
      let sent = send_segments-Sent net well w' segments in
      (
        (send_segments net w' segments).0,
        (send_segments net w' segments).1,
        refl,
        omega (arith, sent.counted, ap (λ l. length (bytes l)) wire),
        λ e. sent.all_sent e ∙ rw (wire, carries),
      )

-- Whatever the fakes and the mode: Desync returns, it counts the bytes that the connection took, and
-- if no write fails these are exactly the message; the noise of every plan must be below 2^62, the
-- sorting function must sort, and the connection's writes keep the contract of `io.Writer`.
pub desync-Delivers :
    (net : Net) (c c' : Chance) (d : TlsDesyncer) (raw : List ℕ) (o : HttpsOptions) (w : World)
    → WritesWell net
    → Sorts c.sort
    → Sorts c'.sort
    → All NoiseFits o.split.plans
    → Delivers w raw (desync net c c' d raw o w)
unfolding desync
desync-Delivers net c c' d raw o w well sorts sorts' small =
    let (w', fakes_sent, (wire, _)) = send_fakes-Untouched net c sorts d o small w in
    let (segments, cut, carries) = split-Carries c' sorts' raw o.split small in
    if_cases (Delivers w raw) o.skip _ _
      (λ _. Delivers-send_segments net well w w refl raw (segment raw false ∷ []) (append-nil raw))
      (λ _. rw (fakes_sent, cut) (Delivers-send_segments net well w w' wire raw segments carries))
