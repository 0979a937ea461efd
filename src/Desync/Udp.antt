-- ===== src/Desync/Udp.antt =====
-- pkg/spoofdpi/internal/desync/udp.go: fakes in front of a UDP flow. A fake that cannot be sent is
-- skipped, where the TLS desyncer gives up.
use proksitool.Base.{
  ℕ, zero, suc, ◌+◌, ◌*◌, ◌≤◌, ◌≡◌, ◌≢◌, refl, ap, Bool, true, false, not, ◌&&◌, ◌||◌, List, [],
  ◌∷◌, ◌++◌, arith, ◌==◌, if◌then◌else◌, length, none, some, Option-cases, inl, inr, sym, ◌∙◌,
  append-nil, append_assoc, if_cases,
}
use proksitool.Desync.Send.{World, Net, TlsDesyncer}

pub record UdpOptions : Type 0 where
  pub fake_count : ℕ
  pub fake_packet : List ℕ

-- The loop of `Desync`, for `count` more rounds.
unfoldable pub fake_loop : ℕ → Net → ℕ → List ℕ → World → ℕ → World × ℕ
fake_loop zero net ttl p w total = (w, total)
fake_loop (suc count) net ttl p w total = elim (net.craft w ttl p) [
  | none ↦ fake_loop count net ttl p w total
  | some n ↦
      fake_loop count net ttl p (record w { crafted = w.crafted ++ ((ttl, p) ∷ []) }) (total + n)
]

unfoldable pub desync : Net → TlsDesyncer → UdpOptions → World → World × ℕ
unfolding fake_loop
desync net d o w =
    if o.fake_count == 0 || (not d.has_sniffer || not d.has_writer)
    then (w, 0)
    else fake_loop o.fake_count net d.optimal_ttl o.fake_packet w 0

-- `WriteCraftedPacket` counts the payload that it was given.
abbrev pub CraftsWell : Net → Type 0
CraftsWell net =
    (w : World) (ttl : ℕ) (p : List ℕ) (n : ℕ) → net.craft w ttl p ≡ some n → n ≡ length p

-- `sent` copies of a fake, in front of nothing else.
abbrev pub copies : ℕ → ℕ × List ℕ → List (ℕ × List ℕ)
copies zero x = []
copies (suc n) x = x ∷ copies n x

-- A run of the loop: the flow is as it was, and the total counts the fakes that were sent.
pub record Spent (net : Net) (ttl : ℕ) (p : List ℕ) (count total : ℕ) (w : World) (total' : ℕ)
    (w' : World) : Type 0 where
  pub wire : w'.wire ≡ w.wire
  pub same_ttl : w'.ttl ≡ w.ttl
  pub sent : ℕ
  pub sent_le : sent ≤ count
  pub all_sent : ((v : World) → net.craft v ttl p ≢ none) → sent ≡ count
  pub crafted : w'.crafted ≡ w.crafted ++ copies sent (ttl, p)
  pub counted : total' ≡ total + sent * length p

module _ (net : Net) (well : CraftsWell net) (ttl : ℕ) (p : List ℕ) where
  fake_loop-Spent :
      (count : ℕ) (w : World) (total : ℕ)
      → Spent net ttl p count total w
          (fake_loop count net ttl p w total).1
          (fake_loop count net ttl p w total).0
  unfolding fake_loop
  fake_loop-Spent zero w total = record {
    wire = refl;
    same_ttl = refl;
    sent = 0;
    sent_le = omega arith;
    all_sent = λ _. refl;
    crafted = sym (append-nil w.crafted);
    counted = omega arith;
  }
  fake_loop-Spent (suc count) w total = elim (Option-cases (net.craft w ttl p)) [
    | inl failed ↦
        let rest = fake_loop-Spent count w total in
        rw (failed, fake_loop)
          (record {
            wire = rest.wire;
            same_ttl = rest.same_ttl;
            sent = rest.sent;
            sent_le = omega arith;
            all_sent = λ h. absurd (h w failed);
            crafted = rest.crafted;
            counted = rest.counted;
          })
    | inr (n, sent) ↦
        let w' : World = record w { crafted = w.crafted ++ ((ttl, p) ∷ []) } in
        let rest = fake_loop-Spent count w' (total + n) in
        rw (sent, fake_loop)
          (record {
            wire = rest.wire;
            same_ttl = rest.same_ttl;
            sent = suc rest.sent;
            sent_le = omega arith;
            all_sent = λ h. ap suc (rest.all_sent h);
            crafted =
                rest.crafted ∙ append_assoc w.crafted ((ttl, p) ∷ []) (copies rest.sent (ttl, p));
            counted = omega (arith, rest.counted, well w ttl p n sent);
          })
  ]

  abbrev Guarded : ℕ → World → World × ℕ → Type 0
  Guarded count w r = Spent net ttl p count 0 w r.1 r.0

  no-Spent : (w : World) → Guarded 0 w (w, 0)
  no-Spent w = record {
    wire = refl;
    same_ttl = refl;
    sent = 0;
    sent_le = omega arith;
    all_sent = λ _. refl;
    crafted = sym (append-nil w.crafted);
    counted = omega arith;
  }

  -- The guard of `Desync`, over the presence of its two helpers.
  guard-Spent :
      (a b : Bool) (count : ℕ) (w : World)
      → Guarded
          (if a && b then count else 0)
          w
          (if count == 0 || (not a || not b) then (w, 0) else fake_loop count net ttl p w 0)
  guard-Spent true true count w =
      if_cases (Guarded count w) (count == 0 || false) _ _
        (λ e. let e : count ≡ 0 = ground arith in rw e (no-Spent w))
        (λ _. fake_loop-Spent count w 0)
  guard-Spent true false count w =
      if_cases (Guarded 0 w) (count == 0 || true) _ _ (λ _. no-Spent w) (λ e. absurd (ground arith))
  guard-Spent false b count w =
      if_cases (Guarded 0 w) (count == 0 || true) _ _ (λ _. no-Spent w) (λ e. absurd (ground arith))

-- Desync of a UDP flow leaves the flow itself as it was, sends at most `fake_count` copies of the
-- fake packet under the TTL that the sniffer gives (all of them if crafting never fails), and returns the bytes of those that were sent;
-- without fakes to send, a sniffer or a writer it sends nothing.
pub desync-Spent :
    (net : Net) (d : TlsDesyncer) (o : UdpOptions) (w : World)
    → CraftsWell net
    → Spent net d.optimal_ttl o.fake_packet
        (if d.has_sniffer && d.has_writer then o.fake_count else 0)
        0
        w
        (desync net d o w).1
        (desync net d o w).0
unfolding desync
desync-Spent net d o w well =
    guard-Spent net well d.optimal_ttl o.fake_packet d.has_sniffer d.has_writer o.fake_count w
