-- ===== src/Desync/Send.antt =====
-- pkg/spoofdpi/internal/desync/tls.go: sending segments with a TTL that lets some of them die on the
-- way, and sending fakes first. The socket and the packet writer are a record of functions; a
-- world holds what they have been given.
pub mod Wire
pub mod Ttl
pub mod Fakes
use proksitool.Base.{
  ℕ, zero, suc, ◌+◌, Bool, true, false, not, ◌&&◌, List, [], ◌∷◌, ◌++◌, ltb, if◌then◌else◌, length,
  take, Outcome, ok, err, ◌>>=◌, Option, none, some,
}
use proksitool.Desync.Split.{Segment, segment, Chance, SplitOptions, SplitError, split}

-- The TTL of the connection, what was written to it under which TTL, and the crafted packets.
pub record World : Type 0 where
  pub ttl : ℕ
  pub wire : List (ℕ × List ℕ)
  pub crafted : List (ℕ × List ℕ)

-- `conn.Write` answers with a count and whether it failed, `netutil.SetTTL` with whether it
-- succeeded, and `WriteCraftedPacket` with a count or an error.
pub record Net : Type 0 where
  pub write : World → List ℕ → ℕ × Bool
  pub set_ttl : World → ℕ → Bool
  pub craft : World → ℕ → List ℕ → Option ℕ

abbrev pub default_ttl : ℕ
default_ttl = 64

-- The variables of `sendSegments`.
pub record Sending : Type 0 where
  pub world : World
  pub ttl_errored : Bool
  pub total : ℕ

unfoldable pub set_ttl_wrap : Net → ℕ → Sending → Sending
set_ttl_wrap net ttl s =
    if net.set_ttl s.world ttl
    then record s { world = record s.world { ttl = ttl } }
    else record s { ttl_errored = true }

unfoldable pub set_if_lazy : Net → ℕ → Segment → Sending → Sending
unfolding set_ttl_wrap
set_if_lazy net ttl chunk s = if not s.ttl_errored && chunk.lazy then set_ttl_wrap net ttl s else s

-- The bytes that the connection took, under the TTL of the moment.
unfoldable pub write_chunk : Segment → ℕ → Sending → Sending
write_chunk chunk n s = record s {
  world = record s.world { wire = s.world.wire ++ ((s.world.ttl, take n chunk.packet) ∷ []) };
  total = s.total + n;
}

-- The loop of `sendSegments`; the flag tells whether a write failed.
unfoldable pub send_loop : Net → Sending → List Segment → Sending × Bool
send_loop net s [] = (s, false)
send_loop net s (chunk ∷ segments) =
    let low = set_if_lazy net 1 chunk s in
    let (n, failed) = net.write low.world chunk.packet in
    let sent = write_chunk chunk n low in
    elim failed [
      | true ↦ (sent, true)
      | false ↦ send_loop net (set_if_lazy net default_ttl chunk sent) segments
    ]

unfoldable pub send_segments : Net → World → List Segment → Sending × Bool
unfolding send_loop
send_segments net w segments =
    send_loop net (record { world = w; ttl_errored = false; total = 0 }) segments

-- The inner loop of `sendFakePackets`.
unfoldable pub fake_round : Net → ℕ → World → ℕ → List Segment → World × ℕ × Bool
fake_round net ttl w total [] = (w, total, false)
fake_round net ttl w total (v ∷ segments) = elim (net.craft w ttl v.packet) [
  | none ↦ (w, total, true)
  | some n ↦
      fake_round net ttl (record w { crafted = w.crafted ++ ((ttl, v.packet) ∷ []) }) (total + n)
        segments
]

-- The outer loop, for `count` more rounds.
unfoldable pub fake_rounds : ℕ → Net → ℕ → World → ℕ → List Segment → World × ℕ × Bool
unfolding fake_round
fake_rounds zero net ttl w total segments = (w, total, false)
fake_rounds (suc count) net ttl w total segments =
    let (w', total', failed) = fake_round net ttl w total segments in
    elim failed [ true ↦ (w', total', true) | false ↦ fake_rounds count net ttl w' total' segments ]

-- `HTTPSOptions`
pub record HttpsOptions : Type 0 where
  pub split : SplitOptions
  pub skip : Bool
  pub fake_count : ℕ
  pub fake_packet : List ℕ

-- `TLSDesyncer`: which of its two helpers are there, and what `GetOptimalTTL` answers.
pub record TlsDesyncer : Type 0 where
  pub has_writer : Bool
  pub has_sniffer : Bool
  pub optimal_ttl : ℕ

unfoldable pub send_fake_packets :
    Net → Chance → ℕ → HttpsOptions → World → Outcome SplitError (World × ℕ × Bool)
unfolding fake_rounds split
send_fake_packets net c ttl o w = do
  segments ← split c o.fake_packet o.split
  ok (fake_rounds o.fake_count net ttl w 0 segments)

-- The part of `Desync` before the message itself; an error of the fakes is only logged.
unfoldable pub send_fakes :
    Net → Chance → TlsDesyncer → HttpsOptions → World → Outcome SplitError World
unfolding send_fake_packets
send_fakes net c d o w =
    if ltb 0 o.fake_count && (d.has_sniffer && d.has_writer)
    then (do (w', _, _) ← send_fake_packets net c d.optimal_ttl o w; ok w')
    else ok w

-- `Desync`, with the chances taken for the fakes and for the message.
unfoldable pub desync :
    Net
    → Chance
    → Chance
    → TlsDesyncer
    → List ℕ
    → HttpsOptions
    → World
    → Outcome SplitError (Sending × Bool)
unfolding send_segments send_fakes split
desync net c c' d raw o w =
    if o.skip then ok (send_segments net w (segment raw false ∷ [])) else (do
      w' ← send_fakes net c d o w
      segments ← split c' raw o.split
      ok (send_segments net w' segments))
