-- ===== src/Tests/Desync.antt =====
-- pkg/spoofdpi/internal/desync over a network on which nothing fails.
use proksitool.Base.{◌≡◌, refl, true, false, List, [], ◌∷◌, length, arith, ok, some}
use proksitool.Base.Int.{pos, negsuc}
use proksitool.Proto.Tls.Hello.{layout}
use proksitool.Desync.Split.{
  Segment, segment, SplitOptions, SplitMode, SegmentFrom, Chance, split, split_chunks, split_mask,
}
use proksitool.Desync.Split.Cuts.{Carries}
use proksitool.Desync.Split.Reassembly.{split-Carries}
use proksitool.Desync.Send.{World, Net, HttpsOptions, TlsDesyncer, send_segments, desync}
use proksitool.Desync.Send.Wire.{WritesWell}
use proksitool.Desync.Send.Ttl.{send_segments-stamp}
use proksitool.Desync.Send.Fakes.{Delivers, desync-Delivers}
use proksitool.Desync.Udp.{UdpOptions}
use proksitool.Tests.Hello.{greeting}
use proksitool.Tests.Sorting.{insertion_sort, insertion_sort-Sorts}

abbrev fair : Net
fair = record {
  write = λ w p. (length p, false);
  set_ttl = λ w ttl. true;
  craft = λ w ttl p. some (length p);
}

fair-WritesWell : WritesWell fair
fair-WritesWell = record { count_le = λ w p. omega arith; all_or_error = λ w p e. refl }

abbrev chance : Chance
chance = record { mask = 0b10101001; rand = λ i n. i; sort = insertion_sort }

abbrev options : SplitMode → SplitOptions
options mode = record {
  mode = mode;
  disorder = true;
  chunk_size = 10;
  plans =
      record { from = SegmentFrom.sni; at = pos 2; lazy = true; noise = pos 0 }
      ∷ record { from = SegmentFrom.head; at = pos 1; lazy = false; noise = negsuc 0 }
      ∷ [];
}

abbrev https : HttpsOptions
https = record {
  split = options SplitMode.custom;
  skip = false;
  fake_count = 2;
  fake_packet = 1 ∷ 2 ∷ 3 ∷ [];
}

abbrev desyncer : TlsDesyncer
desyncer = record { has_writer = true; has_sniffer = true; optimal_ttl = 7 }

abbrev idle : World
idle = record { ttl = 64; wire = []; crafted = [] }

-- The chunks of five bytes, two at a time.
chunks_of_five :
    split_chunks (1 ∷ 2 ∷ 3 ∷ 4 ∷ 5 ∷ []) 2 true
    ≡ ok (segment (1 ∷ 2 ∷ []) true ∷ segment (3 ∷ 4 ∷ []) false ∷ segment (5 ∷ []) true ∷ [])
unfolding split_chunks
chunks_of_five = refl

-- Bits 0 and 3 of the mask send bytes 0 and 3 on their own.
masked_five :
    split_mask (1 ∷ 2 ∷ 3 ∷ 4 ∷ 5 ∷ []) 0b01001 false
    ≡ ok (
        segment (1 ∷ []) false
        ∷ segment (2 ∷ 3 ∷ []) false
        ∷ segment (4 ∷ []) false
        ∷ segment (5 ∷ []) false
        ∷ [])
unfolding split_mask
masked_five = refl

split-Carries_example :
    (segments : List Segment) × (split chance (layout greeting) (options SplitMode.sni)
      ≡ ok segments)
    × Carries (layout greeting) segments
split-Carries_example =
    split-Carries chance insertion_sort-Sorts (layout greeting) (options SplitMode.sni)
      (omega arith, (omega arith, tt))

abbrev two_segments : List Segment
two_segments = segment (1 ∷ []) true ∷ segment (2 ∷ 3 ∷ []) false ∷ []

two_segments-sent : (send_segments fair idle two_segments).1 ≡ false
unfolding send_segments
two_segments-sent = refl

send_segments-stamp_example :
    ((send_segments fair idle two_segments).0.world.ttl ≡ 64)
    × ((send_segments fair idle two_segments).0.world.wire ≡ (1, 1 ∷ []) ∷ (64, 2 ∷ 3 ∷ []) ∷ [])
send_segments-stamp_example =
    send_segments-stamp fair fair-WritesWell (λ w ttl. refl) idle two_segments refl
      two_segments-sent

desync-Delivers_example :
    Delivers idle
      (layout greeting)
      (desync fair chance chance desyncer (layout greeting) https idle)
desync-Delivers_example =
    desync-Delivers fair chance chance desyncer (layout greeting) https idle fair-WritesWell
      insertion_sort-Sorts insertion_sort-Sorts (omega arith, (omega arith, tt))

abbrev udp : UdpOptions
udp = record { fake_count = 3; fake_packet = 8 ∷ 9 ∷ [] }
