-- ===== src/Sniffer.antt =====
-- pkg/spoofdpi/internal/packet/sniffer.go: the hop estimate and the test for local addresses.
use proksitool.Base.{
  ℕ, ◌-◌, ◌≤◌, ◌<◌, ◌≡◌, ◌⊎◌, Bool, true, false, ◌&&◌, ◌==◌, List, leb, ltb, length, get_or,
  if◌then◌else◌, arith,
}

unfoldable pub initial_hops : ℕ → ℕ
initial_hops ttl_left = if leb ttl_left 64 then 64 else if leb ttl_left 128 then 128 else 255

-- On a byte the difference is never negative.
unfoldable pub estimate_hops : ℕ → ℕ
estimate_hops ttl_left = initial_hops ttl_left - ttl_left

-- The four tests on the bytes of an address that has at least four.
unfoldable pub is_private : ℕ → ℕ → Bool
is_private a b =
    if a == 10
    then true
    else if a == 127
    then true
    else if a == 172 && leb 16 b && leb b 31
    then true
    else if a == 192 && b == 168
    then true
    else if a == 169 && b == 254
    then true
    else false

unfoldable pub is_local_ip : List ℕ → Bool
is_local_ip ip = if ltb (length ip) 4 then false else is_private (get_or ip 0 0) (get_or ip 1 0)

-- The estimate is the number of hops for a packet that was sent with one of the usual first TTLs
-- 64, 128 and 255, if it took too few hops to fall to the next lower one.
pub estimate_hops-sent :
    (sent hops : ℕ)
    → ((sent ≡ 64) × (hops ≤ 64)) ⊎ (((sent ≡ 128) × (hops < 64)) ⊎ ((sent ≡ 255) × (hops < 127)))
    → estimate_hops (sent - hops) ≡ hops
unfolding estimate_hops initial_hops
estimate_hops-sent sent hops h = ground arith
