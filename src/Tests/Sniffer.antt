-- ===== src/Tests/Sniffer.antt =====
-- pkg/spoofdpi/internal/packet/sniffer.go: a packet after ten hops, and two addresses.
use proksitool.Base.{◌≡◌, refl, true, false, [], ◌∷◌}
use proksitool.Sniffer.{is_local_ip, is_private}

local_address : is_local_ip (172 ∷ 31 ∷ 0 ∷ 1 ∷ []) ≡ true
unfolding is_local_ip is_private
local_address = refl

public_address : is_local_ip (172 ∷ 32 ∷ 0 ∷ 1 ∷ []) ≡ false
unfolding is_local_ip is_private
public_address = refl
