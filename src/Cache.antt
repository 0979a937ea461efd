-- ===== src/Cache.antt =====
-- pkg/spoofdpi/internal/cache: the sharded caches. `hash.go` chooses a shard; a shard's mutex makes
-- each operation one step.
pub mod Entries
pub mod Lru
pub mod Ttl
use proksitool.Base.{ℕ, ◌*◌, ◌%◌, ◌^◌, ◌≡◌, ◌↔◌, bit_xor, Bool, true, false, List, [], ◌∷◌}

-- `Key`: a comparable type with its bytes.
pub record Key (K : Type 0) : Type 0 where
  pub eq : K → K → Bool
  pub eq_iff : (a b : K) → (eq a b ≡ true) ↔ (a ≡ b)
  pub bytes : K → List ℕ

abbrev pub fnv_offset64 : ℕ
fnv_offset64 = 14695981039346656037

abbrev pub fnv_prime64 : ℕ
fnv_prime64 = 1099511628211

-- The loop of `fnv1aBytes`, from a hash on.
unfoldable pub fnv1a_from : ℕ → List ℕ → ℕ
fnv1a_from h [] = h
fnv1a_from h (c ∷ b) = fnv1a_from (bit_xor h c * fnv_prime64 % 2 ^ 64) b

unfoldable pub fnv1a_bytes : List ℕ → ℕ
unfolding fnv1a_from
fnv1a_bytes b = fnv1a_from fnv_offset64 b

-- `options`; a TTL is in nanoseconds.
pub record Options : Type 0 where
  pub ttl : ℕ
  pub skip_existing : Bool
  pub update_existing_only : Bool

abbrev pub no_options : Options
no_options = record { ttl = 0; skip_existing = false; update_existing_only = false }

pub with_ttl : ℕ → Options → Options
with_ttl ttl o = record o { ttl = ttl }

pub with_update_existing_only : Bool → Options → Options
with_update_existing_only b o = record o { update_existing_only = b }

pub with_skip_existing : Bool → Options → Options
with_skip_existing b o = record o { skip_existing = b }
