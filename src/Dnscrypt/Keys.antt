-- ===== src/Dnscrypt/Keys.antt =====
-- pkg/dnscrypt/crypto.go: ComputeSharedKey, on the libraries that multiply points.
use proksitool.Base.{
  ℕ, Bool, true, ◌&&◌, ◌==◌, List, [], ◌∷◌, Option, none, some, replicate, if◌then◌else◌,
}

-- `CryptoConstruction`, in the order of its numbers.
pub data Construction : Type 0 where
  undefined : Construction
  xsalsa20_poly1305 : Construction
  xchacha20_poly1305 : Construction
  xwing_pq : Construction

unfoldable pub rank : Construction → ℕ
rank undefined = 0
rank xsalsa20_poly1305 = 1
rank xchacha20_poly1305 = 2
rank xwing_pq = 3

-- `xsecretbox.SharedKey` of a secret and a public key, `none` for its error, and `box.Precompute` of a
-- public and a secret key.
pub record Exchange : Type 0 where
  pub shared_key : List ℕ → List ℕ → Option (List ℕ)
  pub precompute : List ℕ → List ℕ → List ℕ

unfoldable pub all_zero : List ℕ → Bool
all_zero [] = true
all_zero (b ∷ key) = (b == 0) && all_zero key

-- `draw` is what crypto_rand gives when the public key is weak.
unfoldable pub compute_shared_key : Exchange → List ℕ → Construction → List ℕ → List ℕ → List ℕ
compute_shared_key ex draw xchacha20_poly1305 secret pk = elim (ex.shared_key secret pk) [
  | none ↦ draw
  | some key ↦ key
]
compute_shared_key ex draw xsalsa20_poly1305 secret pk =
    if all_zero (ex.precompute pk secret) then draw else ex.precompute pk secret
compute_shared_key ex draw undefined secret pk = replicate 32 0
compute_shared_key ex draw xwing_pq secret pk = replicate 32 0
