-- ===== src/Servers/Refresh.antt =====
-- pkg/dnscrypt/serversInfo.go: beginODoHRefresh, endODoHRefresh and cancelODoHRefresh, each under the
-- same mutex.
pub mod Claims
pub mod Callers
use proksitool.Base.{
  ℕ, ◌-◌, ◌≡◌, Bool, true, false, List, [], ◌∷◌, Option, none, some, ltb, if◌then◌else◌,
}
use proksitool.Cache.Entries.{find, remove, contains, erase}
use proksitool.Trie.Domain.{Name, name_eq}

-- `odohRefreshInFlight`, and `odohLastFailureAt` in nanoseconds.
pub record Refreshes : Type 0 where
  pub in_flight : List Name
  pub failed_at : List (Name × ℕ)

unfoldable pub cooling : Name → ℕ → ℕ → Refreshes → Bool
cooling name cooldown now r = elim (find name_eq name r.failed_at) [
  | none ↦ false
  | some last ↦ ltb (now - last) cooldown
]

unfoldable pub begin_refresh : Name → ℕ → ℕ → Refreshes → Refreshes × Bool
unfolding cooling
begin_refresh name cooldown now r =
    if contains name_eq r.in_flight name
    then (r, false)
    else if cooling name cooldown now r
    then (r, false)
    else (record r { in_flight = name ∷ r.in_flight }, true)

unfoldable pub end_refresh : Name → Bool → ℕ → Refreshes → Refreshes
end_refresh name success now r = record {
  in_flight = erase name_eq name r.in_flight;
  failed_at =
      if success
      then remove name_eq name r.failed_at
      else (name, now) ∷ remove name_eq name r.failed_at;
}

unfoldable pub cancel_refresh : Name → Refreshes → Refreshes
cancel_refresh name r = record r { in_flight = erase name_eq name r.in_flight }
