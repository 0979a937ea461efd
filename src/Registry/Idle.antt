-- ===== src/Registry/Idle.antt =====
-- pkg/spoofdpi/internal/netutil/conn.go: how long a connection lives after it was used.
use proksitool.Base.{
  ℕ, ◌+◌, ◌-◌, ◌*◌, ◌/◌, ◌%◌, ◌^◌, ◌<◌, ◌≤◌, ◌≡◌, refl, true, false, not, arith, ltb, lt→ltb,
}
use proksitool.Registry.{
  IdleTimeoutConn, is_expired, note_activity, below_seven_tenths, renew, extend_deadline,
}

below_seven_tenths-small :
    (left timeout : ℕ)
    → timeout * 7 < 2 ^ 63
    → below_seven_tenths left timeout ≡ ltb left (timeout * 7 / 10)
unfolding below_seven_tenths
below_seven_tenths-small left timeout h =
    let e : timeout * 7 % 2 ^ 64 ≡ timeout * 7 = omega arith in
    rw (e, lt→ltb (timeout * 7) (2 ^ 63) h) refl

-- ExtendDeadline fails exactly on an expired connection, which it leaves as it is. A live one with a
-- timeout is not expired for at least seven tenths of it from then on, and if it had a deadline, its
-- deadline does not move back. Seven times the timeout is to fit an int64.
pub extend_deadline-lives :
    {K : Type 0} (now : ℕ) (c : IdleTimeoutConn K)
    → 0 < c.timeout
    → c.timeout * 7 < 2 ^ 63
    → ((extend_deadline now c).1 ≡ not (is_expired now c))
      × (is_expired now c ≡ true → (extend_deadline now c).0 ≡ c)
      × (is_expired now c ≡ false
          → (later : ℕ) → later ≤ now + c.timeout * 7 / 10
          → is_expired later (extend_deadline now c).0 ≡ false)
      × (0 < c.expired_at → c.expired_at ≤ ((extend_deadline now c).0).expired_at)
unfolding extend_deadline is_expired note_activity renew
extend_deadline-lives now c pos small =
    let e = below_seven_tenths-small (c.expired_at - now) c.timeout small in
    (ground arith, ground arith, ground (arith, e), ground (arith, e))
