-- ===== src/Servers/Refresh/Callers.antt =====
-- pkg/dnscrypt/serversInfo.go: what holds whatever the callers of a refresh do.
use proksitool.Servers.Refresh.Claims.{
  Callers, release, last_failure, too_soon, Step, give_up, Reach, here, later, none_active,
}
use proksitool.Base.{
  ℕ, ◌+◌, ◌≡◌, refl, ◌∙◌, inl, inr, true, false, not, ◌&&◌, none, some, arith, Bool-cases,
  Option-cases,
}
use proksitool.Cache.Entries.{find, remove, has, Distinct, has-remove}
use proksitool.Trie.Domain.{Name, name_eq}
use proksitool.Trie.Domain.Names.{name_eq_iff}
use proksitool.Servers.Refresh.{Refreshes, cooling, begin_refresh, cancel_refresh}
use proksitool.Servers.Refresh.Claims.{
  begin_refresh-test, Reach-Exclusive, none_active-Exclusive, cooling-recorded,
}

-- However callers claim, finish and give up: never do two of them hold a claim for the same server,
-- and a refresh may begin exactly when no caller holds a claim for the server and, if the last refresh
-- that ended for it failed, that is at least the cooldown ago.
pub refresh_exclusive :
    {s : Callers}
    → Reach none_active s
    → (name : Name) (cooldown now : ℕ)
    → Distinct name_eq s.active
      × ((begin_refresh name cooldown now s.refreshes).1 ≡ (
          not (has name_eq name s.active)
          && not (too_soon (last_failure name s.ended) cooldown now)))
refresh_exclusive {s} r name cooldown now =
    let x = Reach-Exclusive none_active-Exclusive r in
    (
      x.apart,
      begin_refresh-test name cooldown now s.refreshes
          ∙ rw (x.held name, cooling-recorded name cooldown now s x) refl,
    )

-- A time at which the last failure, if there is one, is as old as the cooldown.
later_than : Name → ℕ → Refreshes → ℕ
later_than name cooldown r = elim (find name_eq name r.failed_at) [
  | none ↦ 0
  | some last ↦ last + cooldown
]

cooling-later_than :
    (name : Name) (cooldown : ℕ) (r : Refreshes)
    → cooling name cooldown (later_than name cooldown r) r ≡ false
unfolding cooling later_than
cooling-later_than name cooldown r = elim (Option-cases (find name_eq name r.failed_at)) [
  | inl e ↦ rw (e, cooling, later_than) refl
  | inr (last, e) ↦ rw (e, cooling, later_than) (ground arith)
]

free-begin_refresh :
    {s : Callers}
    → Reach none_active s
    → (name : Name) (cooldown : ℕ) → has name_eq name s.active ≡ false
    → (begin_refresh name cooldown (later_than name cooldown s.refreshes) s.refreshes).1 ≡ true
free-begin_refresh {s} r name cooldown h =
    begin_refresh-test name cooldown (later_than name cooldown s.refreshes) s.refreshes
    ∙ rw
        (
          (Reach-Exclusive none_active-Exclusive r).held name,
          h,
          cooling-later_than name cooldown s.refreshes,
        )
        refl

released :
    {s : Callers}
    → Reach none_active s
    → (name : Name) → has name_eq name (remove name_eq name s.active) ≡ false
released {s} r name =
    has-remove name_eq name_eq_iff name name s.active
      (Reach-Exclusive none_active-Exclusive r).apart
    ∙ ground (arith, (name_eq_iff name name).1 refl)

-- No slot is lost: from every state that callers can reach, the holder of a claim, if there is one,
-- can release it, and later on a refresh of the server begins.
pub refresh_possible :
    {s : Callers}
    → Reach none_active s
    → (name : Name) (cooldown : ℕ)
    → (t : Callers) × (now : ℕ) × Reach s t
      × ((begin_refresh name cooldown now t.refreshes).1 ≡ true)
refresh_possible {s} r name cooldown = elim (Bool-cases (has name_eq name s.active)) [
  | inl held ↦
      let t = release name (cancel_refresh name s.refreshes) s.ended s in
      let st : Step s t = give_up name held in
      (
        t,
        later_than name cooldown t.refreshes,
        later here st,
        free-begin_refresh (later r st) name cooldown (released r name),
      )
  | inr none_held ↦
      (s, later_than name cooldown s.refreshes, here, free-begin_refresh r name cooldown none_held)
]
