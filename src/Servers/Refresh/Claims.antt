-- ===== src/Servers/Refresh/Claims.antt =====
-- pkg/dnscrypt/serversInfo.go: callers that claim a refresh and release it again, in any order. A
-- caller is a number; `active` lists the claims that are held, and `ended` the refreshes that
-- ended, the last one first, with their success and their time.
use proksitool.Base.{
  ℕ, ◌-◌, ◌≡◌, Option, ltb, if◌then◌else◌, refl, sym, ◌∙◌, inl, inr, Bool, true, false, not, ◌&&◌,
  List, [], ◌∷◌, none, some, arith, Bool-cases, Option-cases, if_cases, false≢true,
}
use proksitool.Cache.Entries.{
  find, remove, contains, erase, has, Distinct, has-remove, remove-Distinct, contains-erase,
  has-find, find-remove, find-front, front-Distinct,
}
use proksitool.Trie.Domain.{Name, name_eq}
use proksitool.Trie.Domain.Names.{name_eq_iff}
use proksitool.Servers.Refresh.{Refreshes, cooling, begin_refresh, end_refresh, cancel_refresh}

pub record Callers : Type 0 where
  pub refreshes : Refreshes
  pub active : List (Name × ℕ)
  pub ended : List (Name × (Bool × ℕ))

abbrev pub release : Name → Refreshes → List (Name × (Bool × ℕ)) → Callers → Callers
release name r ended s = record {
  refreshes = r;
  active = remove name_eq name s.active;
  ended = ended;
}

-- The time at which the last refresh of a server failed, if it did fail.
abbrev pub last_failure : Name → List (Name × (Bool × ℕ)) → Option ℕ
last_failure name [] = none
last_failure name ((q, (success, at)) ∷ ended) =
    if name_eq q name then (if success then none else some at) else last_failure name ended

-- Whether that time is less than the cooldown ago.
abbrev pub too_soon : Option ℕ → ℕ → ℕ → Bool
too_soon none cooldown now = false
too_soon (some at) cooldown now = ltb (now - at) cooldown

pub data Step (s : Callers) : Callers → Type 0 where
  claim :
      (caller : ℕ) (name : Name) (cooldown now : ℕ)
      → (begin_refresh name cooldown now s.refreshes).1 ≡ true
      → Step s (record {
        refreshes = (begin_refresh name cooldown now s.refreshes).0;
        active = (name, caller) ∷ s.active;
        ended = s.ended;
      })
  deny :
      (name : Name) (cooldown now : ℕ)
      → (begin_refresh name cooldown now s.refreshes).1 ≡ false
      → Step s (record s { refreshes = (begin_refresh name cooldown now s.refreshes).0 })
  finish :
      (name : Name) (success : Bool) (now : ℕ)
      → has name_eq name s.active ≡ true
      → Step s (
          release name
            (end_refresh name success now s.refreshes)
            ((name, (success, now)) ∷ s.ended)
            s)
  give_up :
      (name : Name)
      → has name_eq name s.active ≡ true
      → Step s (release name (cancel_refresh name s.refreshes) s.ended s)

pub data Reach (s : Callers) : Callers → Type 0 where
  here : Reach s s
  later : {t u : Callers} → Reach s t → Step t u → Reach s u

abbrev pub none_active : Callers
none_active = record {
  refreshes = record { in_flight = []; failed_at = [] };
  active = [];
  ended = [];
}

-- The slots in flight are those of the claims held, and no two of these have the same name; the
-- failures recorded are those of the servers whose last refresh failed.
pub record Exclusive (s : Callers) : Type 0 where
  pub held : (q : Name) → contains name_eq s.refreshes.in_flight q ≡ has name_eq q s.active
  pub apart : Distinct name_eq s.active
  pub recorded : (q : Name) → find name_eq q s.refreshes.failed_at ≡ last_failure q s.ended
  pub once : Distinct name_eq s.refreshes.failed_at

-- Whether a refresh may begin: exactly when no claim is held for the name and no failure is recent.
pub begin_refresh-test :
    (name : Name) (cooldown now : ℕ) (r : Refreshes)
    → (begin_refresh name cooldown now r).1
      ≡ (not (contains name_eq r.in_flight name) && not (cooling name cooldown now r))
unfolding begin_refresh
begin_refresh-test name cooldown now r = ground arith

release-Exclusive :
    (name : Name) (failed : List (Name × ℕ)) (ended : List (Name × (Bool × ℕ))) (s : Callers)
    → Exclusive s
    → ((q : Name) → find name_eq q failed ≡ last_failure q ended)
    → Distinct name_eq failed
    → Exclusive (
        release name
          (record { in_flight = erase name_eq name s.refreshes.in_flight; failed_at = failed })
          ended
          s)
release-Exclusive name failed ended s x known distinct = record {
  held = λ q.
      contains-erase name_eq name_eq_iff q name s.refreshes.in_flight
      ∙ rw (x.held q) (sym (has-remove name_eq name_eq_iff q name s.active x.apart));
  apart = remove-Distinct name_eq name_eq_iff name s.active x.apart;
  recorded = known;
  once = distinct;
}

find-removed :
    (name q : Name) (l : List (Name × ℕ))
    → Distinct name_eq l
    → find name_eq q (remove name_eq name l) ≡ (if name_eq name q then none else find name_eq q l)
find-removed name q l d = elim (Bool-cases (name_eq name q)) [
  | inl e ↦ rw e (
      (has-find name_eq name_eq_iff q (remove name_eq name l)).0
        (has-remove name_eq name_eq_iff q name l d ∙ ground (arith, e)))
  | inr e ↦ rw e (find-remove name_eq name_eq_iff q name l e)
]

-- A refresh that ends: its failure is recorded, and its success drops the one before.
end_refresh-recorded :
    (name : Name) (success : Bool) (now : ℕ) (s : Callers)
    → Exclusive s
    → ((q : Name)
        → find name_eq q (end_refresh name success now s.refreshes).failed_at
          ≡ last_failure q ((name, (success, now)) ∷ s.ended))
      × Distinct name_eq (end_refresh name success now s.refreshes).failed_at
unfolding end_refresh
end_refresh-recorded name true now s x = (
  λ q. find-removed name q s.refreshes.failed_at x.once ∙ rw (x.recorded q) refl,
  remove-Distinct name_eq name_eq_iff name s.refreshes.failed_at x.once,
)
end_refresh-recorded name false now s x = (
  λ q. find-front name_eq name_eq_iff name q now s.refreshes.failed_at ∙ rw (x.recorded q) refl,
  front-Distinct name_eq name_eq_iff name now s.refreshes.failed_at x.once,
)

begin_refresh-Exclusive :
    (caller : ℕ) (name : Name) (cooldown now : ℕ) (s : Callers)
    → Exclusive s
    → ((begin_refresh name cooldown now s.refreshes).1 ≡ true
        → Exclusive (record {
          refreshes = (begin_refresh name cooldown now s.refreshes).0;
          active = (name, caller) ∷ s.active;
          ended = s.ended;
        }))
      × ((begin_refresh name cooldown now s.refreshes).1 ≡ false
          → Exclusive (record s { refreshes = (begin_refresh name cooldown now s.refreshes).0 }))
unfolding begin_refresh contains has
begin_refresh-Exclusive caller name cooldown now s x =
    if_cases P (contains name_eq s.refreshes.in_flight name) _ _
      (λ _. (λ e. absurd (false≢true e), λ _. x))
      (λ free.
        if_cases P (cooling name cooldown now s.refreshes) _ _
          (λ _. (λ e. absurd (false≢true e), λ _. x))
          (λ _. (λ _. claimed free, λ e. absurd (false≢true (sym e)))))
  where
    P : Refreshes × Bool → Type 0
    P r =
        (r.1 ≡ true
          → Exclusive
              (record { refreshes = r.0; active = (name, caller) ∷ s.active; ended = s.ended }))
        × (r.1 ≡ false → Exclusive (record s { refreshes = r.0 }))

    claimed :
        contains name_eq s.refreshes.in_flight name ≡ false
        → Exclusive (record {
          refreshes = record s.refreshes { in_flight = name ∷ s.refreshes.in_flight };
          active = (name, caller) ∷ s.active;
          ended = s.ended;
        })
    claimed free = record {
      held = λ q. rw (contains, has, x.held q) refl;
      apart = (sym (x.held name) ∙ free, x.apart);
      recorded = x.recorded;
      once = x.once;
    }

Step-Exclusive : {s t : Callers} → Step s t → Exclusive s → Exclusive t
unfolding end_refresh cancel_refresh
Step-Exclusive {s} (claim caller name cooldown now e) x =
    (begin_refresh-Exclusive caller name cooldown now s x).0 e
Step-Exclusive {s} (deny name cooldown now e) x =
    (begin_refresh-Exclusive 0 name cooldown now s x).1 e
Step-Exclusive {s} (finish name success now h) x =
    let (known, distinct) = end_refresh-recorded name success now s x in
    release-Exclusive name _ _ s x known distinct
Step-Exclusive {s} (give_up name h) x = release-Exclusive name _ _ s x x.recorded x.once

pub Reach-Exclusive : {s t : Callers} → Exclusive s → Reach s t → Exclusive t
Reach-Exclusive x here = x
Reach-Exclusive x (later r st) = Step-Exclusive st (Reach-Exclusive x r)

pub none_active-Exclusive : Exclusive none_active
unfolding contains has find
none_active-Exclusive = record { held = λ q. refl; apart = tt; recorded = λ q. refl; once = tt }

pub cooling-recorded :
    (name : Name) (cooldown now : ℕ) (s : Callers)
    → Exclusive s
    → cooling name cooldown now s.refreshes ≡ too_soon (last_failure name s.ended) cooldown now
unfolding cooling
cooling-recorded name cooldown now s x =
    elim (Option-cases (find name_eq name s.refreshes.failed_at)) [
      | inl e ↦
          let f : last_failure name s.ended ≡ none = sym (x.recorded name) ∙ e in
          rw (e, f, cooling) refl
      | inr (at, e) ↦
          let f : last_failure name s.ended ≡ some at = sym (x.recorded name) ∙ e in
          rw (e, f, cooling) refl
    ]
