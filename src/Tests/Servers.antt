-- ===== src/Tests/Servers.antt =====
-- pkg/dnscrypt/serversInfo.go: two servers, in thousandths, with an average that is its last sample.
use proksitool.Base.{
  ℕ, ◌*◌, ◌/◌, ◌+◌, ◌-◌, ◌≡◌, refl, inl, inr, true, false, not, ◌&&◌, List, [], ◌∷◌, some, arith,
  ltb, leb, ok, Returns, get_elem?,
}
use proksitool.Cache.Entries.{has, Distinct, contains, find}
use proksitool.Trie.Domain.{name_eq}
use proksitool.Servers.{
  Floats, Average, Server, wp2, Draws, carry, sort_by_rtt, rtt_of, server_score, better, weigh,
  draw_other, get_weighted_candidate, get_one, Registered,
}
use proksitool.Servers.Choice.{get_one-Returns}
use proksitool.Servers.Order.{Same}
use proksitool.Servers.Refresh.{begin_refresh, cooling}
use proksitool.Servers.Refresh.Claims.{
  Callers, too_soon, last_failure, claim, Reach, here, later, none_active,
}
use proksitool.Servers.Refresh.Callers.{refresh_exclusive, refresh_possible}

abbrev thousandths : Floats ℕ
thousandths = record {
  lt = ltb;
  le = leb;
  of_ℕ = λ n. 1000 * n;
  plus = λ a b. a + b;
  minus = λ a b. a - b;
  times = λ a b. a * b / 1000;
  over = λ a b. a * 1000 / b;
}

abbrev last_sample : Average ℕ ℕ
last_sample = record { value = λ a. a; set_value = λ x a. x; add_sample = λ x a. x }

-- A server by its letter, its average in milliseconds, and its failures out of 100 queries.
abbrev server_of : ℕ → ℕ → ℕ → Server ℕ
server_of letter ms failed = record {
  name = letter ∷ [];
  rtt = 1000 * ms;
  initial_rtt = ms;
  total_queries = 100;
  failed_queries = failed;
  last_update = 0;
  last_action = 0;
  last_decay = 0;
}

abbrev slow : Server ℕ
slow = server_of b's' 400 0

abbrev fast : Server ℕ
fast = server_of b'f' 100 50

abbrev steady : Server ℕ
steady = server_of b't' 50 0

abbrev draws : Draws
draws = record { candidate = 3; estimator = 0; pair = 4 ∷ 7 ∷ 2 ∷ []; coin = true }

-- One pass over three servers does not bring the fastest to the front.
one_pass :
    sort_by_rtt thousandths last_sample (slow ∷ fast ∷ steady ∷ []) ≡ (fast ∷ steady ∷ slow ∷ [])
unfolding sort_by_rtt carry rtt_of
one_pass = refl

another_drawn : draw_other 3 1 (7 ∷ 2 ∷ []) ≡ ok 2
unfolding draw_other
another_drawn = refl

scores :
    (server_score thousandths last_sample slow ≡ 720)
    × (server_score thousandths last_sample fast ≡ 780)
unfolding server_score rtt_of
scores = (refl, refl)

weighted :
    get_weighted_candidate thousandths last_sample (4 ∷ 7 ∷ 2 ∷ []) true (slow ∷ fast ∷ steady ∷ [])
    ≡ ok 2
unfolding get_weighted_candidate weigh draw_other better server_score rtt_of
weighted = refl

get_one-Returns_example :
    Returns
      (λ r.
        ((s : Server ℕ) × (i : ℕ) × (r.1 ≡ some s) × (get_elem? (r.0) i ≡ some s))
        × Same (r.0) (slow ∷ fast ∷ steady ∷ []))
      (get_one thousandths last_sample wp2 true draws 5 (slow ∷ fast ∷ steady ∷ []))
get_one-Returns_example =
    get_one-Returns thousandths last_sample wp2 true draws 5 (slow ∷ fast ∷ steady ∷ [])
      (omega arith) (inr (inr (inl (omega arith))))

ltb-asym : (x y : ℕ) → ltb x y ≡ true → ltb y x ≡ false
ltb-asym x y h = ground arith

abbrev relays : List (Registered ℕ)
relays = record { name = b'a' ∷ []; stamp = 3 } ∷ []

begins : (begin_refresh (b'a' ∷ []) 60 5 none_active.refreshes).1 ≡ true
unfolding begin_refresh cooling contains find
begins = refl

-- The first caller holds the claim of one server.
abbrev one_claim : Callers
one_claim = record {
  refreshes = (begin_refresh (b'a' ∷ []) 60 5 none_active.refreshes).0;
  active = (b'a' ∷ [], 1) ∷ [];
  ended = [];
}

claimed : Reach none_active one_claim
claimed = later here (claim 1 (b'a' ∷ []) 60 5 begins)

refresh_exclusive_example :
    Distinct name_eq one_claim.active
    × ((begin_refresh (b'a' ∷ []) 60 9 one_claim.refreshes).1 ≡ (
        not (has name_eq (b'a' ∷ []) one_claim.active)
        && not (too_soon (last_failure (b'a' ∷ []) one_claim.ended) 60 9)))
refresh_exclusive_example = refresh_exclusive claimed (b'a' ∷ []) 60 9

refresh_possible_example :
    (t : Callers) × (now : ℕ) × Reach one_claim t
    × ((begin_refresh (b'a' ∷ []) 60 now t.refreshes).1 ≡ true)
refresh_possible_example = refresh_possible claimed (b'a' ∷ []) 60
