-- ===== src/Servers.antt =====
-- pkg/dnscrypt/serversInfo.go: the list of servers, and how one is chosen for a query. `rand.Intn(k)`
-- is a draw modulo k, and a moving average is an `A` with what the code asks of it; floating-point
-- numbers are an `F` with their operations.
pub mod Order
pub mod Choice
pub mod Stats
pub mod Refresh
use proksitool.Base.{
  ℕ, zero, suc, ◌+◌, ◌-◌, ◌*◌, ◌/◌, ◌%◌, Bool, true, false, not, ◌&&◌, ◌||◌, ◌==◌, List, [], ◌∷◌,
  Option, none, some, ltb, leb, min, length, if◌then◌else◌, Outcome, ok, err, panic, out_of_fuel,
  or_panic, ◌>>=◌, get_elem?, set, map,
}
use proksitool.Trie.Domain.{Name, name_eq}

-- What the code uses of `float64`.
pub record Floats (F : Type 0) : Type 0 where
  pub lt : F → F → Bool
  pub le : F → F → Bool
  pub of_ℕ : ℕ → F
  pub plus : F → F → F
  pub minus : F → F → F
  pub times : F → F → F
  pub over : F → F → F

-- `ewma.MovingAverage`.
pub record Average (F A : Type 0) : Type 0 where
  pub value : A → F
  pub set_value : F → A → A
  pub add_sample : F → A → A

-- `ServerInfo`, as far as the choice reads it; times are in nanoseconds.
pub record Server (A : Type 0) : Type 0 where
  pub name : Name
  pub rtt : A
  pub initial_rtt : ℕ
  pub total_queries : ℕ
  pub failed_queries : ℕ
  pub last_update : ℕ
  pub last_action : ℕ
  pub last_decay : ℕ

-- `LBStrategy`, by its implementations.
pub data Strategy : Type 0 where
  p2 : Strategy
  pn : ℕ → Strategy
  ph : Strategy
  first : Strategy
  random : Strategy
  wp2 : Strategy

abbrev pub Result : Type 0 → Type 0
Result = Outcome (Unit {0})

-- `rand.Intn(k)`, which panics unless k is positive.
unfoldable pub intn : ℕ → ℕ → Result ℕ
intn draw k = if k == 0 then panic else ok (draw % k)

unfoldable pub get_active_count : Strategy → ℕ → ℕ
get_active_count p2 count = min count 2
get_active_count (pn n) count = min count n
get_active_count ph count = (count + 1) / 2
get_active_count first count = 1
get_active_count random count = count
get_active_count wp2 count = count

unfoldable pub get_candidate : Strategy → ℕ → ℕ → Result ℕ
unfolding intn
get_candidate p2 draw count = intn draw (min count 2)
get_candidate (pn n) draw count = intn draw (min count n)
get_candidate ph draw count = intn draw ((count + 1) / 2)
get_candidate first draw count = ok 0
get_candidate random draw count = intn draw count
get_candidate wp2 draw count = if leb count 1 then ok 0 else intn draw count

-- The loop that draws until the second server is another one, over the draws to come.
unfoldable pub draw_other : ℕ → ℕ → List ℕ → Result ℕ
draw_other count one [] = out_of_fuel
draw_other count one (d ∷ draws) =
    let rest = draw_other count one draws in if d % count == one then rest else ok (d % count)

-- The draws of one getOne: for the candidate, for the estimator, for the pair of WP2, and the coin.
pub record Draws : Type 0 where
  pub candidate : ℕ
  pub estimator : ℕ
  pub pair : List ℕ
  pub coin : Bool

-- Writing `t` at `i` and `s` at `j`.
unfoldable pub swap : {A : Type 0} → ℕ → A → ℕ → A → List A → List A
swap i s j t inner = set (set inner i t) j s

module _ {F A : Type 0} (fl : Floats F) (av : Average F A) where
  unfoldable pub rtt_of : Server A → F
  rtt_of s = av.value s.rtt

  -- The pass of sortByRtt: the larger of two neighbours goes on.
  unfoldable pub carry : Server A → List (Server A) → List (Server A)
  carry s [] = s ∷ []
  carry s (t ∷ l) = if fl.lt (rtt_of t) (rtt_of s) then t ∷ carry s l else s ∷ carry t l

  unfoldable pub sort_by_rtt : List (Server A) → List (Server A)
  sort_by_rtt [] = []
  sort_by_rtt (s ∷ l) = carry s l

  -- estimatorUpdate from the draw of the candidate on.
  unfoldable pub compare_with : ℕ → ℕ → List (Server A) → Result (List (Server A))
  compare_with candidate current inner = do
    c ← or_panic (get_elem? inner candidate)
    a ← or_panic (get_elem? inner current)
    if fl.lt (rtt_of a) (fl.of_ℕ 0)
        then ok (set inner current (record a { rtt = av.set_value (rtt_of c) a.rtt }))
        else if fl.lt (rtt_of c) (rtt_of a)
        then ok (sort_by_rtt (swap candidate c current a inner))
        else ok inner

  unfoldable pub estimator_update : Strategy → ℕ → ℕ → List (Server A) → Result (List (Server A))
  unfolding intn
  estimator_update strategy draw current inner =
      let active = get_active_count strategy (length inner) in
      if active == length inner
      then ok inner
      else do d ← intn draw (length inner - active); compare_with (d + active) current inner

  -- The least positive RTT, from the one of the first server.
  unfoldable pub best_rtt : F → List (Server A) → F
  best_rtt best [] = best
  best_rtt best (s ∷ l) =
      best_rtt (if fl.lt (fl.of_ℕ 0) (rtt_of s) && fl.lt (rtt_of s) best then rtt_of s else best) l

  -- One round of recoverDormantServers at a time: the server after it, and whether it was changed.
  unfoldable pub recover_one : F → ℕ → Server A → Server A × Bool
  recover_one best now s =
      if fl.le (rtt_of s) (fl.times best (fl.of_ℕ 4))
      then (s, false)
      else if leb (now - s.last_action) 60000000000
      then (s, false)
      else if leb (now - s.last_decay) 10000000000
      then (s, false)
      else (
        record s {
          rtt =
              av.add_sample
                (if fl.le (fl.of_ℕ s.initial_rtt) (fl.of_ℕ 0) then best else fl.of_ℕ s.initial_rtt)
                s.rtt;
          total_queries = 0;
          failed_queries = 0;
          last_decay = now;
        },
        true,
      )

  unfoldable pub recover_all : F → ℕ → List (Server A) → List (Server A) × Bool
  recover_all best now [] = ([], false)
  recover_all best now (s ∷ l) =
      let (t, changed) = recover_one best now s in
      let (rest, changed') = recover_all best now l in (t ∷ rest, changed || changed')

  unfoldable pub recover_dormant : ℕ → List (Server A) → List (Server A)
  recover_dormant now [] = []
  recover_dormant now (s ∷ []) = s ∷ []
  recover_dormant now (s ∷ t ∷ l) =
      let best = best_rtt (rtt_of s) (s ∷ t ∷ l) in
      if fl.le best (fl.of_ℕ 0)
      then s ∷ t ∷ l
      else let (inner, needs_sort) = recover_all best now (s ∷ t ∷ l) in
        if needs_sort then sort_by_rtt inner else inner

  unfoldable pub server_score : Server A → F
  server_score s =
      let rtt = if fl.le (rtt_of s) (fl.of_ℕ 0) then fl.of_ℕ 1000 else rtt_of s in
      let raw = fl.minus (fl.of_ℕ 1) (fl.over rtt (fl.of_ℕ 1000)) in
      let rtt_score = if fl.lt raw (fl.of_ℕ 0) then fl.of_ℕ 0 else raw in
      let rate =
        if ltb 0 s.total_queries
        then fl.over (fl.of_ℕ (s.total_queries - s.failed_queries)) (fl.of_ℕ s.total_queries)
        else fl.of_ℕ 1 in
      fl.plus (fl.times rtt_score (fl.over (fl.of_ℕ 7) (fl.of_ℕ 10)))
        (fl.times rate (fl.over (fl.of_ℕ 3) (fl.of_ℕ 10)))

  -- `coin` is the draw that settles a tie.
  unfoldable pub better : ℕ → ℕ → Bool → List (Server A) → Result ℕ
  better i j coin inner = do
    s ← or_panic (get_elem? inner i)
    t ← or_panic (get_elem? inner j)
    if fl.lt (server_score t) (server_score s)
        then ok i
        else if fl.lt (server_score s) (server_score t)
        then ok j
        else ok (if coin then i else j)

  unfoldable pub weigh : List ℕ → Bool → List (Server A) → Result ℕ
  weigh [] coin inner = out_of_fuel
  weigh (d ∷ draws) coin inner = do
    j ← draw_other (length inner) (d % length inner) draws
    better (d % length inner) j coin inner

  unfoldable pub get_weighted_candidate : List ℕ → Bool → List (Server A) → Result ℕ
  unfolding weigh
  get_weighted_candidate draws coin inner =
      if leb (length inner) 1 then ok 0 else weigh draws coin inner

  -- What getOne does after the servers were given their new chances, under a strategy but WP2.
  unfoldable pub choose_plain :
      Strategy → Bool → Draws → List (Server A) → Result (ℕ × List (Server A))
  choose_plain strategy estimator d inner = do
    i ← get_candidate strategy d.candidate (length inner)
    after ← if estimator then estimator_update strategy d.estimator i inner else ok inner
    ok (i, after)

  unfoldable pub choose : Strategy → Bool → Draws → List (Server A) → Result (ℕ × List (Server A))
  choose wp2 estimator d inner = do i ← get_weighted_candidate d.pair d.coin inner; ok (i, inner)
  choose strategy estimator d inner = choose_plain strategy estimator d inner

  unfoldable pub get_one :
      Strategy → Bool → Draws → ℕ → List (Server A) → Result (List (Server A) × Option (Server A))
  get_one strategy estimator d now [] = ok ([], none)
  get_one strategy estimator d now (s ∷ l) = do
    (i, after) ← choose strategy estimator d (recover_dormant now (s ∷ l))
    chosen ← or_panic (get_elem? after i)
    ok (after, some chosen)

module _ {A : Type 0} where
  -- Halving keeps the counters small, and lets old queries fade.
  unfoldable pub count_query : Bool → ℕ → Server A → Server A
  count_query success now s =
      let failed = if success then s.failed_queries else s.failed_queries + 1 in
      if ltb 10000 (s.total_queries + 1)
      then record s {
        total_queries = (s.total_queries + 1) / 2;
        failed_queries = failed / 2;
        last_update = now;
      }
      else record s {
        total_queries = s.total_queries + 1;
        failed_queries = failed;
        last_update = now;
      }

  -- The loop stops at the first server of the name.
  unfoldable pub update_server_stats : Name → Bool → ℕ → List (Server A) → List (Server A)
  update_server_stats name success now [] = []
  update_server_stats name success now (s ∷ l) =
      let rest = update_server_stats name success now l in
      if name_eq s.name name then count_query success now s ∷ l else s ∷ rest

-- `RegisteredServer`; `S` is a stamp.
pub record Registered (S : Type 0) : Type 0 where
  pub name : Name
  pub stamp : S

-- registerServer, and registerRelay in the same words on the list of relays.
unfoldable pub register : {S : Type 0} → Name → S → List (Registered S) → List (Registered S)
register name stamp [] = record { name = name; stamp = stamp } ∷ []
register name stamp (r ∷ l) =
    let rest = register name stamp l in
    if name_eq r.name name then record { name = name; stamp = stamp } ∷ l else r ∷ rest
