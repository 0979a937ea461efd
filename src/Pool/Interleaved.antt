-- ===== src/Pool/Interleaved.antt =====
-- pkg/dnscrypt/udp_conn_pool.go: the operations of several callers on one shard, in any order. Get, Put,
-- the clean-up and the part of Close for this shard are steps, each under its mutex; Close sets `closed`
-- before, and Put has read it once before it takes the mutex.
use proksitool.Base.{
  ℕ, ◌+◌, ◌<◌, ◌≡◌, refl, ◌∙◌, ap, Bool, true, false, List, [], ◌∷◌, ◌++◌, some, arith,
  if◌then◌else◌, ◌==◌, Bool-cases, inl, inr, false≢true,
}
use proksitool.Cache.Entries.{find, last}
use proksitool.Trie.Domain.{Name}
use proksitool.Pool.{PoolShard, take_conn, put_conn, cleanup_shard, close_shard}
use proksitool.Pool.Conserved.{
  count, held, option_list, take_conn-held, put_conn-held, cleanup_shard-held, close_shard-held,
  count-append,
}

-- A shard, `closed`, whether Close has emptied the shard, the sockets with the callers, those closed,
-- and all that were ever opened.
pub record World : Type 0 where
  pub shard : PoolShard
  pub closed : Bool
  pub swept : Bool
  pub lent : List ℕ
  pub gone : List ℕ
  pub opened : List ℕ

abbrev pub give_up : ℕ → List ℕ → List ℕ
give_up c [] = []
give_up c (d ∷ l) = let rest = give_up c l in if d == c then l else d ∷ rest

pub data Step (w : World) : World → Type 0 where
  dial : (c : ℕ) → Step w (record w { lent = c ∷ w.lent; opened = c ∷ w.opened })
  take_out :
      (addr : Name)
      → Step w (record w {
        shard = (take_conn addr w.shard).0;
        lent = option_list ((take_conn addr w.shard).1) ++ w.lent;
      })
  put_back :
      (closed_before : Bool) (now : ℕ) (addr : Name) (c : ℕ)
      → 0 < count c w.lent
      → Step w (record w {
        shard = (put_conn closed_before w.closed now addr (some c) w.shard).0;
        lent = give_up c w.lent;
        gone = (put_conn closed_before w.closed now addr (some c) w.shard).1 ++ w.gone;
      })
  discard :
      (c : ℕ)
      → 0 < count c w.lent
      → Step w (record w { lent = give_up c w.lent; gone = c ∷ w.gone })
  clean :
      (now : ℕ)
      → Step w (record w {
        shard = (cleanup_shard now w.shard).0;
        gone = (cleanup_shard now w.shard).1 ++ w.gone;
      })
  shut : Step w (record w { closed = true })
  sweep :
      w.closed ≡ true
      → Step w (record w {
        shard = (close_shard w.shard).0;
        swept = true;
        gone = (close_shard w.shard).1 ++ w.gone;
      })

pub data Reach (w : World) : World → Type 0 where
  here : Reach w w
  later : {u v : World} → Reach w u → Step u v → Reach w v

abbrev pub start : World
start = record { shard = []; closed = false; swept = false; lent = []; gone = []; opened = [] }

-- Each socket is where it can be used or closed, as often as it was opened.
abbrev pub Accounted : World → Type 0
Accounted w = (c : ℕ) → count c w.lent + held c w.shard + count c w.gone ≡ count c w.opened

count-give_up :
    (c d : ℕ) (l : List ℕ) → 0 < count d l → count c (give_up d l) + count c (d ∷ []) ≡ count c l
unfolding count
count-give_up c d [] h = absurd (omega arith)
count-give_up c d (e ∷ l) h = elim (Bool-cases (e == d)) [
  | inl p ↦ ground (arith, p)
  | inr p ↦
      let more : 0 < count d l = ground (arith, h, p) in ground (arith, p, count-give_up c d l more)
]

Step-Accounted : {w v : World} → Step w v → Accounted w → Accounted v
unfolding count
Step-Accounted {w} (dial c) h = λ d. omega (arith, h d)
Step-Accounted {w} (take_out addr) h = λ d. omega (
  arith,
  h d,
  take_conn-held d addr w.shard,
  count-append d (option_list ((take_conn addr w.shard).1)) w.lent,
)
Step-Accounted {w} (put_back before now addr c i) h = λ d. omega (
  arith,
  h d,
  count-give_up d c w.lent i,
  put_conn-held before w.closed now d addr (some c) w.shard,
  count-append d ((put_conn before w.closed now addr (some c) w.shard).1) w.gone,
)
Step-Accounted {w} (discard c i) h = λ d. omega (arith, h d, count-give_up d c w.lent i)
Step-Accounted {w} (clean now) h = λ d. omega (
  arith,
  h d,
  cleanup_shard-held now d w.shard,
  count-append d ((cleanup_shard now w.shard).1) w.gone,
)
Step-Accounted {w} shut h = h
Step-Accounted {w} (sweep e) h = λ d. omega (
  arith,
  h d,
  (close_shard-held d w.shard).1,
  ap (held d) (close_shard-held d w.shard).0,
  count-append d ((close_shard w.shard).1) w.gone,
)

take_conn-empty : (addr : Name) → (take_conn addr []).0 ≡ []
unfolding take_conn find last
take_conn-empty addr = refl

put_conn-closed :
    (before : Bool) (now : ℕ) (addr : Name) (c : ℕ) (s : PoolShard)
    → (put_conn before true now addr (some c) s).0 ≡ s
unfolding put_conn
put_conn-closed true now addr c s = refl
put_conn-closed false now addr c s = refl

cleanup_shard-empty : (now : ℕ) → (cleanup_shard now []).0 ≡ []
unfolding cleanup_shard
cleanup_shard-empty now = refl

Quiet : World → Type 0
Quiet w = w.swept ≡ true → (w.closed ≡ true) × (w.shard ≡ [])

Step-Quiet : {w v : World} → Step w v → Quiet w → Quiet v
unfolding Quiet
Step-Quiet (dial c) q = q
Step-Quiet (take_out addr) q =
    λ e. ((q e).0, ap (λ (s : PoolShard). (take_conn addr s).0) (q e).1 ∙ take_conn-empty addr)
Step-Quiet {w} (put_back before now addr c i) q = λ e. (
  (q e).0,
  ap (λ (b : Bool). (put_conn before b now addr (some c) w.shard).0) (q e).0
      ∙ put_conn-closed before now addr c w.shard
      ∙ (q e).1,
)
Step-Quiet (discard c i) q = q
Step-Quiet (clean now) q = λ e.
    ((q e).0, ap (λ (s : PoolShard). (cleanup_shard now s).0) (q e).1 ∙ cleanup_shard-empty now)
Step-Quiet shut q = λ e. (refl, (q e).1)
Step-Quiet {w} (sweep closed) q = λ e. (closed, (close_shard-held 0 w.shard).0)

Reach-Sound : {w v : World} → Reach w v → Accounted w × Quiet w → Accounted v × Quiet v
Reach-Sound here h = h
Reach-Sound (later r st) h = let (a, q) = Reach-Sound r h in (Step-Accounted st a, Step-Quiet st q)

-- However Get, Put, Discard, the clean-up and Close follow each other: every socket opened is with one
-- caller, in the shard, or closed, once for each time that it was opened; and from the time that Close
-- has emptied the shard on, the shard stays empty, even if a Put had found the pool open before.
pub pool_sound : {w : World} → Reach start w → Accounted w × (w.swept ≡ true → w.shard ≡ [])
unfolding Quiet count
pool_sound r =
    let (a, q) = Reach-Sound r ((λ c. count_none c), (λ e. absurd (false≢true e))) in
    (a, λ e. (q e).1)
  where
    count_none : (c : ℕ) → count c [] + 0 + count c [] ≡ count c []
    count_none c = omega (arith)
