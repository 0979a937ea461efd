-- ===== src/Dnscrypt/Answers.antt =====
-- pkg/dnscrypt/plugin_cache.go, and the functions of dnsutils.go that it uses or that check a response.
-- Times are in nanoseconds. SHA-512/256, the sieve cache and EqualName are parameters.
pub mod Served
use proksitool.Base.{
  ℕ, ◌+◌, ◌-◌, ◌*◌, ◌/◌, ◌%◌, ◌^◌, Bool, true, false, not, ◌&&◌, ◌||◌, ◌==◌, List, [], ◌∷◌, ◌++◌,
  map, Option, none, some, ltb, leb, min, max, if◌then◌else◌, Outcome, ok, err, panic, out_of_fuel,
  ◌>>=◌,
}
use proksitool.Trie.Domain.{Name}

pub record Question : Type 0 where
  pub name : Name
  pub qtype : ℕ
  pub class : ℕ

pub record ResourceRecord : Type 0 where
  pub rr_type : ℕ
  pub ttl : ℕ
  pub rdata : List ℕ

-- `dns.Msg`, as far as these functions read it.
pub record Message : Type 0 where
  pub id : ℕ
  pub response : Bool
  pub truncated : Bool
  pub rcode : ℕ
  pub question : List Question
  pub answer : List ResourceRecord
  pub ns : List ResourceRecord
  pub extra : List ResourceRecord

pub data AnswerError : Type 0 where
  unexpected_questions : AnswerError
  question_mismatch : AnswerError
  not_a_response : AnswerError
  id_mismatch : AnswerError
  no_cache : AnswerError

-- validateResponseQuestion and validateResponseForQuery of messages that are there.
unfoldable pub validate_response_question :
    (Name → Name → Bool) → List Question → List Question → Outcome AnswerError (Unit {0})
validate_response_question equal_name (q ∷ []) (r ∷ []) =
    if not (q.qtype == r.qtype) || not (q.class == r.class) || not (equal_name q.name r.name)
    then err question_mismatch
    else ok tt
validate_response_question equal_name _ _ = err unexpected_questions

unfoldable pub validate_response_for_query :
    (Name → Name → Bool) → Message → Message → Outcome AnswerError (Unit {0})
validate_response_for_query equal_name query response =
    if not response.response
    then err not_a_response
    else if not (response.id == query.id)
    then err id_mismatch
    else validate_response_question equal_name query.question response.question

unfoldable pub normalize_byte : ℕ → ℕ
normalize_byte c = if leb 65 c && leb c 90 then c + 32 else c

unfoldable pub normalize_raw_qname : Name → Name
normalize_raw_qname name = map normalize_byte name

unfoldable pub cache_key_of : (List ℕ → List ℕ) → Bool → Question → List ℕ
cache_key_of hash dnssec q = hash (
    (q.qtype % 256
      ∷ q.qtype / 256 % 256
      ∷ q.class % 256
      ∷ q.class / 256 % 256
      ∷ (if dnssec then 1 else 0)
      ∷ [])
    ++ normalize_raw_qname q.name)

-- `msg.Question[0]`
unfoldable pub compute_cache_key : (List ℕ → List ℕ) → Bool → Message → Outcome AnswerError (List ℕ)
compute_cache_key hash dnssec msg = elim msg.question [
  | [] ↦ panic
  | q ∷ more ↦ ok (cache_key_of hash dnssec q)
]

-- The four limits of the configuration, in seconds.
pub record Limits : Type 0 where
  pub min_ttl : ℕ
  pub max_ttl : ℕ
  pub neg_min_ttl : ℕ
  pub neg_max_ttl : ℕ

unfoldable pub lowest_ttl : ℕ → List ResourceRecord → ℕ
lowest_ttl ttl [] = ttl
lowest_ttl ttl (rr ∷ l) = lowest_ttl (if ltb rr.ttl ttl then rr.ttl else ttl) l

-- The records whose TTLs count.
unfoldable pub counted : Message → List ResourceRecord
counted msg = elim msg.answer [ [] ↦ msg.ns | rr ∷ l ↦ rr ∷ l ]

unfoldable pub is_empty : List ResourceRecord → Bool
is_empty [] = true
is_empty (rr ∷ l) = false

-- In nanoseconds.
unfoldable pub get_min_ttl : Message → Limits → ℕ
unfolding counted
get_min_ttl msg limits =
    1000000000
    * (if (not (msg.rcode == 0) && not (msg.rcode == 3)) || (is_empty msg.answer && is_empty msg.ns)
        then limits.neg_min_ttl
        else if msg.rcode == 0
        then max (lowest_ttl limits.max_ttl (counted msg)) limits.min_ttl
        else max (lowest_ttl limits.neg_max_ttl (counted msg)) limits.neg_min_ttl)

-- The TTL for the time that is left, to the nearest second.
unfoldable pub ttl_until : ℕ → ℕ
ttl_until left =
    let ttl = left / 1000000000 % 2 ^ 32 in
    if leb 500000000 (left - ttl * 1000000000) then (ttl + 1) % 2 ^ 32 else ttl

unfoldable pub set_ttl : ℕ → ResourceRecord → ResourceRecord
set_ttl ttl rr = record rr { ttl = ttl }

-- An OPT record has no TTL.
unfoldable pub set_extra_ttl : ℕ → ResourceRecord → ResourceRecord
set_extra_ttl ttl rr = if rr.rr_type == 41 then rr else record rr { ttl = ttl }

unfoldable pub update_ttl : ℕ → ℕ → Message → Message
unfolding ttl_until
update_ttl now expiration msg = record msg {
  answer = map (set_ttl (ttl_until (expiration - now))) msg.answer;
  ns = map (set_ttl (ttl_until (expiration - now))) msg.ns;
  extra = map (set_extra_ttl (ttl_until (expiration - now))) msg.extra;
}

pub record CachedResponse : Type 0 where
  pub expiration : ℕ
  pub msg : Message

-- `sievecache`: a cache of a given size, `none` for the error; a read may move things about.
pub record Sieve (C : Type 0) : Type 0 where
  pub new_sharded : ℕ → Option C
  pub get : List ℕ → C → C × Option CachedResponse
  pub insert : List ℕ → CachedResponse → C → C

-- `CachedResponses`: whether `cacheOnce` has run, and the cache.
pub record CachedResponses (C : Type 0) : Type 0 where
  pub started : Bool
  pub cache : Option C

-- What a query finds: an answer, or a stale one that is kept for a failure.
pub data Found : Type 0 where
  nothing : Found
  stale : Message → Found
  hit : Message → Found

-- Thirty seconds.
abbrev pub stale_response_ttl : ℕ
stale_response_ttl = 30000000000

-- The copy of a cached message for a query. Copy shares the records with the cached message; each reader
-- sets their TTLs before it serves them, so what another one left there is not seen.
unfoldable pub synthesize : Message → CachedResponse → Message
synthesize query cached = record cached.msg {
  id = query.id;
  response = true;
  question = query.question;
}

unfoldable pub found : ℕ → Message → Option CachedResponse → Found
found now query none = nothing
found now query (some cached) =
    if ltb cached.expiration now
    then stale (update_ttl now (now + stale_response_ttl) (synthesize query cached))
    else hit (update_ttl now cached.expiration (synthesize query cached))

unfoldable pub cacheable : Message → Bool
cacheable msg = ((msg.rcode == 0) || (msg.rcode == 3) || (msg.rcode == 9)) && not msg.truncated

module _ {C : Type 0} (sieve : Sieve C) (hash : List ℕ → List ℕ) where
  -- Eval of the reader.
  unfoldable pub read_cache :
      Bool → ℕ → Message → CachedResponses C → Outcome AnswerError (CachedResponses C × Found)
  read_cache dnssec now query s = do
    key ← compute_cache_key hash dnssec query
    ok (elim s.cache [
      | none ↦ (s, nothing)
      | some c ↦
          let (c', cached) = sieve.get key c in
          (record s { cache = some c' }, found now query cached)
    ])

  -- `cacheOnce.Do`, and whether it failed now; after a failure there is no cache for good.
  unfoldable pub start : ℕ → CachedResponses C → CachedResponses C × Bool
  start size s = if s.started then (s, false) else elim (sieve.new_sharded size) [
    | none ↦ (record { started = true; cache = none }, true)
    | some c ↦ (record { started = true; cache = some c }, false)
  ]

  unfoldable pub put : List ℕ → CachedResponse → CachedResponses C → CachedResponses C
  put key cached s = elim s.cache [
    | none ↦ s
    | some c ↦ record s { cache = some (sieve.insert key cached c) }
  ]

  unfoldable pub store_response :
      ℕ
      → Limits
      → ℕ
      → Message
      → CachedResponses C
      → Outcome AnswerError (List ℕ)
      → CachedResponses C × Outcome AnswerError Message
  unfolding get_min_ttl
  store_response size limits now msg s (ok key) =
      let (started, failed) = start size s in
      if failed then (started, err no_cache) else (
        put key (record { expiration = now + get_min_ttl msg limits; msg = msg }) started,
        ok (update_ttl now (now + get_min_ttl msg limits) msg),
      )
  store_response size limits now msg s (err e) = (s, err e)
  store_response size limits now msg s panic = (s, panic)
  store_response size limits now msg s out_of_fuel = (s, out_of_fuel)

  -- Eval of the writer: the cache, and the response with its TTLs.
  unfoldable pub write_cache :
      Bool
      → ℕ
      → Limits
      → ℕ
      → Message
      → CachedResponses C
      → CachedResponses C × Outcome AnswerError Message
  write_cache dnssec size limits now msg s =
      if not (cacheable msg)
      then (s, ok msg)
      else store_response size limits now msg s (compute_cache_key hash dnssec msg)
