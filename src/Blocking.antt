-- ===== src/Blocking.antt =====
-- pkg/dnscrypt/plugin_block_name.go and plugin_allow_name.go: blocking and allowing names by the rules
-- of a PatternMatcher, and NormalizeQName of dnsutils.go. A rule's value is a pointer to weekly ranges,
-- never nil as an `any`, so it is an `Option W` within the matcher's values; `time_ok` is their Match.
pub mod Aliases
use mathlib.Core.List.{reverse}
use proksitool.Base.{
  ℕ, zero, suc, ◌+◌, ◌-◌, ◌≡◌, Bool, true, false, not, ◌&&◌, ◌||◌, ◌==◌, List, [], ◌∷◌, ◌++◌, map,
  Option, none, some, ltb, leb, if◌then◌else◌, Outcome, ok, err, panic, out_of_fuel,
}
use proksitool.Trie.Domain.{Name, name_eq}
use proksitool.Patterns.{PrefixTrie, Matcher, Verdict, eval}

-- What the log of a rejection comes to: `internal_flow` for a query without a client.
pub data Logged : Type 0 where
  no_logger : Logged
  internal_flow : Logged
  written : Logged
  log_failed : Logged

pub data BlockError : Type 0 where
  not_written : BlockError
  not_ascii : BlockError

-- The fields of PluginsState: the name, "whitelisted" in its session data, and whether the action and
-- the return code are those of a rejection.
pub record State : Type 0 where
  pub q_name : Name
  pub whitelisted : Bool
  pub rejected : Bool

unfoldable pub all_ascii : Name → Bool
all_ascii [] = true
all_ascii (c ∷ s) = ltb c 128 && all_ascii s

unfoldable pub lower_ascii : ℕ → ℕ
lower_ascii c = if leb b'A' c && leb c b'Z' then c + 32 else c

-- `strings.TrimSuffix(s, ".")`.
unfoldable pub trim_last_dot : Name → Name
trim_last_dot [] = []
trim_last_dot (c ∷ []) = if c == b'.' then [] else c ∷ []
trim_last_dot (c ∷ d ∷ s) = c ∷ trim_last_dot (d ∷ s)

unfoldable pub lower_name : Name → Name
unfolding lower_ascii trim_last_dot
lower_name s = map lower_ascii (trim_last_dot s)

-- Without an upper-case letter the loop of the second half writes what it reads.
unfoldable pub normalize_qname : Name → Outcome BlockError Name
normalize_qname s =
    if name_eq s [] || name_eq s (b'.' ∷ [])
    then ok (b'.' ∷ [])
    else if not (all_ascii (trim_last_dot s))
    then err not_ascii
    else ok (lower_name s)

-- A record of an answer: its class, type, priority and target, as far as it has them.
pub record Alias : Type 0 where
  pub class : ℕ
  pub rr_type : ℕ
  pub priority : ℕ
  pub target : Name

-- CNAME, or SVCB or HTTPS with priority zero, of class INET.
unfoldable pub alias_of : Alias → Option Name
alias_of rr =
    if not (rr.class == 1)
    then none
    else if rr.rr_type == 5
    then some rr.target
    else if (rr.rr_type == 64) && (rr.priority == 0)
    then some rr.target
    else if (rr.rr_type == 65) && (rr.priority == 0)
    then some rr.target
    else none

unfoldable pub with_alias : Option Name → Name → Name
with_alias none reason = reason
with_alias (some alias) reason =
    reason
    ++ (b' ' ∷ b'(' ∷ b'a' ∷ b'l' ∷ b'i' ∷ b'a' ∷ b's' ∷ b' ' ∷ b'f' ∷ b'o' ∷ b'r' ∷ b' ' ∷ b'['
        ∷ [])
    ++ alias
    ++ (b']' ∷ b')' ∷ [])

unfoldable pub after_log : Logged → Outcome BlockError Bool
after_log no_logger = ok true
after_log internal_flow = ok false
after_log written = ok true
after_log log_failed = err not_written

module _ {W : Type 0} (time_ok : W → Bool) where
  -- Whether a verdict stands at this time.
  unfoldable pub stands : Verdict (Option W) → Bool
  stands none = false
  stands (some (reason, none)) = true
  stands (some (reason, some none)) = true
  stands (some (reason, some (some w))) = time_ok w

  unfoldable pub reason_of : Verdict (Option W) → Name
  reason_of none = []
  reason_of (some (reason, v)) = reason

module _ {W T : Type 0} (pt : PrefixTrie (Option W) T) (glob_match : Name → Name → Option Bool)
    (time_ok : W → Bool) (log : Name → Name → Logged) (rules : Matcher (Option W) T) where
  -- Of BlockedNames, by name and reason.
  unfoldable pub check : State → Name → Option Name → State × Outcome BlockError Bool
  check s q alias =
      let verdict = eval pt glob_match q rules in
      if not (stands time_ok verdict) then (s, ok false) else (
        record s { rejected = true },
        after_log (log q (with_alias alias (reason_of time_ok verdict))),
      )

  -- Eval of PluginBlockName.
  unfoldable pub block_query : State → State × Outcome BlockError Bool
  block_query s = if s.whitelisted then (s, ok false) else check s s.q_name none

  -- Eval of PluginAllowName.
  unfoldable pub allow_query : State → State × Outcome BlockError Bool
  allow_query s =
      let verdict = eval pt glob_match s.q_name rules in
      if not (stands time_ok verdict)
      then (s, ok false)
      else (record s { whitelisted = true }, after_log (log s.q_name (reason_of time_ok verdict)))

  -- The loop of PluginBlockNameResponse, with `left` for aliasesLeft.
  unfoldable pub check_aliases : ℕ → List Alias → State → State × Outcome BlockError Bool
  check_aliases left [] s = (s, ok false)
  check_aliases left (rr ∷ l) s = elim (alias_of rr) [
    | none ↦ check_aliases left l s
    | some target ↦ elim (normalize_qname target) [
      | err e ↦ (s, err e)
      | panic ↦ (s, panic)
      | out_of_fuel ↦ (s, out_of_fuel)
      | ok name ↦
          let (t, blocked) = check s name (some s.q_name) in
          let rest = check_aliases (left - 1) l t in
          elim blocked [ ok false ↦ if left - 1 == 0 then (t, ok false) else rest | b ↦ (t, b) ]
    ]
  ]

  unfoldable pub block_response : List Alias → State → State × Outcome BlockError Bool
  block_response answers s = if s.whitelisted then (s, ok false) else check_aliases 8 answers s
