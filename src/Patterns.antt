-- ===== src/Patterns.antt =====
-- pkg/dnscrypt/pattern_matcher.go, and StringReverse of pkg/dnscrypt/common.go. A string is the list
-- of its bytes, which are ASCII, so that bytes and runes are the same. The crit-bit trie and
-- filepath.Match are parameters; a value of type `any` is an `Option V`, nil being `none`.
pub mod Labels
pub mod Evaluated
pub mod Applied
pub mod Added
use mathlib.Core.List.{reverse}
use proksitool.Base.{
  ℕ, zero, suc, ◌+◌, ◌-◌, ◌≤◌, ◌≡◌, Bool, true, false, not, ◌&&◌, ◌||◌, ◌==◌, List, [], ◌∷◌, ◌++◌,
  Option, none, some, ltb, leb, length, if◌then◌else◌, Outcome, ok, err, ◌>>=◌, get_elem?, take,
  drop, map,
}
use proksitool.Cache.Entries.{find, remove}
use proksitool.Trie.Domain.{Name, name_eq}

abbrev pub IsPrefix : Name → Name → Type 0
IsPrefix k q = (rest : Name) × (q ≡ k ++ rest)

-- What the code uses of `critbitgo.Trie`; `longest_prefix` gives the key found and its value.
pub record PrefixTrie (V T : Type 0) : Type 0 where
  pub insert : Name → Option V → T → T
  pub longest_prefix : T → Name → Option (Name × Option V)

-- What the library says of them: a trie holds a value for some keys, an insertion leaves a key that is
-- there alone, and the key found is the longest that begins the name.
pub record PrefixTrieLaws {V T : Type 0} (pt : PrefixTrie V T) : Type 0 where
  pub value : T → Name → Option (Option V)
  pub value-insert :
      (k q : Name) (v : Option V) (t : T)
      → value (pt.insert k v t) q
        ≡ (if name_eq k q then elim (value t k) [ none ↦ some v | some w ↦ some w ] else value t q)
  pub longest_some :
      (t : T) (q k : Name) (v : Option V)
      → pt.longest_prefix t q ≡ some (k, v)
      → (value t k ≡ some v)
        × IsPrefix k q
        × ((j : Name) (w : Option V) → value t j ≡ some w → IsPrefix j q → length j ≤ length k)
  pub longest_none :
      (t : T) (q : Name)
      → pt.longest_prefix t q ≡ none
      → (j : Name) (w : Option V) → value t j ≡ some w
      → ¬ IsPrefix j q

-- `PatternType`; none of the branches leaves PatternTypeNone.
pub data Kind : Type 0 where
  prefix : Kind
  suffix : Kind
  substring : Kind
  glob : Kind
  exact : Kind

pub record Matcher (V T : Type 0) : Type 0 where
  pub prefixes : T
  pub suffixes : T
  pub substrings : List Name
  pub patterns : List Name
  pub exact_vals : List (Name × Option V)
  pub indirect_vals : List (Name × V)

-- `fmt.Errorf("Syntax error in the rule file …")`.
pub data SyntaxError : Type 0 where
  syntax_error : SyntaxError

unfoldable pub starts_with : Name → Name → Bool
starts_with [] q = true
starts_with (b ∷ k) [] = false
starts_with (b ∷ k) (c ∷ q) = (b == c) && starts_with k q

-- `strings.Contains(q, s)`.
unfoldable pub has_substring : Name → Name → Bool
has_substring s [] = starts_with s []
has_substring s (c ∷ q) = starts_with s (c ∷ q) || has_substring s q

-- `strings.LastIndex` of a byte.
unfoldable pub last_index : ℕ → Name → Option ℕ
last_index c [] = none
last_index c (b ∷ s) = elim (last_index c s) [
  | none ↦ if b == c then some 0 else none
  | some i ↦ some (suc i)
]

unfoldable pub lower_byte : ℕ → ℕ
lower_byte b = if leb b'A' b && leb b b'Z' then b + 32 else b

-- The loop of isGlobCandidate from the byte at `i`, in a string of `n` bytes.
unfoldable pub glob_from : ℕ → ℕ → Name → Bool
glob_from i n [] = false
glob_from i n (c ∷ s) =
    let rest = glob_from (i + 1) n s in
    if (c == b'?') || (c == b'[')
    then true
    else if (c == b'*') && not (i == 0) && not (i == n - 1)
    then true
    else rest

unfoldable pub is_glob_candidate : Name → Bool
is_glob_candidate s = glob_from 0 (length s) s

-- `strings.HasSuffix(s, string(b))`, and HasPrefix.
unfoldable pub ends_with_byte : ℕ → Name → Bool
ends_with_byte b s = elim (reverse s) [ [] ↦ false | c ∷ r ↦ c == b ]

unfoldable pub starts_with_byte : ℕ → Name → Bool
starts_with_byte b [] = false
starts_with_byte b (c ∷ s) = c == b

-- `strings.TrimPrefix(s, ".")`.
unfoldable pub trim_dot_prefix : Name → Name
trim_dot_prefix s = if starts_with_byte b'.' s then drop 1 s else s

unfoldable pub nonempty : Kind × Name → Outcome SyntaxError (Kind × Name)
nonempty (kind, []) = err syntax_error
nonempty (kind, b ∷ s) = ok (kind, map lower_byte (b ∷ s))

-- The kind of a rule and its pattern, in lower case; `glob_match` is filepath.Match, `none` its error.
unfoldable pub classify : (Name → Name → Option Bool) → Name → Outcome SyntaxError (Kind × Name)
classify glob_match p =
    if is_glob_candidate p
    then if ltb (length p) 2
      then err syntax_error
      else elim (glob_match p
          (b'e' ∷ b'x' ∷ b'a' ∷ b'm' ∷ b'p' ∷ b'l' ∷ b'e' ∷ b'.' ∷ b'c' ∷ b'o' ∷ b'm' ∷ [])) [
            | none ↦ err syntax_error
            | some matched ↦ nonempty (glob, p)
          ]
    else if starts_with_byte b'*' p && ends_with_byte b'*' p
    then if ltb (length p) 3
      then err syntax_error
      else nonempty (substring, drop 1 (take (length p - 1) p))
    else if ends_with_byte b'*' p
    then if ltb (length p) 2 then err syntax_error else nonempty (prefix, take (length p - 1) p)
    else if starts_with_byte b'=' p
    then if ltb (length p) 2 then err syntax_error else nonempty (exact, drop 1 p)
    else nonempty (suffix, trim_dot_prefix (if starts_with_byte b'*' p then drop 1 p else p))

-- A rejection: its reason, and the value of the rule.
abbrev pub Verdict : Type 0 → Type 0
Verdict V = Option (Name × Option V)

-- Whether the match `k`, a prefix of `r`, ends where a label of `r` does.
unfoldable pub at_label : Name → Name → Bool
at_label k r =
    if length k == length r
    then true
    else elim (get_elem? r (length k)) [ none ↦ false | some c ↦ c == b'.' ]

unfoldable pub suffix_reason : Name → Name
suffix_reason k = b'*' ∷ b'.' ∷ reverse k

module _ {V : Type 0} where
  unfoldable pub record_value : Name → Option V → List (Name × V) → List (Name × V)
  record_value p none vals = vals
  record_value p (some v) vals = (p, v) ∷ remove name_eq p vals

  unfoldable pub or_else : Verdict V → Verdict V → Verdict V
  or_else none w = w
  or_else (some v) w = some v

  unfoldable pub label_verdict : Name → Verdict V → Verdict V
  label_verdict r none = none
  label_verdict r (some (k, v)) = if at_label k r then some (suffix_reason k, v) else none

module _ {V T : Type 0} where
  unfoldable pub exact_verdict : Name → Matcher V T → Verdict V
  exact_verdict q m = elim (find name_eq q m.exact_vals) [
    | none ↦ none
    | some none ↦ none
    | some (some v) ↦ some (q, some v)
  ]

  unfoldable pub substring_verdict : Name → List Name → Matcher V T → Verdict V
  substring_verdict q [] m = none
  substring_verdict q (s ∷ l) m =
      let rest = substring_verdict q l m in
      if has_substring s q
      then some (b'*' ∷ s ++ (b'*' ∷ []), find name_eq s m.indirect_vals)
      else rest

  unfoldable pub pattern_verdict :
      (Name → Name → Option Bool) → Name → List Name → Matcher V T → Verdict V
  pattern_verdict glob_match q [] m = none
  pattern_verdict glob_match q (p ∷ l) m =
      let rest = pattern_verdict glob_match q l m in
      elim (glob_match p q) [ some true ↦ some (p, find name_eq p m.indirect_vals) | _ ↦ rest ]

module _ {V T : Type 0} (pt : PrefixTrie V T) where
  unfoldable pub insert_rule : Kind → Name → Option V → Matcher V T → Matcher V T
  unfolding record_value
  insert_rule substring p v m = record m {
    substrings = m.substrings ++ (p ∷ []);
    indirect_vals = record_value p v m.indirect_vals;
  }
  insert_rule glob p v m = record m {
    patterns = m.patterns ++ (p ∷ []);
    indirect_vals = record_value p v m.indirect_vals;
  }
  insert_rule prefix p v m = record m { prefixes = pt.insert p v m.prefixes }
  insert_rule suffix p v m = record m { suffixes = pt.insert (reverse p) v m.suffixes }
  insert_rule exact p v m = record m { exact_vals = (p, v) ∷ remove name_eq p m.exact_vals }

  unfoldable pub add :
      (Name → Name → Option Bool)
      → Name
      → Option V
      → Matcher V T
      → Outcome SyntaxError (Matcher V T)
  add glob_match pattern v m = do
    (kind, p) ← classify glob_match pattern
    ok (insert_rule kind p v m)

  -- The second look, at the reversed name without what follows its last dot.
  unfoldable pub parent_verdict : Name → Matcher V T → Verdict V
  parent_verdict r m = elim (last_index b'.' r) [
    | none ↦ none
    | some i ↦
        if ltb 0 i then label_verdict (take i r) (pt.longest_prefix m.suffixes (take i r)) else none
  ]

  unfoldable pub suffix_verdict : Name → Matcher V T → Verdict V
  suffix_verdict r m = elim (pt.longest_prefix m.suffixes r) [
    | none ↦ none
    | some (k, v) ↦
        if at_label k r
        then some (suffix_reason k, v)
        else if ltb (length k) (length r) && ltb 0 (length r)
        then parent_verdict r m
        else none
  ]

  unfoldable pub prefix_verdict : Name → Matcher V T → Verdict V
  prefix_verdict q m = elim (pt.longest_prefix m.prefixes q) [
    | none ↦ none
    | some (k, v) ↦ some (k ++ (b'*' ∷ []), v)
  ]

  unfoldable pub eval : (Name → Name → Option Bool) → Name → Matcher V T → Verdict V
  eval glob_match q m =
      if ltb (length q) 2
      then none
      else or_else (exact_verdict q m) (
          or_else (suffix_verdict (reverse q) m) (
            or_else (prefix_verdict q m) (
              or_else (substring_verdict q m.substrings m)
                (pattern_verdict glob_match q m.patterns m))))
