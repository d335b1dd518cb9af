-- ===== src/Security/RateLimit.antt =====
-- security/limits.py: `RULES` and `RateLimiter`. A time is a number of microseconds, where the
-- source has a float of seconds; the lock makes each call one step. `hits[0] < current - window`
-- is written without the subtraction.
pub mod Window
pub mod Retry
mod Examples
use Prim.Native.String.{◌++◌ as join_text}
use envelockserver.Prelude.{
  ℕ, ◌+◌, ◌-◌, ◌*◌, ◌/◌, String, Bool, true, false, Option, none, some, List, [], ◌∷◌, ◌++◌, ltb,
  leb, if◌then◌else◌, number_comparable, text_comparable, length,
}
use envelockserver.Prelude.Dict.{Dict, lookup, insert, remove}
use envelockserver.Prelude.Time.{second}

pub record Rule : Type 0 where
  pub limit : ℕ
  pub window : ℕ

abbrev rule : ℕ → ℕ → Rule
rule limit window = record { limit = limit; window = window }

abbrev pub default_rule : Rule
default_rule = rule 120 60

abbrev pub rules : Dict String Rule
rules =
    ("auth.login", rule 10 300)
    ∷ ("auth.register", rule 20 3600)
    ∷ ("auth.mfa", rule 10 300)
    ∷ ("auth.refresh", rule 30 300)
    ∷ ("auth.recovery", rule 5 3600)
    ∷ ("auth.phone", rule 5 3600)
    ∷ ("scan.domain", rule 20 60)
    ∷ ("scan.connect", rule 20 60)
    ∷ ("analyse", rule 30 60)
    ∷ ("export", rule 60 60)
    ∷ ("default", default_rule)
    ∷ []

or_default : Option Rule → Rule
or_default none = default_rule
or_default (some r) = r

pub rule_for : String → Rule
unfolding or_default
rule_for bucket = or_default (lookup bucket rules)

-- `_hits`: a deque for each key, oldest first.
abbrev pub RateLimiter : Type 0
RateLimiter = Dict String (List ℕ)

abbrev pub key_of : String → String → String
key_of bucket identity = join_text bucket (join_text ":" identity)

hits_or_empty : Option (List ℕ) → List ℕ
hits_or_empty none = []
hits_or_empty (some hits) = hits

-- `self._hits[key]` of a `defaultdict(deque)`
pub hits_of : String → RateLimiter → List ℕ
unfolding hits_or_empty
hits_of key state = hits_or_empty (lookup key state)

-- `while hits and hits[0] < cutoff: hits.popleft()`
pub drop_old : ℕ → ℕ → List ℕ → List ℕ
drop_old window current [] = []
drop_old window current (h ∷ hits) =
    let rest = drop_old window current hits in
    if ltb (h + window * second) current then rest else h ∷ hits

oldest : ℕ → List ℕ → ℕ
oldest d [] = d
oldest d (h ∷ hits) = h

-- One call on the deque of its key: the answer, and the deque it leaves.
pub admit : Rule → ℕ → List ℕ → (Bool × ℕ) × List ℕ
unfolding oldest
admit r current hits =
    let kept = drop_old r.window current hits in
    if leb r.limit (length kept)
    then ((false, (oldest 0 kept + r.window * second - current) / second + 1), kept)
    else ((true, 0), kept ++ (current ∷ []))

pub check : String → String → ℕ → RateLimiter → (Bool × ℕ) × RateLimiter
check bucket identity current state =
    let key = key_of bucket identity in
    let (answer, kept) = admit (rule_for bucket) current (hits_of key state) in
    (answer, insert key kept state)

-- `reset`: everything, or one key.
pub reset : Option (String × String) → RateLimiter → RateLimiter
reset none state = []
reset (some (bucket, identity)) state = remove (key_of bucket identity) state
