-- ===== src/Gc/Recheck.antt =====
-- The live question of gc/sweeper.go, over the coverage client's answer (coverage/client.go).
use text.Mathlib.Text.{find?}
use obsideo_provider.Base.{
  ◌≡◌, Option, none, some, List, String, Bool, true, not, if◌then◌else◌, Result, ok, err, is_some,
  arith,
}
use obsideo_provider.Base.Dir.{lookup}

pub record RootStatus : Type 0 where
  pub status : String
  pub reclaimable : Option Bool
  pub contracted : Bool
  pub until : String
  pub reason : String

-- `MayReclaim`: the retention answer if the coordinator sent it, else the paid-only answer.
unfoldable pub may_reclaim : RootStatus → Bool
may_reclaim rs = elim rs.reclaimable [ none ↦ not rs.contracted | some b ↦ b ]

unfoldable pub coord_sent_reclaimable : RootStatus → Bool
coord_sent_reclaimable rs = is_some rs.reclaimable

-- The errors of `QueryRoots`, as far as they are told apart: the deadline, a status 4xx, and any
-- other by the text of its message.
pub data QueryError : Type 0 where
  deadline_exceeded non_retryable : QueryError
  message : String → QueryError

-- strings.Contains
abbrev contains : String → String → Bool
contains s t = is_some (find? s t)

unfoldable pub classify_recheck_error : QueryError → String
classify_recheck_error deadline_exceeded = "timeout"
classify_recheck_error non_retryable = "parse"
classify_recheck_error (message msg) =
    if contains msg "Client.Timeout"
    then "timeout"
    else if contains msg "deadline exceeded"
    then "timeout"
    else if contains msg "coord 5"
    then "5xx"
    else if contains msg "decode response"
    then "parse"
    else "network"

-- What the sweeper learns: the object is retained, it may be reclaimed, or no usable answer, with
-- the label under which this is counted.
pub data Recheck : Type 0 where
  retained reclaimable : Recheck
  unusable : String → Recheck

-- `clientRechecker.Recheck`, from the outcome of the query for this one root.
unfoldable pub recheck_answer : String → Result QueryError (List (String × RootStatus)) → Recheck
unfolding may_reclaim coord_sent_reclaimable classify_recheck_error
recheck_answer merkle (err e) = unusable (classify_recheck_error e)
recheck_answer merkle (ok resp) = elim (lookup merkle resp) [
  | none ↦ unusable "parse"
  | some rs ↦
      if not (coord_sent_reclaimable rs)
      then unusable "no_reclaimable_field"
      else if may_reclaim rs
      then reclaimable
      else retained
]

-- The sweeper may delete exactly on an explicit `reclaimable: true` for the very root asked about:
-- no error, no missing root and no paid-only answer counts as one.
pub recheck_answer-reclaimable :
    (merkle : String) (answer : Result QueryError (List (String × RootStatus)))
    → recheck_answer merkle answer ≡ reclaimable
    → (resp : List (String × RootStatus)) × (rs : RootStatus) × (answer ≡ ok resp)
      × (lookup merkle resp ≡ some rs)
      × (rs.reclaimable ≡ some true)
unfolding recheck_answer
recheck_answer-reclaimable merkle answer h = ground arith
