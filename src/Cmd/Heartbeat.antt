-- ===== src/Cmd/Heartbeat.antt =====
-- cmd/heartbeat.go: what one beat tells the coordinator, and which failures are logged.
use obsideo_provider.Base.{
  ℕ, ◌+◌, ◌<◌, ◌≤◌, Option, none, some, List, [], ◌∷◌, ◌++◌, String, Bool, true, false, not, ◌&&◌,
  ◌||◌, ◌==◌, ltb, leb, str_eq, if◌then◌else◌, is_some,
}
use obsideo_provider.Base.Int.{ℤ, pos}
use obsideo_provider.Base.Time.{Time, Duration, sub, shorter}
use obsideo_provider.Base.Dir.{insert}
use obsideo_provider.Store.Disk.{Disk}
use obsideo_provider.Store.Objects.{used_bytes}
pub mod Laws

-- warnThrottle, in nanoseconds: five minutes.
abbrev pub warn_throttle : ℕ
warn_throttle = 300000000000

pub record HeartbeatState : Type 0 where
  pub ever_succeeded : Bool
  pub consec_failures : ℕ
  pub last_warn_at : Time

-- The zero value; the zero instant lies before every other.
abbrev pub fresh : HeartbeatState
fresh = record { ever_succeeded = false; consec_failures = 0; last_warn_at = 0 }

-- `recordSuccess`: whether it is the first, and whether it ends a streak of failures.
unfoldable pub record_success : HeartbeatState → Bool × Bool × HeartbeatState
record_success s = (
  not s.ever_succeeded,
  s.ever_succeeded && ltb 0 s.consec_failures,
  record s { ever_succeeded = true; consec_failures = 0 },
)

-- `recordFailure`: whether to warn, and the number of failures in a row.
unfoldable pub record_failure : Time → HeartbeatState → Bool × ℕ × HeartbeatState
record_failure now s =
    let count : ℕ = s.consec_failures + 1 in
    let warns : Bool = (count == 1) || not (shorter (sub now s.last_warn_at) (pos warn_throttle)) in
    (
      warns,
      count,
      record s { consec_failures = count; last_warn_at = if warns then now else s.last_warn_at },
    )

-- A field of the JSON object.
pub data Value : Type 0 where
  number : ℕ → Value
  text : String → Value

abbrev set_text : String → String → List (String × Value) → List (String × Value)
set_text key value body = if str_eq value "" then body else insert key (text value) body

-- `buildPayload`, before json.Marshal.
unfoldable pub build_payload :
    (used_bytes disk_free_bytes : ℕ)
    → (noble_wallet provider_version signing_pub_key : String) → List (String × Value)
build_payload used_bytes disk_free_bytes noble_wallet provider_version signing_pub_key =
    set_text "signing_public_key" signing_pub_key (
      set_text "provider_version" provider_version (
        set_text "noble_wallet_address" noble_wallet (
          insert "disk_free_bytes" (number disk_free_bytes)
            (insert "used_bytes" (number used_bytes) []))))

-- `gatherMetrics`: a value that cannot be read is sent as 0. `walks` says whether objects/ can be
-- read, `free` what the system says of the free space.
pub record Gathered : Type 0 where
  pub used : ℕ
  pub free : ℕ
  pub errors : ℕ

unfoldable pub gather_metrics : (walks : Bool) → (free : Option ℕ) → Disk → Gathered
gather_metrics walks free disk = record {
  used = if walks then used_bytes disk else 0;
  free = elim free [ none ↦ 0 | some n ↦ n ];
  errors = (if walks then 0 else 1) + (if is_some free then 0 else 1);
}

-- What is fixed for the loop.
pub record Beat : Type 0 where
  pub noble_wallet : String
  pub provider_version : String
  pub signing_pub_key : String

-- What one tick meets. `status` is the status of the response, `none` if there is none.
pub record Tick : Type 0 where
  pub walks : Bool
  pub free : Option ℕ
  pub marshals : Bool
  pub builds_request : Bool
  pub status : Option ℕ
  pub now : Time

pub data Log : Type 0 where
  metric_warnings : ℕ → Log
  marshal_failed request_failed send_failed : ℕ → Log
  bad_status : ℕ → ℕ → Log
  first_success recovered : Log

-- The payload handed to the client, the lines of the log, and the next state.
pub record Ticked : Type 0 where
  pub sent : Option (List (String × Value))
  pub logs : List Log
  pub state : HeartbeatState

-- A failure is counted, and logged if it is to be warned of.
unfoldable pub failed : Option (List (String × Value)) → (ℕ → Log) → Time → HeartbeatState → Ticked
unfolding record_failure
failed sent line now s =
    let (warns, count, s') = record_failure now s in
    record { sent = sent; logs = if warns then line count ∷ [] else []; state = s' }

unfoldable pub succeeded : List (String × Value) → HeartbeatState → Ticked
unfolding record_success
succeeded payload s =
    let (first, back, s') = record_success s in
    record {
      sent = some payload;
      logs = if first then first_success ∷ [] else if back then recovered ∷ [] else [];
      state = s';
    }

-- From the marshalled payload on.
unfoldable pub send_heartbeat : Tick → List (String × Value) → HeartbeatState → Ticked
unfolding failed succeeded
send_heartbeat t payload s =
    if not t.marshals
    then failed none marshal_failed t.now s
    else if not t.builds_request
    then failed none request_failed t.now s
    else (elim t.status [
      | none ↦ failed (some payload) send_failed t.now s
      | some status ↦
          if ltb status 200 || leb 300 status
          then failed (some payload) (bad_status status) t.now s
          else succeeded payload s
    ])

abbrev metric_logs : ℕ → List Log
metric_logs errors = if errors == 0 then [] else metric_warnings errors ∷ []

-- `tickHeartbeat`
unfoldable pub tick_heartbeat : Beat → Disk → Tick → HeartbeatState → Ticked
unfolding gather_metrics build_payload send_heartbeat
tick_heartbeat b disk t s =
    let m = gather_metrics t.walks t.free disk in
    let ticked =
      send_heartbeat t
        (build_payload m.used m.free b.noble_wallet b.provider_version b.signing_pub_key) s in
    record ticked { logs = metric_logs m.errors ++ ticked.logs }
