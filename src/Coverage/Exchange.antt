-- ===== src/Coverage/Exchange.antt =====
-- One HTTP exchange of coverage/client.go (`doOnce`), the client with its defaults, the length of the
-- waits between attempts, and the client of the sweeper (gc/sweeper.go).
use Prim.Native.String.{◌++◌ as append, len, slice}
use obsideo_provider.Base.{
  ℕ, zero, suc, Option, none, some, List, [], ◌∷◌, String, ◌&&◌, ltb, leb, if◌then◌else◌, Result,
  ok, err,
}
use obsideo_provider.Base.Int.{pos, ◌*ℤ◌}
use obsideo_provider.Base.Time.{Duration, to_int64, shorter}
use obsideo_provider.Gc.Recheck.{
  QueryError, deadline_exceeded, non_retryable, message, Recheck, recheck_answer,
}
use obsideo_provider.Coverage.Client.{Response, query_roots}

pub record Client : Type 0 where
  pub coord_url : String
  pub api_key : String
  pub max_retries : ℕ
  pub backoff_floor : Duration
  pub backoff_ceiling : Duration

-- `NewClient`; `trim_right` is strings.TrimRight with "/".
unfoldable pub new_client : (trim_right : String → String) → String → String → Client
new_client trim_right coord_url api_key = record {
  coord_url = trim_right coord_url;
  api_key = api_key;
  max_retries = 3;
  backoff_floor = pos 1000000000;
  backoff_ceiling = pos 30000000000;
}

-- `DefaultClient`: the sweeper asks once.
unfoldable pub default_client : (trim_right : String → String) → String → String → Client
unfolding new_client
default_client trim_right coord_url api_key = record (new_client trim_right coord_url api_key) {
  max_retries = 0;
}

-- The loop of `backoffDuration`, `rounds` doublings left; a product wraps around as an int64.
unfoldable pub backoff_loop : (rounds : ℕ) → (ceiling d : Duration) → Duration
backoff_loop zero ceiling d = if shorter ceiling d then ceiling else d
backoff_loop (suc rounds) ceiling d =
    let doubled = to_int64 (d *ℤ pos 2) in
    let rest = backoff_loop rounds ceiling doubled in
    if shorter ceiling doubled then ceiling else rest

-- `backoffDuration`; the first attempt waits as the second does.
unfoldable pub backoff_duration : Client → (attempt : ℕ) → Duration
unfolding backoff_loop
backoff_duration c zero = backoff_loop zero c.backoff_ceiling c.backoff_floor
backoff_duration c (suc n) = backoff_loop n c.backoff_ceiling c.backoff_floor

-- An error of a call: the deadline of the context, or another, by its text.
pub data CallError : Type 0 where
  deadline : CallError
  other : String → CallError

-- What one attempt meets: no request can be built, the transport fails, or a response comes, whose
-- body may not be read to its end.
pub data Exchange : Type 0 where
  no_request : String → Exchange
  transport_failed : CallError → Exchange
  responded : (status : ℕ) → (body : String) → (read_error : Option CallError) → Exchange

-- strconv and encoding/json, the latter with the text of its error.
pub record ClientCodec : Type 0 where
  pub itoa : ℕ → String
  pub unmarshal : String → Result String Response

-- fmt.Errorf with %w: the text before, and the error wrapped.
unfoldable pub wrapped : String → CallError → QueryError
wrapped before deadline = deadline_exceeded
wrapped before (other text) = message (append before text)

-- `truncate`; the text of a body has one character for each byte.
unfoldable pub truncate : String → ℕ → String
truncate b n = if leb (len b) n then b else append (slice b 0 n) "..."

module _ (k : ClientCodec) where
  -- `doOnce`
  unfoldable pub do_once : Exchange → Result QueryError Response
  unfolding truncate wrapped
  do_once (no_request text) = err (message (append "new request: " text))
  do_once (transport_failed e) = err (wrapped "http: " e)
  do_once (responded status body read_error) =
      if leb 400 status && ltb status 500
      then err non_retryable
      else if leb 500 status
      then err
          (message (append (append (append "coord " (k.itoa status)) ": ") (truncate body 256)))
      else (elim read_error [
        | some e ↦ err (wrapped "read body: " e)
        | none ↦ elim (k.unmarshal body) [
          | err text ↦ err (message (append "decode response: " text))
          | ok resp ↦ ok resp
        ]
      ])

  -- `QueryRoots` over the exchanges; `stopped` is the error of a context that ends in a wait.
  unfoldable pub ask_roots :
      Client
      → (exchanges : ℕ → Exchange) → (stopped : ℕ → Option QueryError) → List String
      → Result QueryError Response
  unfolding do_once
  ask_roots c exchanges stopped roots =
      query_roots c.max_retries (record { once = λ n. do_once (exchanges n); stopped = stopped })
        roots

  -- `clientRechecker.Recheck` with the client of the sweeper.
  unfoldable pub live_recheck :
      (trim_right : String → String)
      → (coord_url api_key : String) → (exchanges : ℕ → Exchange)
      → (stopped : ℕ → Option QueryError) → String
      → Recheck
  unfolding ask_roots
  live_recheck trim_right coord_url api_key exchanges stopped merkle =
      recheck_answer merkle
        (ask_roots (default_client trim_right coord_url api_key) exchanges stopped (merkle ∷ []))
