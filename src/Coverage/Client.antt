-- ===== src/Coverage/Client.antt =====
-- `QueryRoots` of coverage/client.go. The waits between attempts change nothing but the time.
use Prim.Native.String.{◌++◌}
use obsideo_provider.Base.{
  ℕ, zero, suc, ◌+◌, ◌<◌, ◌≤◌, ◌≡◌, Option, none, some, List, [], ◌∷◌, String, arith, Result, ok,
  err, Option-cases, Result-cases, inl, inr,
}
use obsideo_provider.Gc.Recheck.{RootStatus, QueryError, deadline_exceeded, non_retryable, message}

abbrev pub Response : Type 0
Response = List (String × RootStatus)

-- The last error, wrapped.
unfoldable pub exhausted : QueryError → QueryError
exhausted deadline_exceeded = deadline_exceeded
exhausted non_retryable = non_retryable
exhausted (message text) = message ("coverage query: all retries exhausted: " ++ text)

-- What one query meets: the outcome of each attempt (`doOnce`), and the error of the context, if it
-- ends while the client waits before an attempt.
pub record Attempts : Type 0 where
  pub once : ℕ → Result QueryError Response
  pub stopped : ℕ → Option QueryError

abbrev wait : Attempts → ℕ → Option QueryError
wait a zero = none
wait a (suc attempt) = a.stopped (suc attempt)

-- The loop: `rounds` attempts left, `attempt` the number of the next.
unfoldable pub query_loop : Attempts → ℕ → ℕ → QueryError → Result QueryError Response
query_loop a zero attempt last = err (exhausted last)
query_loop a (suc rounds) attempt last = elim (wait a attempt) [
  | some e ↦ err e
  | none ↦ elim (a.once attempt) [
    | ok resp ↦ ok resp
    | err non_retryable ↦ err non_retryable
    | err e ↦ query_loop a rounds (attempt + 1) e
  ]
]

-- `QueryRoots`; the last error is nil at first, and replaced by the first attempt.
unfoldable pub query_roots : (max_retries : ℕ) → Attempts → List String → Result QueryError Response
unfolding query_loop
query_roots max_retries a [] = ok []
query_roots max_retries a (root ∷ roots) = query_loop a (max_retries + 1) 0 (message "")

query_loop_answer :
    (a : Attempts) (rounds attempt : ℕ) (last : QueryError) (resp : Response)
    → query_loop a rounds attempt last ≡ ok resp
    → (n : ℕ) × (n < attempt + rounds) × (a.once n ≡ ok resp)
unfolding query_loop
query_loop_answer a zero attempt last resp h = cc
query_loop_answer a (suc rounds) attempt last resp h = elim (Option-cases (wait a attempt)) [
  | inr (e, stopped) ↦ absurd (ground arith)
  | inl goes ↦ elim (Result-cases (a.once attempt)) [
    | inl (found, p) ↦
        let same : found ≡ resp = ground arith in (attempt, omega arith, rw (← same) p)
    | inr (non_retryable, p) ↦ absurd (ground arith)
    | inr (deadline_exceeded, p) ↦
        let (n, k, q) =
          query_loop_answer a rounds (attempt + 1) deadline_exceeded resp (ground arith) in
        (n, omega arith, q)
    | inr (message text, p) ↦
        let (n, k, q) =
          query_loop_answer a rounds (attempt + 1) (message text) resp (ground arith) in
        (n, omega arith, q)
  ]
]

-- An answer about some roots is the answer of one of at most `max_retries + 1` attempts: no error is
-- ever turned into one.
pub query_roots_answer :
    (max_retries : ℕ) (a : Attempts) (root : String) (roots : List String) (resp : Response)
    → query_roots max_retries a (root ∷ roots) ≡ ok resp
    → (n : ℕ) × (n ≤ max_retries) × (a.once n ≡ ok resp)
unfolding query_roots
query_roots_answer max_retries a root roots resp h =
    let (n, k, q) = query_loop_answer a (max_retries + 1) 0 (message "") resp h in
    (n, omega arith, q)
