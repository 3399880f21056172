-- ===== src/Coverage/ExchangeLaws.antt =====
-- Which responses of the coordinator count as answers, and how long the client waits between attempts.
use native.Mathlib.Nat.{pow-suc}
use obsideo_provider.Base.{
  ℕ, zero, suc, ◌*◌, ◌^◌, ◌<◌, ◌≤◌, ◌≡◌, refl, subst, min, Option, none, some, List, [], ◌∷◌,
  String, true, arith, ltb, Bool-cases, ok, inl, inr,
}
use obsideo_provider.Base.Int.{pos, ◌*ℤ◌}
use obsideo_provider.Base.Time.{to_int64}
use obsideo_provider.Base.Dir.{lookup}
use obsideo_provider.Gc.Recheck.{RootStatus, QueryError, recheck_answer-reclaimable, reclaimable}
use obsideo_provider.Coverage.Client.{Response, Attempts, query_roots_answer}
use obsideo_provider.Coverage.Exchange.{
  Client, default_client, backoff_loop, backoff_duration, Exchange, responded, ClientCodec, do_once,
  ask_roots, live_recheck,
}

le-mul-pow : (x n : ℕ) → x ≤ x * 2 ^ n
le-mul-pow x zero = omega arith
le-mul-pow x (suc n) = grind (arith, pow-suc, le-mul-pow x n)

double-pow : (d n : ℕ) → d * 2 * 2 ^ n ≡ d * 2 ^ suc n
double-pow d n = grind (arith, pow-suc)

double : (d : ℕ) → d < 2 ^ 62 → to_int64 (pos d *ℤ pos 2) ≡ pos (d * 2)
unfolding to_int64 ◌*ℤ◌
double d h = ground arith

backoff_loop-eq :
    (n d g : ℕ) → d < 2 ^ 62 → g < 2 ^ 62 → backoff_loop n (pos g) (pos d) ≡ pos (min (d * 2 ^ n) g)
unfolding backoff_loop
backoff_loop-eq zero d g small top = ground arith
backoff_loop-eq (suc n) d g small top = elim (Bool-cases (ltb g (d * 2))) [
  | inl over ↦
      let top_out : min (d * 2 ^ suc n) g ≡ g =
        ground (arith, double-pow d n, le-mul-pow (d * 2) n, over) in
      rw (backoff_loop, double d small) (ground (arith, over, top_out))
  | inr under ↦
      let rest = backoff_loop-eq n (d * 2) g (ground (arith, under, top)) top in
      rw (backoff_loop, double d small) (ground (arith, under, rest, double-pow d n))
]

-- With a floor and a ceiling below 2 ^ 62 nanoseconds (over a century), the wait before attempt n + 1 is the
-- floor doubled n times, or the ceiling where that is less.
pub backoff_duration-eq :
    (c : Client) (floor ceiling n : ℕ)
    → c.backoff_floor ≡ pos floor
    → c.backoff_ceiling ≡ pos ceiling
    → floor < 2 ^ 62
    → ceiling < 2 ^ 62
    → backoff_duration c (suc n) ≡ pos (min (floor * 2 ^ n) ceiling)
unfolding backoff_duration
backoff_duration-eq c floor ceiling n low high small top =
    rw (low, high) (backoff_loop-eq n floor ceiling small top)

module _ (k : ClientCodec) where
  -- A response below 400 whose body was read and decodes.
  pub record IsAnswer (exchange : Exchange) (resp : Response) : Type 0 where
    pub status : ℕ
    pub body : String
    pub is_response : exchange ≡ responded status body none
    pub below : status < 400
    pub decodes : k.unmarshal body ≡ ok resp

  do_once-IsAnswer : (x : Exchange) (resp : Response) → do_once k x ≡ ok resp → IsAnswer x resp
  unfolding do_once
  do_once-IsAnswer (responded status body none) resp h = record {
    status = status;
    body = body;
    is_response = refl;
    below = ground arith;
    decodes = ground arith;
  }
  do_once-IsAnswer x resp h = ground arith

  -- An answer about some roots is the decoded body of a response below 400, of one of at most
  -- MaxRetries + 1 exchanges.
  pub ask_roots-IsAnswer :
      (c : Client) (exchanges : ℕ → Exchange) (stopped : ℕ → Option QueryError) (root : String)
      (roots : List String) (resp : Response)
      → ask_roots k c exchanges stopped (root ∷ roots) ≡ ok resp
      → (n : ℕ) × (n ≤ c.max_retries) × IsAnswer (exchanges n) resp
  unfolding ask_roots
  ask_roots-IsAnswer c exchanges stopped root roots resp h =
      let a : Attempts = record { once = λ n. do_once k (exchanges n); stopped = stopped } in
      let (n, few, answered) = query_roots_answer c.max_retries a root roots resp h in
      (n, few, do_once-IsAnswer (exchanges n) resp answered)

  -- The sweeper is told that an object may be reclaimed only by the first and only exchange for it: a
  -- response below 400, whose body decodes to an answer that says reclaimable: true of this very root.
  pub live_recheck-reclaimable :
      (trim_right : String → String) (coord_url api_key : String) (exchanges : ℕ → Exchange)
      (stopped : ℕ → Option QueryError) (merkle : String)
      → live_recheck k trim_right coord_url api_key exchanges stopped merkle ≡ reclaimable
      → (resp : Response) × (rs : RootStatus) × IsAnswer (exchanges 0) resp
        × (lookup merkle resp ≡ some rs)
        × (rs.reclaimable ≡ some true)
  unfolding live_recheck default_client
  live_recheck-reclaimable trim_right coord_url api_key exchanges stopped merkle h =
      let c = default_client trim_right coord_url api_key in
      let asked = ask_roots k c exchanges stopped (merkle ∷ []) in
      let (resp, rs, found, named, flagged) = recheck_answer-reclaimable merkle asked h in
      let (n, few, answer) = ask_roots-IsAnswer c exchanges stopped merkle [] resp found in
      let only : n ≡ 0 = omega (arith, few) in
      (resp, rs, subst (λ m. IsAnswer (exchanges m) resp) only answer, named, flagged)
