-- ===== src/Api/RateLimit.antt =====
-- The `challengeRateLimiter` of api/client_challenge.go, a counter in fixed windows.
use obsideo_provider.Base.{
  ℕ, ◌+◌, ◌*◌, ◌≤◌, ◌<◌, ◌≡◌, ap, inl, inr, Option, none, some, List, [], ◌∷◌, String, Bool, true,
  false, arith, leb, ltb, str_eq, eq_iff, if◌then◌else◌, Bool-cases,
}
use obsideo_provider.Base.Int.{pos}
use obsideo_provider.Base.Time.{Time, sub, shorter, shorter-sub}
use obsideo_provider.Base.Dir.{lookup, insert, lookup-insert, lookup-empty}

abbrev pub client_challenge_limit : ℕ
client_challenge_limit = 30

-- One minute, in nanoseconds.
abbrev pub client_challenge_window : ℕ
client_challenge_window = 60000000000

pub record ChallengeRateLimiter : Type 0 where
  pub window : Time
  pub entries : List (String × ℕ)

-- The window of a new limiter is the zero time.
abbrev pub new_challenge_rate_limiter : ChallengeRateLimiter
new_challenge_rate_limiter = record { window = 0; entries = [] }

abbrev or_zero : Option ℕ → ℕ
or_zero none = 0
or_zero (some n) = n

-- The count of a key: one that is not in the map is 0.
abbrev pub count_of : String → ChallengeRateLimiter → ℕ
count_of key l = or_zero (lookup key l.entries)

-- A new window drops all counts.
unfoldable pub roll : Time → ChallengeRateLimiter → ChallengeRateLimiter
roll now l =
    if shorter (sub now l.window) (pos client_challenge_window)
    then l
    else record { window = now; entries = [] }

-- The attempt within the window: refused at the limit, otherwise counted.
unfoldable pub attempt : String → ChallengeRateLimiter → Bool × ChallengeRateLimiter
attempt key l =
    if leb client_challenge_limit (count_of key l)
    then (false, l)
    else (true, record l { entries = insert key (count_of key l + 1) l.entries })

unfoldable pub allow : String → Time → ChallengeRateLimiter → Bool × ChallengeRateLimiter
unfolding roll attempt
allow key now l = attempt key (roll now l)

-- The limiter after these attempts, each a key and an instant.
abbrev pub after_attempts : List (String × Time) → ChallengeRateLimiter → ChallengeRateLimiter
after_attempts [] l = l
after_attempts ((key, now) ∷ rest) l = after_attempts rest (allow key now l).1

abbrev grant : String → String → Bool → ℕ
grant key asked allowed = if str_eq asked key then (if allowed then 1 else 0) else 0

-- How many of these attempts are allowed to the key.
abbrev pub granted : String → List (String × Time) → ChallengeRateLimiter → ℕ
granted key [] l = 0
granted key ((asked, now) ∷ rest) l =
    grant key asked (allow asked now l).0 + granted key rest (allow asked now l).1

-- Every attempt is before the instant.
abbrev pub AllBefore : Time → List (String × Time) → Type 0
AllBefore end [] = Unit {0}
AllBefore end ((asked, now) ∷ rest) = (now < end) × AllBefore end rest

-- Every attempt is at the instant or after it.
abbrev pub AllFrom : Time → List (String × Time) → Type 0
AllFrom start [] = Unit {0}
AllFrom start ((asked, now) ∷ rest) = (start ≤ now) × AllFrom start rest

-- What an attempt grants to a key is added to its count.
attempt_counts :
    (key asked : String) (l : ChallengeRateLimiter)
    → grant key asked (attempt asked l).0 + count_of key l ≡ count_of key (attempt asked l).1
unfolding attempt
attempt_counts key asked l =
    let law = lookup-insert asked key (count_of asked l + 1) l.entries in
    elim (Bool-cases (str_eq asked key)) [
      | inr other ↦ rw other (ground (arith, law))
      | inl same ↦
          let counts : count_of asked l ≡ count_of key l =
            ap (λ k. count_of k l) ((eq_iff asked key).0 same) in
          rw same (ground (arith, law, counts))
    ]

attempt_bound :
    (key asked : String) (l : ChallengeRateLimiter)
    → count_of key l ≤ client_challenge_limit
    → count_of key (attempt asked l).1 ≤ client_challenge_limit
unfolding attempt
attempt_bound key asked l h =
    ground (arith, lookup-insert asked key (count_of asked l + 1) l.entries, eq_iff asked key)

attempt-window : (asked : String) (l : ChallengeRateLimiter) → (attempt asked l).1.window ≡ l.window
unfolding attempt
attempt-window asked l = ground arith

-- An instant before the end of the window changes nothing.
roll_within :
    (now : Time) (l : ChallengeRateLimiter)
    → now < l.window + client_challenge_window
    → roll now l ≡ l
unfolding roll
roll_within now l h =
    let same = shorter-sub now l.window client_challenge_window (omega arith) (omega arith) in
    rw same (ground arith)

roll_behind :
    (now : Time) (l : ChallengeRateLimiter)
    → l.window + client_challenge_window ≤ now
    → roll now l ≡ record { window = now; entries = [] }
unfolding roll
roll_behind now l h =
    let same = shorter-sub now l.window client_challenge_window (omega arith) (omega arith) in
    rw same (ground arith)

-- Without a new window, what is granted and what was counted stay below the limit together.
granted_in_window :
    (key : String) (attempts : List (String × Time)) (l : ChallengeRateLimiter) (end : Time)
    → AllBefore end attempts
    → end ≤ l.window + client_challenge_window
    → count_of key l ≤ client_challenge_limit
    → granted key attempts l + count_of key l ≤ client_challenge_limit
unfolding allow
granted_in_window key [] l end before within h = omega (arith, h)
granted_in_window key ((asked, now) ∷ rest) l end before within h =
    let same = roll_within now l (omega (arith, before.0, within)) in
    let window = attempt-window asked l in
    let later =
      granted_in_window key rest (attempt asked l).1 end before.1 (omega (arith, window, within))
        (attempt_bound key asked l h) in
    rw same (omega (arith, later, attempt_counts key asked l))

roll_bound :
    (key : String) (now : Time) (l : ChallengeRateLimiter)
    → count_of key l ≤ client_challenge_limit
    → count_of key (roll now l) ≤ client_challenge_limit
unfolding roll
roll_bound key now l h = ground (arith, lookup-empty {A = ℕ} key)

pub after_attempts_bound :
    (key : String) (attempts : List (String × Time)) (l : ChallengeRateLimiter)
    → count_of key l ≤ client_challenge_limit
    → count_of key (after_attempts attempts l) ≤ client_challenge_limit
unfolding allow
after_attempts_bound key [] l h = h
after_attempts_bound key ((asked, now) ∷ rest) l h =
    after_attempts_bound key rest (attempt asked (roll now l)).1
      (attempt_bound key asked (roll now l) (roll_bound key now l h))

-- Over the length of a window, whenever it begins, at most one new window begins.
granted_in_minute :
    (key : String) (attempts : List (String × Time)) (l : ChallengeRateLimiter) (start : Time)
    → AllFrom start attempts
    → AllBefore (start + client_challenge_window) attempts
    → count_of key l ≤ client_challenge_limit
    → granted key attempts l + count_of key l ≤ 2 * client_challenge_limit
unfolding allow
granted_in_minute key [] l start from before h = omega (arith, h)
granted_in_minute key ((asked, now) ∷ rest) l start from before h =
    elim (Bool-cases (ltb now (l.window + client_challenge_window))) [
      | inl within ↦
          let same = roll_within now l (ground (arith, within)) in
          let later =
            granted_in_minute key rest (attempt asked l).1 start from.1 before.1
              (attempt_bound key asked l h) in
          rw same (omega (arith, later, attempt_counts key asked l))
      | inr behind ↦
          let fresh : ChallengeRateLimiter = record { window = now; entries = [] } in
          let same : roll now l ≡ fresh = roll_behind now l (ground (arith, behind)) in
          let none_yet : count_of key fresh ≡ 0 = ap or_zero (lookup-empty key) in
          let window : (attempt asked fresh).1.window ≡ now = attempt-window asked fresh in
          let later =
            granted_in_window key rest (attempt asked fresh).1 (start + client_challenge_window)
              before.1 (omega (arith, window, from.0))
              (attempt_bound key asked fresh (omega (arith, none_yet))) in
          rw same (omega (arith, later, attempt_counts key asked fresh, none_yet, h))
    ]

-- Whatever was asked before, in whatever order of instants, of the attempts within any one minute the
-- limiter allows a key at most 60, twice the limit of its window.
pub granted_per_minute :
    (key : String) (before now : List (String × Time)) (start : Time)
    → AllFrom start now
    → AllBefore (start + client_challenge_window) now
    → granted key now (after_attempts before new_challenge_rate_limiter)
      ≤ 2 * client_challenge_limit
granted_per_minute key before now start from until =
    let new : count_of key new_challenge_rate_limiter ≡ 0 = ap or_zero (lookup-empty key) in
    let counted = after_attempts_bound key before new_challenge_rate_limiter (omega (arith, new)) in
    omega (
      arith,
      granted_in_minute key now (after_attempts before new_challenge_rate_limiter) start from until
          counted,
    )

-- The attempts within the limiter's own window: at most 30 of them are allowed to a key.
pub granted_per_window :
    (key : String) (before now : List (String × Time))
    → AllBefore
        ((after_attempts before new_challenge_rate_limiter).window + client_challenge_window)
        now
    → granted key now (after_attempts before new_challenge_rate_limiter) ≤ client_challenge_limit
granted_per_window key before now until =
    let new : count_of key new_challenge_rate_limiter ≡ 0 = ap or_zero (lookup-empty key) in
    let l = after_attempts before new_challenge_rate_limiter in
    let counted = after_attempts_bound key before new_challenge_rate_limiter (omega (arith, new)) in
    omega (
      arith,
      granted_in_window key now l (l.window + client_challenge_window) until (omega arith) counted,
    )
