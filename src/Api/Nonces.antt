-- ===== src/Api/Nonces.antt =====
-- The cache against replays: `nonceCache` of api/delete.go. A Go map is a directory in memory.
use Prim.Native.String.{◌++◌}
use text.Mathlib.TextPositions.{eq_refl}
use obsideo_provider.Base.{
  ℕ, ◌+◌, ◌≤◌, ◌<◌, ◌≡◌, none, some, List, [], ◌∷◌, String, Bool, true, false, arith, ltb, eq_iff,
  if◌then◌else◌,
}
use obsideo_provider.Base.Time.{Time, after, before}
use obsideo_provider.Base.Dir.{lookup, insert, lookup-insert}

-- len of a map
abbrev entry_count : List (String × Time) → ℕ
entry_count [] = 0
entry_count (e ∷ es) = 1 + entry_count es

-- The entries that have not expired.
unfoldable pub sweep_expired : Time → List (String × Time) → List (String × Time)
sweep_expired now [] = []
sweep_expired now ((key, exp) ∷ es) =
    let rest = sweep_expired now es in if after now exp then rest else (key, exp) ∷ rest

abbrev pub nonce_key : String → String → String
nonce_key pubkey nonce = pubkey ++ "\0" ++ nonce

-- `Check`: true for a replay.
unfoldable pub check :
    (ttl : ℕ) (pubkey nonce : String) (now : Time) (entries : List (String × Time))
    → Bool × List (String × Time)
unfolding sweep_expired
check ttl pubkey nonce now entries =
    let swept = if ltb 256 (entry_count entries) then sweep_expired now entries else entries in
    let key = nonce_key pubkey nonce in
    let recorded = insert key (now + ttl) swept in
    elim (lookup key swept) [
      | none ↦ (false, recorded)
      | some exp ↦ if before now exp then (true, swept) else (false, recorded)
    ]

-- The key is in the cache until `end`, at least.
pub record Remembers (key : String) (end : Time) (entries : List (String × Time)) : Type 0 where
  pub expiry : Time
  pub entry : lookup key entries ≡ some expiry
  pub long : end ≤ expiry

-- The first entry of a key outlives a sweep before it expires.
sweep_expired-lookup :
    (key : String) (now exp : Time) (entries : List (String × Time))
    → lookup key entries ≡ some exp
    → now ≤ exp
    → lookup key (sweep_expired now entries) ≡ some exp
unfolding sweep_expired lookup
sweep_expired-lookup key now exp [] h k = h
sweep_expired-lookup key now exp ((j, e) ∷ es) h k =
    ground (arith, sweep_expired-lookup key now exp es)

module _ (ttl : ℕ) (pubkey nonce : String) (now : Time) (entries : List (String × Time)) where
  -- A key that is remembered until later than now stays so, whatever is checked.
  pub check-Remembers :
      (key : String) (end : Time)
      → now < end
      → Remembers key end entries
      → Remembers key end (check ttl pubkey nonce now entries).1
  unfolding check
  check-Remembers key end early r =
      let kept = sweep_expired-lookup key now r.expiry entries r.entry (omega (arith, r.long)) in
      record {
        expiry = r.expiry;
        entry =
            (let swept =
                if ltb 256 (entry_count entries) then sweep_expired now entries else entries in
              let still : lookup key swept ≡ some r.expiry = ground (arith, kept, r.entry) in
              ground (
                arith,
                still,
                r.long,
                eq_iff (nonce_key pubkey nonce) key,
                lookup-insert (nonce_key pubkey nonce) key (now + ttl) swept,
              ));
        long = r.long;
      }

  -- What is remembered until later than now is a replay.
  pub check_replay :
      (end : Time)
      → now < end
      → Remembers (nonce_key pubkey nonce) end entries
      → (check ttl pubkey nonce now entries).0 ≡ true
  unfolding check
  check_replay end early r =
      let key = nonce_key pubkey nonce in
      let kept = sweep_expired-lookup key now r.expiry entries r.entry (omega (arith, r.long)) in
      ground (arith, kept, r.entry, r.long)

  -- What is not a replay is remembered for the time to live.
  pub check_fresh :
      (check ttl pubkey nonce now entries).0 ≡ false
      → Remembers (nonce_key pubkey nonce) (now + ttl) (check ttl pubkey nonce now entries).1
  unfolding check
  check_fresh h =
      let key = nonce_key pubkey nonce in
      let swept = if ltb 256 (entry_count entries) then sweep_expired now entries else entries in
      record {
        expiry = now + ttl;
        entry = ground (arith, eq_refl key, lookup-insert key key (now + ttl) swept);
        long = omega arith;
      }
