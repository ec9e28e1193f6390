-- ===== src/Replay.antt =====
-- The replay guards of both socket servers: NonceStore and check_timestamp_freshness of
-- internal_rpc/security.py, and _check_nonce, _check_timestamp_freshness and RateLimiter of
-- privileged_agent/server.py. Instants are natural numbers of seconds.
pub mod Nonces
pub mod Rate
mod Tests
use nereus_door_loong_magic.Common.{
  ℕ, ◌+◌, ◌-◌, String, Bool, true, false, not, Option, none, some, List, [], ◌∷◌, ◌++◌, ltb, leb,
  if◌then◌else◌, keep, length, text_append,
}
use nereus_door_loong_magic.Common.Dict.{Dict, lookup, insert, keys_where, remove_all}

-- What `datetime.fromisoformat` reads: a time with no offset, or one with an offset, which
-- `astimezone(utc)` takes to the instant `utc`. `wall` is the time as it is written.
pub data IsoTime : Type 0 where
  naive : (wall : ℕ) → IsoTime
  aware : (wall utc : ℕ) → IsoTime

-- abs((a - b).total_seconds())
unfoldable pub distance : ℕ → ℕ → ℕ
distance a b = (a - b) + (b - a)

-- check_timestamp_freshness: `none` is a ValueError or a TypeError of the parser.
unfoldable pub is_fresh : ℕ → Option IsoTime → ℕ → Bool
unfolding distance
is_fresh tolerance none now = false
is_fresh tolerance (some (naive wall)) now = leb (distance wall now) tolerance
is_fresh tolerance (some (aware wall utc)) now = leb (distance utc now) tolerance

-- _check_timestamp_freshness replaces the offset by UTC instead of converting.
unfoldable pub is_fresh_as_utc : ℕ → Option IsoTime → ℕ → Bool
unfolding distance
is_fresh_as_utc tolerance none now = false
is_fresh_as_utc tolerance (some (naive wall)) now = leb (distance wall now) tolerance
is_fresh_as_utc tolerance (some (aware wall utc)) now = leb (distance wall now) tolerance

-- The entries whose expiry has passed are deleted.
unfoldable pub purge : ℕ → Dict ℕ → Dict ℕ
purge now items = remove_all (keys_where (λ expiry. ltb expiry now) items) items

-- NonceStore.check_and_store
unfoldable pub check_and_store : ℕ → String → ℕ → Dict ℕ → Bool × Dict ℕ
unfolding purge
check_and_store ttl nonce now items =
    let fresh = purge now items in
    elim (lookup nonce fresh) [
      | some _ ↦ (false, fresh)
      | none ↦ (true, insert nonce (now + ttl) fresh)
    ]

-- _check_nonce, whose keys carry a prefix
unfoldable pub check_nonce : ℕ → String → ℕ → Dict ℕ → Bool × Dict ℕ
unfolding check_and_store
check_nonce ttl nonce now items = check_and_store ttl (text_append "nonce:" nonce) now items

-- RateLimiter: one list of instants for each action.
abbrev pub bucket_of : String → Dict (List ℕ) → List ℕ
bucket_of action buckets = elim (lookup action buckets) [ none ↦ [] | some b ↦ b ]

-- RateLimiter.check, with the length of its window (60 seconds) as an argument: `ts > now - 60`
-- is `now < ts + 60`.
unfoldable pub check_rate :
    (max_per_window window : ℕ) → String → ℕ → Dict (List ℕ) → Bool × Dict (List ℕ)
check_rate max_per_window window action now buckets =
    let recent = keep (λ ts. ltb now (ts + window)) (bucket_of action buckets) in
    if leb max_per_window (length recent)
    then (false, insert action recent buckets)
    else (true, insert action (recent ++ now ∷ []) buckets)
