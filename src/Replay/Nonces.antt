-- ===== src/Replay/Nonces.antt =====
-- No nonce is accepted twice in its time to live, and with the test of the timestamp none ever.
use nereus_door_loong_magic.Common.{
  ℕ, ◌+◌, ◌*◌, ◌≤◌, ◌<◌, ◌≡◌, String, true, false, Option, none, some, inl, inr, arith, eq_iff,
  Option-cases, refl, ltb, if◌then◌else◌,
}
use nereus_door_loong_magic.Common.Dict.{Dict, IsUnique, lookup, insert, lookup-insert, keys_where}
use nereus_door_loong_magic.Common.Unique.{swept, insert-IsUnique, remove_all-IsUnique}
use nereus_door_loong_magic.Replay.{
  IsoTime, naive, aware, is_fresh, is_fresh_as_utc, purge, check_and_store,
}

-- The nonce is stored until `expiry`, unless that has passed.
pub record Remembers (nonce : String) (expiry now : ℕ) (items : Dict ℕ) : Type 0 where
  pub unique : IsUnique items
  pub kept : now ≤ expiry → lookup nonce items ≡ some expiry

purge-IsUnique : (now : ℕ) (items : Dict ℕ) → IsUnique items → IsUnique (purge now items)
unfolding purge
purge-IsUnique now items u = remove_all-IsUnique (keys_where (λ e. ltb e now) items) items u

lookup-purge :
    (nonce : String) (now : ℕ) (items : Dict ℕ)
    → IsUnique items
    → lookup nonce (purge now items)
      ≡ elim (lookup nonce items) [ none ↦ none | some e ↦ if ltb e now then none else some e ]
unfolding purge
lookup-purge nonce now items u = swept (λ e. ltb e now) nonce items u

-- The two outcomes of check_and_store.
store_new :
    (ttl : ℕ) (nonce : String) (now : ℕ) (items : Dict ℕ)
    → lookup nonce (purge now items) ≡ none
    → check_and_store ttl nonce now items ≡ (true, insert nonce (now + ttl) (purge now items))
unfolding check_and_store
store_new ttl nonce now items new = rw (new, check_and_store)

store_old :
    (ttl : ℕ) (nonce : String) (now e : ℕ) (items : Dict ℕ)
    → lookup nonce (purge now items) ≡ some e
    → check_and_store ttl nonce now items ≡ (false, purge now items)
unfolding check_and_store
store_old ttl nonce now e items old = rw (old, check_and_store)

pub check_and_store-IsUnique :
    (ttl : ℕ) (nonce : String) (now : ℕ) (items : Dict ℕ)
    → IsUnique items
    → IsUnique (check_and_store ttl nonce now items).1
check_and_store-IsUnique ttl nonce now items u =
    let v = purge-IsUnique now items u in
    elim (Option-cases (lookup nonce (purge now items))) [
      | inl new ↦
          rw (store_new ttl nonce now items new)
            (insert-IsUnique nonce (now + ttl) (purge now items) v)
      | inr (e, old) ↦ rw (store_old ttl nonce now e items old) v
    ]

-- A nonce that is accepted is remembered for its time to live.
pub accepted-Remembers :
    (ttl : ℕ) (nonce : String) (now : ℕ) (items : Dict ℕ)
    → IsUnique items
    → (check_and_store ttl nonce now items).0 ≡ true
    → Remembers nonce (now + ttl) now (check_and_store ttl nonce now items).1
accepted-Remembers ttl nonce now items u ok = record {
  unique = check_and_store-IsUnique ttl nonce now items u;
  kept = λ _. elim (Option-cases (lookup nonce (purge now items))) [
    | inl new ↦ ground (
      arith,
      store_new ttl nonce now items new,
      lookup-insert nonce nonce (now + ttl) (purge now items),
      eq_iff nonce nonce,
    )
    | inr (e, old) ↦ absurd (ground (arith, store_old ttl nonce now e items old))
  ];
}

-- It stays remembered whatever nonces follow, and is refused until then.
module _ (nonce : String) (expiry before now : ℕ) (items : Dict ℕ)
    (mem : Remembers nonce expiry before items) (forward : before ≤ now) where
  still_there : now ≤ expiry → lookup nonce (purge now items) ≡ some expiry
  still_there h = ground (arith, lookup-purge nonce now items mem.unique, mem.kept (omega arith))

  pub Remembers-check_and_store :
      (ttl : ℕ) (other : String)
      → Remembers nonce expiry now (check_and_store ttl other now items).1
  Remembers-check_and_store ttl other = record {
    unique = check_and_store-IsUnique ttl other now items mem.unique;
    kept = λ h. elim (Option-cases (lookup other (purge now items))) [
      | inl new ↦ ground (
        arith,
        store_new ttl other now items new,
        still_there h,
        lookup-insert other nonce (now + ttl) (purge now items),
        eq_iff other nonce,
      )
      | inr (e, old) ↦ ground (arith, store_old ttl other now e items old, still_there h)
    ];
  }

  pub Remembers-later : Remembers nonce expiry now items
  Remembers-later = record { unique = mem.unique; kept = λ h. mem.kept (omega arith) }

  pub refused_while : (ttl : ℕ) → now ≤ expiry → (check_and_store ttl nonce now items).0 ≡ false
  refused_while ttl h = rw (store_old ttl nonce now expiry items (still_there h))

-- Once the nonce is forgotten the timestamp is stale, if the time to live is at least twice the
-- tolerance.
pub stale_after :
    (tolerance ttl first now : ℕ) (stamp : Option IsoTime)
    → 2 * tolerance ≤ ttl
    → is_fresh tolerance stamp first ≡ true
    → first + ttl < now
    → is_fresh tolerance stamp now ≡ false
unfolding is_fresh
stale_after tolerance ttl first now none h fresh late = refl
stale_after tolerance ttl first now (some (naive wall)) h fresh late = ground arith
stale_after tolerance ttl first now (some (aware wall utc)) h fresh late = ground arith

pub stale_as_utc_after :
    (tolerance ttl first now : ℕ) (stamp : Option IsoTime)
    → 2 * tolerance ≤ ttl
    → is_fresh_as_utc tolerance stamp first ≡ true
    → first + ttl < now
    → is_fresh_as_utc tolerance stamp now ≡ false
unfolding is_fresh_as_utc
stale_as_utc_after tolerance ttl first now none h fresh late = refl
stale_as_utc_after tolerance ttl first now (some (naive wall)) h fresh late = ground arith
stale_as_utc_after tolerance ttl first now (some (aware wall utc)) h fresh late = ground arith
