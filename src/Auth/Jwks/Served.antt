-- ===== src/Auth/Jwks/Served.antt =====
-- auth/jwks.py: where the keys come from that the cache hands out.
use autobench.Prelude.{
  ℕ, String, Bool, true, false, Option, none, some, ◌≡◌, refl, arith, eq_iff, ◌==◌, Bool-cases, ◌⊎◌,
  inl, inr,
}
use mathlib.Core.Path.{subst}
use autobench.Prelude.Json.{Fields}
use autobench.Prelude.Dict.{Dict, get, put, get-put}
use autobench.Prelude.Http.{Web}
use autobench.Auth.{Checked, accepted, rejected, unreachable, broken, ◌>>=◌, when_sent}
use autobench.Auth.Jwks.{
  Keys, Cached, jwks_request, read_keys, usable, store, cached_or_read, get_keys, second_try,
  retried, get_key,
}

abbrev pub OnAccepted : {A : Type 0} → (A → Type 0) → Checked A → Type 0
OnAccepted R (accepted a) = R a
OnAccepted R (rejected _) = Unit
OnAccepted R (unreachable _) = Unit
OnAccepted R (broken _) = Unit

module _ {W : Type 0} (web : Web W) where
  -- The document that a request in a world gives.
  abbrev pub document : String → W → Checked Keys
  document url w = when_sent (web.send (jwks_request url) w).0 read_keys

-- The key that a document gives, if it gives one.
abbrev pub Given : (String → Keys → Type 0) → String → String → Option Fields → Type 0
Given P url kid none = Unit
Given P url kid (some jwk) = (keys : Keys) × P url keys × (get kid keys ≡ some jwk)

module _ {W : Type 0} (web : Web W) (ttl : ℕ) (P : String → Keys → Type 0) where
  -- Every document that the servers give meets `P`.
  pub record Serves : Type 0 where
    pub at : (url : String) (w : W) → OnAccepted (P url) (document web url w)

  -- Every document of the cache meets `P`.
  pub record IsServed (cache : Dict (ℕ × Keys)) : Type 0 where
    pub at :
        (url : String) (time : ℕ) (keys : Keys) → get url cache ≡ some (time, keys) → P url keys

  usable_lem :
      (force : Bool) (now : ℕ) (cached : Option (ℕ × Keys)) (keys : Keys)
      → usable ttl force now cached ≡ some keys
      → (time : ℕ) × (cached ≡ some (time, keys))
  unfolding usable
  usable_lem force now none keys h = absurd (ground arith)
  usable_lem force now (some (time, old)) keys h = (time, ground arith)

  put_cases :
      (url other : String) (now time : ℕ) (keys found : Keys) (cache : Dict (ℕ × Keys))
      → get other (put url (now, keys) cache) ≡ some (time, found)
      → ((url ≡ other) × (keys ≡ found)) ⊎ (get other cache ≡ some (time, found))
  put_cases url other now time keys found cache e = elim (Bool-cases (url == other)) [
    | inl same ↦
        inl (ground (arith, eq_iff url other), ground (arith, get-put url other (now, keys) cache))
    | inr differ ↦ inr (ground (arith, get-put url other (now, keys) cache))
  ]

  put-IsServed :
      (url : String) (now : ℕ) (keys : Keys) (cache : Dict (ℕ × Keys))
      → P url keys
      → IsServed cache
      → IsServed (put url (now, keys) cache)
  put-IsServed url now keys cache h served = record {
    at = λ other time found e. elim (put_cases url other now time keys found cache e) [
      | inl (same, kept) ↦ subst (λ u. P u found) same (subst (λ k. P url k) kept h)
      | inr older ↦ served.at other time found older
    ];
  }

  store-IsServed :
      (url : String) (now : ℕ) (s : Cached W) (read : Checked Keys)
      → OnAccepted (P url) read
      → IsServed s.cache
      → OnAccepted (P url) (store web ttl url now s read).0
        × IsServed (store web ttl url now s read).1.cache
  unfolding store
  store-IsServed url now s (accepted keys) h served =
      (h, put-IsServed url now keys s.cache h served)
  store-IsServed url now s (rejected text) h served = (tt, served)
  store-IsServed url now s (unreachable text) h served = (tt, served)
  store-IsServed url now s (broken text) h served = (tt, served)

  cached_or_read-IsServed :
      (url : String) (now : ℕ) (s : Cached W) (cached : Option (ℕ × Keys)) (force : Bool)
      → Serves
      → IsServed s.cache
      → ((time : ℕ) (keys : Keys) → cached ≡ some (time, keys) → P url keys)
      → OnAccepted (P url) (cached_or_read web ttl url now s (usable ttl force now cached)).0
        × IsServed (cached_or_read web ttl url now s (usable ttl force now cached)).1.cache
  unfolding cached_or_read
  cached_or_read-IsServed url now s cached force serves served h =
      go (usable ttl force now cached) (usable_lem force now cached)
    where
      go :
          (found : Option Keys)
          → ((keys : Keys) → found ≡ some keys → (time : ℕ) × (cached ≡ some (time, keys)))
          → OnAccepted (P url) (cached_or_read web ttl url now s found).0
            × IsServed (cached_or_read web ttl url now s found).1.cache
      go none from =
          store-IsServed url now (record s { world = (web.send (jwks_request url) s.world).1 })
            (document web url s.world) (serves.at url s.world) served
      go (some keys) from = let (time, e) = from keys refl in (h time keys e, served)

  pub get_keys-IsServed :
      (force : Bool) (url : String) (s : Cached W)
      → Serves
      → IsServed s.cache
      → OnAccepted (P url) (get_keys web ttl force url s).0
        × IsServed (get_keys web ttl force url s).1.cache
  unfolding get_keys
  get_keys-IsServed force url s serves served =
      let (now, world) = web.monotonic s.world in
      cached_or_read-IsServed url now (record s { world = world }) (get url s.cache) force serves
        served (served.at url)

  Given-get : (url kid : String) (keys : Keys) → P url keys → Given P url kid (get kid keys)
  Given-get url kid keys h = go (get kid keys) refl
    where
      go : (o : Option Fields) → get kid keys ≡ o → Given P url kid o
      go none e = tt
      go (some jwk) e = (keys, h, e)

  again_lem :
      (url kid : String) (r : Checked Keys)
      → OnAccepted (P url) r
      → OnAccepted (Given P url kid) (r >>= λ ks. accepted (get kid ks))
  again_lem url kid (accepted keys) h = Given-get url kid keys h
  again_lem url kid (rejected _) h = tt
  again_lem url kid (unreachable _) h = tt
  again_lem url kid (broken _) h = tt

  retried-IsServed :
      (url kid : String) (r : Checked Keys) (s : Cached W)
      → Serves
      → OnAccepted (P url) r
      → IsServed s.cache
      → OnAccepted (Given P url kid) (retried web ttl url kid (r, s)).0
        × IsServed (retried web ttl url kid (r, s)).1.cache
  unfolding retried
  retried-IsServed url kid (accepted keys) s serves h served = go (get kid keys) refl
    where
      go :
          (o : Option Fields)
          → get kid keys ≡ o
          → OnAccepted (Given P url kid) (second_try web ttl url kid s o).0
            × IsServed (second_try web ttl url kid s o).1.cache
      go (some jwk) e = ((keys, h, e), served)
      go none e =
          let (fresh, kept) = get_keys-IsServed true url s serves served in
          (again_lem url kid (get_keys web ttl true url s).0 fresh, kept)
  retried-IsServed url kid (rejected _) s serves h served = (tt, served)
  retried-IsServed url kid (unreachable _) s serves h served = (tt, served)
  retried-IsServed url kid (broken _) s serves h served = (tt, served)

  pub get_key-IsServed :
      (url kid : String) (s : Cached W)
      → Serves
      → IsServed s.cache
      → OnAccepted (Given P url kid) (get_key web ttl url kid s).0
        × IsServed (get_key web ttl url kid s).1.cache
  unfolding get_key
  get_key-IsServed url kid s serves served =
      let (h, kept) = get_keys-IsServed false url s serves served in
      retried-IsServed url kid (get_keys web ttl false url s).0 (get_keys web ttl false url s).1
        serves h kept
