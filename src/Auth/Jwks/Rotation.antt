-- ===== src/Auth/Jwks/Rotation.antt =====
-- auth/jwks.py: what the cache says of a key that it has not.
use autobench.Prelude.{ℕ, String, true, false, Option, none, some, ◌≡◌, refl}
use mathlib.Core.Path.{subst}
use autobench.Prelude.Json.{Fields}
use autobench.Prelude.Dict.{get, put}
use autobench.Prelude.Http.{Web}
use autobench.Auth.{Checked, accepted, rejected, unreachable, broken, ◌>>=◌}
use autobench.Auth.Jwks.{
  Keys, Cached, jwks_request, usable, store, cached_or_read, get_keys, second_try, retried, get_key,
}
use autobench.Auth.Jwks.Served.{document}

module _ {W : Type 0} (web : Web W) (ttl : ℕ) (url kid : String) where
  -- A document without the key, that the server gave in the request before the world `after`.
  pub record Lacks (after : W) : Type 0 where
    pub asked : W
    pub keys : Keys
    pub given : document web url asked ≡ accepted keys
    pub missing : get kid keys ≡ none
    pub last : (web.send (jwks_request url) asked).1 ≡ after

  abbrev WhenMissing : Checked (Option Fields) × Cached W → Type 0
  WhenMissing (accepted none, s) = Lacks s.world
  WhenMissing _ = Unit

  forced : (now : ℕ) (cached : Option (ℕ × Keys)) → usable ttl true now cached ≡ none
  unfolding usable
  forced now none = refl
  forced now (some (at, keys)) = refl

  get_keys_forced :
      (s : Cached W)
      → get_keys web ttl true url s ≡ (
          let (now, world) = web.monotonic s.world in
          store web ttl url now
            (record s { world = (web.send (jwks_request url) world).1 })
            (document web url world))
  unfolding get_keys cached_or_read
  get_keys_forced s = rw (forced (web.monotonic s.world).0 (get url s.cache)) refl

  stored :
      (now : ℕ) (w : W) (s : Cached W) (read : Checked Keys)
      → document web url w ≡ read
      → (web.send (jwks_request url) w).1 ≡ s.world
      → let (again, after) = store web ttl url now s read in
        WhenMissing (again >>= λ ks. accepted (get kid ks), after)
  unfolding store
  stored now w s (accepted keys) given last = go (get kid keys) refl
    where
      go :
          (o : Option Fields)
          → get kid keys ≡ o
          → WhenMissing (accepted o, record s { cache = put url (now, keys) s.cache })
      go none e = record { asked = w; keys = keys; given = given; missing = e; last = last }
      go (some key) e = tt
  stored now w s (rejected _) given last = tt
  stored now w s (unreachable _) given last = tt
  stored now w s (broken _) given last = tt

  second_missing : (s : Cached W) (o : Option Fields) → WhenMissing (second_try web ttl url kid s o)
  unfolding second_try
  second_missing s (some key) = tt
  second_missing s none =
      let (now, world) = web.monotonic s.world in
      rw (get_keys_forced s) (
        stored now world (record s { world = (web.send (jwks_request url) world).1 })
          (document web url world) refl refl)

  retried_missing : (r : Checked Keys) (s : Cached W) → WhenMissing (retried web ttl url kid (r, s))
  unfolding retried
  retried_missing (accepted keys) s = second_missing s (get kid keys)
  retried_missing (rejected _) s = tt
  retried_missing (unreachable _) s = tt
  retried_missing (broken _) s = tt

  -- If get_key finds no key, some world asked for the document right before the world in which the call
  -- ends, and got a document without the key: a cached document alone never refuses a key.
  pub get_key-Lacks :
      (s after : Cached W) → get_key web ttl url kid s ≡ (accepted none, after) → Lacks after.world
  unfolding get_key
  get_key-Lacks s after h =
      let (r, t) = get_keys web ttl false url s in subst WhenMissing h (retried_missing r t)
