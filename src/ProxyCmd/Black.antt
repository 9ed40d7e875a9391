-- ===== src/ProxyCmd/Black.antt =====
-- proxycmd.go and precheck.go: a key that `PROXY black set` names is refused until it is removed.
use smartproxy.Common.{
  ℕ, ◌+◌, ◌≤◌, ◌≡◌, refl, ◌∙◌, false, [], ◌∷◌, none, some, Bytes, codes, arith, if◌then◌else◌,
  bytes_eq, bytes_eq_self, find, insert, remove, find-insert, find-remove,
}
use smartproxy.Common.Int.{pos}
use smartproxy.Text.{to_lower, num, atoi}
use smartproxy.Redis.Format.{ok_bytes}
use smartproxy.Precheck.{BlackKey, BlackKeys}
use smartproxy.Precheck.Blacked.{IsRefused, found-IsRefused}
use smartproxy.Server.{Server}
use smartproxy.ProxyCmd.{wrote, black_for, black_set, black_remove, proxy_black, proxy, with_black}

abbrev pub new_key : ℕ → Bytes → ℕ → BlackKey
new_key now key t = record { name = key; startup = now; deadline = now + t }

black_for-pos :
    (now : ℕ) (key : Bytes) (t : ℕ) (ps : Server)
    → t ≤ 86400
    → black_for now key (num (pos t)) ps
      ≡ wrote (with_black (insert key (new_key now key t) ps.black_keys) ps) ok_bytes
unfolding black_for
black_for-pos now key t ps h = ground arith

module _ (set_level : Bytes → Bytes → Bytes) (now : ℕ) (op sub : Bytes) (ps : Server) where
  proxy-black_set :
      (key time : Bytes)
      → to_lower op ≡ codes "black"
      → to_lower sub ≡ codes "set"
      → proxy set_level now (op ∷ sub ∷ key ∷ time ∷ []) ps ≡ black_for now key (atoi time) ps
  unfolding proxy proxy_black black_set bytes_eq
  proxy-black_set key time h k = rw (h, k) refl

  proxy-black_remove :
      (key : Bytes)
      → to_lower op ≡ codes "black"
      → to_lower sub ≡ codes "remove"
      → proxy set_level now (op ∷ sub ∷ key ∷ []) ps ≡ black_remove (key ∷ []) ps
  unfolding proxy proxy_black bytes_eq
  proxy-black_remove key h k = rw (h, k) refl

set_black_keys : (black : BlackKeys) (ps : Server) → (with_black black ps).black_keys ≡ black
unfolding with_black
set_black_keys black ps = refl

-- After `PROXY black set key time`, with a time of at most a day, the key is on the list until that time
-- from now. A request whose first argument is the key and that would pass if no key were blacked is
-- answered "-key already be blacked", and any other request with it as if no key were blacked. The other
-- keys are as they were.
pub proxy-black_set-IsRefused :
    (set_level : Bytes → Bytes → Bytes) (now : ℕ) (op sub key time : Bytes) (t : ℕ) (ps : Server)
    → to_lower op ≡ codes "black"
    → to_lower sub ≡ codes "set"
    → atoi time ≡ num (pos t)
    → t ≤ 86400
    → (ps' : Server) × (proxy set_level now (op ∷ sub ∷ key ∷ time ∷ []) ps ≡ wrote ps' ok_bytes)
      × (find key ps'.black_keys ≡ some (new_key now key t))
      × IsRefused ps'.black_keys key
      × ((j : Bytes) → bytes_eq key j ≡ false → find j ps'.black_keys ≡ find j ps.black_keys)
proxy-black_set-IsRefused set_level now op sub key time t ps h k read day =
    let black = insert key (new_key now key t) ps.black_keys in
    let found : find key black ≡ some (new_key now key t) =
      find-insert key key (new_key now key t) ps.black_keys ∙ rw (bytes_eq_self key) refl in
    (
      with_black black ps,
      proxy-black_set set_level now op sub ps key time h k
          ∙ rw read (black_for-pos now key t ps day),
      rw (set_black_keys black ps) found,
      rw (set_black_keys black ps) (found-IsRefused black key (new_key now key t) found),
      λ j ne.
          rw (set_black_keys black ps)
            (find-insert key j (new_key now key t) ps.black_keys ∙ rw ne refl),
    )

black_remove-found :
    (key : Bytes) (ps : Server) (b : BlackKey)
    → find key ps.black_keys ≡ some b
    → black_remove (key ∷ []) ps ≡ wrote (with_black (remove key ps.black_keys) ps) ok_bytes
unfolding black_remove
black_remove-found key ps b e = rw (e, black_remove) refl

-- `PROXY black remove` takes a blacked key, and no other, off the list.
proxy-black_remove-find :
    (set_level : Bytes → Bytes → Bytes) (now : ℕ) (op sub key : Bytes) (ps : Server) (b : BlackKey)
    → to_lower op ≡ codes "black"
    → to_lower sub ≡ codes "remove"
    → find key ps.black_keys ≡ some b
    → (ps' : Server) × (proxy set_level now (op ∷ sub ∷ key ∷ []) ps ≡ wrote ps' ok_bytes)
      × ((j : Bytes)
          → find j ps'.black_keys ≡ (if bytes_eq key j then none else find j ps.black_keys))
proxy-black_remove-find set_level now op sub key ps b h k e =
    let black = remove key ps.black_keys in
    (
      with_black black ps,
      proxy-black_remove set_level now op sub ps key h k ∙ black_remove-found key ps b e,
      λ j. rw (set_black_keys black ps) (find-remove key j ps.black_keys),
    )
