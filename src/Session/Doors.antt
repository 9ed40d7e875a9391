-- ===== src/Session/Doors.antt =====
-- session.go: how many sessions the start of `HandleConn` lets in. Every connection has a goroutine, and
-- nothing guards the map, so other goroutines run between the test of its length and the insertion.
use smartproxy.Common.{
  ℕ, zero, suc, ◌+◌, ◌≤◌, ◌≡◌, refl, ◌∙◌, false, List, [], ◌∷◌, ◌++◌, Option, none, some, Bytes,
  arith, if◌then◌else◌, length, Map, find, insert, remove, bytes_eq, All, ap, find-insert,
  Bool-cases, inl, inr, sym,
}
use smartproxy.Common.Int.{ℤ, pos, ◌≤ℤ◌, ◌+ℤ◌, ltb_ℤ}
use smartproxy.Config.{ProxyConfig}
use smartproxy.Server.{Server, Session, new_session}
use smartproxy.Session.{is_full, enter}

-- The connections that have passed the test and are not in the map, the latest first.
pub record Doors : Type 0 where
  pub server : Server
  pub waiting : List (Bytes × Session)

-- A goroutine makes its session and passes the test or is closed; the one of a number inserts its
-- session; one that is done deletes its address.
pub data Passing : Type 0 where
  tests : Bytes → ℕ → Passing
  enters : ℕ → Passing
  leaves : Bytes → Passing

-- The element of a number, and the others.
keep_front {ℓ} : {A : Type ℓ} → A → Option (A × List A) → Option (A × List A)
keep_front x none = none
keep_front x (some (y, ys)) = some (y, x ∷ ys)

pub pick {ℓ} : {A : Type ℓ} → ℕ → List A → Option (A × List A)
unfolding keep_front
pick i [] = none
pick zero (x ∷ xs) = some (x, xs)
pick (suc i) (x ∷ xs) = keep_front x (pick i xs)

pub enter_picked : Option ((Bytes × Session) × List (Bytes × Session)) → Doors → Doors
unfolding enter
enter_picked none d = d
enter_picked (some ((addr, s), others)) d = record {
  server = enter addr s d.server;
  waiting = others;
}

unfoldable pub on_event : Passing → Doors → Doors
unfolding is_full enter_picked pick remove new_session
on_event (tests addr now) d =
    if is_full d.server
    then d
    else record d { waiting = (addr, new_session d.server now) ∷ d.waiting }
on_event (enters i) d = enter_picked (pick i d.waiting) d
on_event (leaves addr) d = record d {
  server = record (d.server) { sess_mgr = remove addr d.server.sess_mgr };
}

pub run_doors : List Passing → Doors → Doors
unfolding on_event
run_doors [] d = d
run_doors (e ∷ es) d = run_doors es (on_event e d)

-- Never more than so many goroutines stand between the test and the insertion.
unfoldable pub Fits : ℕ → List Passing → Doors → Type 0
unfolding on_event
Fits most [] d = length d.waiting ≤ most
Fits most (e ∷ es) d = (length d.waiting ≤ most) × Fits most es (on_event e d)

Fits-now : (most : ℕ) (es : List Passing) (d : Doors) → Fits most es d → length d.waiting ≤ most
unfolding Fits
Fits-now most [] d h = h
Fits-now most (e ∷ es) d (h, hs) = h

length-insert_le {ℓ} :
    {V : Type ℓ} (k : Bytes) (v : V) (m : Map V) → length (insert k v m) ≤ length m + 1
unfolding insert
length-insert_le k v [] = omega arith
length-insert_le k v ((j, w) ∷ m) = ground (arith, length-insert_le k v m)

length-insert_new {ℓ} :
    {V : Type ℓ} (k : Bytes) (v : V) (m : Map V)
    → find k m ≡ none
    → length (insert k v m) ≡ length m + 1
unfolding insert find
length-insert_new k v [] h = omega arith
length-insert_new k v ((j, w) ∷ m) h = ground (arith, length-insert_new k v m)

length-remove_le {ℓ} : {V : Type ℓ} (k : Bytes) (m : Map V) → length (remove k m) ≤ length m
unfolding remove
length-remove_le k [] = omega arith
length-remove_le k ((j, w) ∷ m) = ground (arith, length-remove_le k m)

-- A list of the length given, less one, if anything is picked.
abbrev Shorter {ℓ} : {A : Type ℓ} → ℕ → Option (A × List A) → Type 0
Shorter n none = Unit
Shorter n (some (y, ys)) = n ≡ length ys + 1

Shorter-keep_front {ℓ} :
    {A : Type ℓ} (x : A) (n : ℕ) (o : Option (A × List A))
    → Shorter n o
    → Shorter (suc n) (keep_front x o)
unfolding keep_front
Shorter-keep_front x n none h = tt
Shorter-keep_front x n (some (y, ys)) h = omega arith

length-pick {ℓ} : {A : Type ℓ} (i : ℕ) (xs : List A) → Shorter (length xs) (pick i xs)
unfolding pick
length-pick i [] = tt
length-pick zero (x ∷ xs) = omega arith
length-pick (suc i) (x ∷ xs) = Shorter-keep_front x (length xs) (pick i xs) (length-pick i xs)

-- The configuration stays, and the sessions with those on the way to the map are at most `most` more
-- than MaxConn.
abbrev IsBounded : ProxyConfig → ℕ → Doors → Type 0
IsBounded conf most d =
    (d.server.conf ≡ conf)
    × (pos (length d.server.sess_mgr + length d.waiting) ≤ℤ conf.max_conn +ℤ pos most)

room :
    (n m most : ℕ) (c : ℤ)
    → ltb_ℤ c (pos n) ≡ false
    → suc m ≤ most
    → pos (n + suc m) ≤ℤ c +ℤ pos most
unfolding ◌+ℤ◌
room n m most c h k = ground arith

less : (n k : ℕ) (c : ℤ) → n ≤ k → pos k ≤ℤ c → pos n ≤ℤ c
less n k c h b = ground arith

on_event-tests :
    (addr : Bytes) (now : ℕ) (d : Doors)
    → is_full d.server ≡ false
    → on_event (tests addr now) d
      ≡ record d { waiting = (addr, new_session d.server now) ∷ d.waiting }
unfolding on_event
on_event-tests addr now d h = rw h refl

not_full :
    (ps : Server) → is_full ps ≡ false → ltb_ℤ ps.conf.max_conn (pos (length ps.sess_mgr)) ≡ false
unfolding is_full
not_full ps h = h

module _ (conf : ProxyConfig) (most : ℕ) where
  enter_picked-IsBounded :
      (o : Option ((Bytes × Session) × List (Bytes × Session))) (d : Doors)
      → Shorter (length d.waiting) o
      → IsBounded conf most d
      → IsBounded conf most (enter_picked o d)
  unfolding enter_picked
  enter_picked-IsBounded none d h b = b
  enter_picked-IsBounded (some ((addr, s), others)) d h (same, b) = (
    same,
    less (length (insert addr s d.server.sess_mgr) + length others)
        (length d.server.sess_mgr + length d.waiting) (conf.max_conn +ℤ pos most)
        (omega (arith, length-insert_le addr s d.server.sess_mgr)) b,
  )

  on_event-IsBounded :
      (e : Passing) (d : Doors)
      → length (on_event e d).waiting ≤ most
      → IsBounded conf most d
      → IsBounded conf most (on_event e d)
  on_event-IsBounded (tests addr now) d fits (same, b) = elim (Bool-cases (is_full d.server)) [
    | inl e ↦ unfold on_event in rw e (same, b)
    | inr e ↦
        let few : suc (length d.waiting) ≤ most = few_after e in
        let open_door : ltb_ℤ conf.max_conn (pos (length d.server.sess_mgr)) ≡ false =
          rw (sym same) (not_full d.server e) in
        unfold on_event in
        rw e (
          same,
          room (length d.server.sess_mgr) (length d.waiting) most conf.max_conn open_door few,
        )
  ]
    where
      few_after : is_full d.server ≡ false → suc (length d.waiting) ≤ most
      few_after e = rw (on_event-tests addr now d e) at fits
  on_event-IsBounded (enters i) d fits b =
      unfold on_event in enter_picked-IsBounded (pick i d.waiting) d (length-pick i d.waiting) b
  on_event-IsBounded (leaves addr) d fits (same, b) =
      unfold on_event in
      (
        same,
        less (length (remove addr d.server.sess_mgr) + length d.waiting)
            (length d.server.sess_mgr + length d.waiting) (conf.max_conn +ℤ pos most)
            (omega (arith, length-remove_le addr d.server.sess_mgr)) b,
      )

  run_doors-IsBounded :
      (es : List Passing) (d : Doors)
      → Fits most es d
      → IsBounded conf most d
      → IsBounded conf most (run_doors es d)
  unfolding run_doors Fits
  run_doors-IsBounded [] d fits b = b
  run_doors-IsBounded (e ∷ es) d (few, fits) b =
      run_doors-IsBounded es (on_event e d) fits
        (on_event-IsBounded e d (Fits-now most es (on_event e d) fits) b)

-- All of these pass the test before the first of them is in the map.
unfoldable pub burst : ℕ → List Bytes → List Passing
burst now [] = []
burst now (addr ∷ addrs) = tests addr now ∷ burst now addrs ++ enters 0 ∷ []

-- New addresses, each another one.
abbrev pub AreNew : List Bytes → Map Session → Type 0
AreNew [] m = Unit
AreNew (addr ∷ addrs) m =
    (find addr m ≡ none) × All (λ a. bytes_eq a addr ≡ false) addrs × AreNew addrs m

filled : ℕ → List Bytes → Server → Server
filled now [] ps = ps
filled now (addr ∷ addrs) ps = enter addr (new_session ps now) (filled now addrs ps)

run_doors-append :
    (es fs : List Passing) (d : Doors) → run_doors (es ++ fs) d ≡ run_doors fs (run_doors es d)
unfolding run_doors
run_doors-append [] fs d = refl
run_doors-append (e ∷ es) fs d = run_doors-append es fs (on_event e d)

on_event-enters :
    (addr : Bytes) (s : Session) (others : List (Bytes × Session)) (ps : Server)
    → on_event (enters 0) (record { server = ps; waiting = (addr, s) ∷ others })
      ≡ record { server = enter addr s ps; waiting = others }
unfolding on_event pick enter_picked
on_event-enters addr s others ps = refl

run_doors-burst :
    (now : ℕ) (addrs : List Bytes) (d : Doors)
    → is_full d.server ≡ false
    → run_doors (burst now addrs) d ≡ record d { server = filled now addrs d.server }
unfolding run_doors burst filled
run_doors-burst now [] d h = refl
run_doors-burst now (addr ∷ addrs) d h =
    let s = new_session d.server now in
    ap (run_doors (burst now addrs ++ enters 0 ∷ [])) (on_event-tests addr now d h)
    ∙ run_doors-append (burst now addrs) (enters 0 ∷ [])
        (record d { waiting = (addr, s) ∷ d.waiting })
    ∙ ap (run_doors (enters 0 ∷ []))
        (run_doors-burst now addrs (record d { waiting = (addr, s) ∷ d.waiting }) h)
    ∙ on_event-enters addr s d.waiting (filled now addrs d.server)

find-filled :
    (now : ℕ) (addr : Bytes) (addrs : List Bytes) (ps : Server)
    → All (λ a. bytes_eq a addr ≡ false) addrs
    → find addr (filled now addrs ps).sess_mgr ≡ find addr ps.sess_mgr
unfolding filled enter
find-filled now addr [] ps h = refl
find-filled now addr (a ∷ addrs) ps (ne, h) =
    find-insert a addr (new_session ps now) (filled now addrs ps).sess_mgr
    ∙ rw ne (find-filled now addr addrs ps h)

length-filled :
    (now : ℕ) (addrs : List Bytes) (ps : Server)
    → AreNew addrs ps.sess_mgr
    → length (filled now addrs ps).sess_mgr ≡ length ps.sess_mgr + length addrs
unfolding filled enter
length-filled now [] ps h = omega arith
length-filled now (addr ∷ addrs) ps (new, others, h) =
    let unknown = find-filled now addr addrs ps others ∙ new in
    omega (
      arith,
      length-insert_new addr (new_session ps now) (filled now addrs ps).sess_mgr unknown,
      length-filled now addrs ps h,
    )

more : (n most : ℕ) (c : ℤ) → pos n ≤ℤ c → pos (n + 0) ≤ℤ c +ℤ pos most
unfolding ◌+ℤ◌
more n most c h = ground arith

is_full-not : (ps : Server) → pos (length ps.sess_mgr) ≤ℤ ps.conf.max_conn → is_full ps ≡ false
unfolding is_full
is_full-not ps h = ground arith

-- The doors before any goroutine.
abbrev pub no_one : Server → Doors
no_one ps = record { server = ps; waiting = [] }

-- Start where the map has at most MaxConn sessions. However the goroutines interleave, the map has at
-- most so many sessions over MaxConn as goroutines ever stand together between the test and the
-- insertion, and the configuration stays. This is reached: any number of new connections that all pass
-- the test before the first is inserted are all let in.
pub run_doors-bounded :
    (ps : Server)
    → pos (length ps.sess_mgr) ≤ℤ ps.conf.max_conn
    → ((most : ℕ) (es : List Passing)
        → Fits most es (no_one ps)
        → ((run_doors es (no_one ps)).server.conf ≡ ps.conf)
          × (pos (length (run_doors es (no_one ps)).server.sess_mgr)
              ≤ℤ ps.conf.max_conn +ℤ pos most))
      × ((now : ℕ) (addrs : List Bytes)
          → AreNew addrs ps.sess_mgr
          → length (run_doors (burst now addrs) (no_one ps)).server.sess_mgr
            ≡ length ps.sess_mgr + length addrs)
run_doors-bounded ps few = (
  λ most es fits.
      let (same, bound) =
        run_doors-IsBounded ps.conf most es (no_one ps) fits
          (refl, more (length ps.sess_mgr) most ps.conf.max_conn few) in
      (
        same,
        less (length (run_doors es (no_one ps)).server.sess_mgr)
            (length (run_doors es (no_one ps)).server.sess_mgr
              + length (run_doors es (no_one ps)).waiting)
            (ps.conf.max_conn +ℤ pos most) (omega arith) bound,
      ),
  λ now addrs new.
      ap (λ (d : Doors). length d.server.sess_mgr)
        (run_doors-burst now addrs (no_one ps) (is_full-not ps few))
      ∙ length-filled now addrs ps new,
)
