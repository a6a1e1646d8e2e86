-- ===== src/Menu.antt =====
-- The caches of app/services/menu.py: each process keeps the menu for a while, and all share a payload
-- and a version in Redis. `up` says whether Redis answers during a call; a process that it fails once
-- never asks it again. A process is a number, and the payload is of any type; Payload builds it.
pub mod Payload
pub mod Listed
pub mod Fresh
mod Loaded
pub mod Served
use naicha_backend.Database.{Settings, second}
use naicha_backend.Prelude.{
  Bool, Option, false, if◌then◌else◌, ltb, max, none, not, some, true, ℕ, ◌*◌, ◌+◌, ◌==◌, ◌||◌,
}

-- An entry of `_MENU_CACHE`.
pub record LocalMenu (P : Type 0) : Type 0 where
  pub expires_at : ℕ
  pub version : Option ℕ
  pub payload : P

-- What is stored under `_MENU_PAYLOAD_KEY`, up to the time it expires.
pub record RemoteMenu (P : Type 0) : Type 0 where
  pub expires_at : ℕ
  pub version : ℕ
  pub payload : P

-- `_MENU_CACHE` and `_menu_version_disabled` of each process, and the two keys in Redis.
pub record MenuCaches (P : Type 0) : Type 0 where
  pub local : ℕ → Option (LocalMenu P)
  pub disabled : ℕ → Bool
  pub version : Option ℕ
  pub remote : Option (RemoteMenu P)

-- What `_load_from_cache` finds, the version it has read from Redis, and the caches after it.
abbrev pub Loaded : Type 0 → Type 0
Loaded P = Option P × Option ℕ × MenuCaches P

-- Whether the version in Redis is another than that of the entry.
abbrev pub is_outdated : Option ℕ → Option ℕ → Bool
is_outdated none cached = false
is_outdated (some v) none = true
is_outdated (some v) (some cached) = not (cached == v)

module _ {P : Type 0} where
  abbrev pub set_local : ℕ → Option (LocalMenu P) → MenuCaches P → MenuCaches P
  set_local p e s = record s { local = λ q. if q == p then e else s.local q }

  -- `_disable_menu_version_tracking`
  abbrev pub disable : ℕ → MenuCaches P → MenuCaches P
  disable p s = record s { disabled = λ q. q == p || s.disabled q }

  -- What each access to Redis does where there is no client, or where Redis fails.
  abbrev pub with_client :
      {A : Type 0}
      → Bool
      → ℕ
      → A
      → (MenuCaches P → A × MenuCaches P)
      → MenuCaches P
      → A × MenuCaches P
  with_client up p nothing_read access s =
      if s.disabled p
      then (nothing_read, s)
      else if up
      then access s
      else (nothing_read, disable p s)

  -- `_read_remote_menu_version`, which sets a version that is not there.
  unfoldable pub read_remote_version : Bool → ℕ → MenuCaches P → Option ℕ × MenuCaches P
  read_remote_version up p = with_client up p none (λ s. elim s.version [
    | none ↦ (some 0, record s { version = some 0 })
    | some v ↦ (some v, s)
  ])

  -- `_bump_remote_menu_version`; INCR takes a key that is not there for 0.
  unfoldable pub bump_remote_version : Bool → ℕ → MenuCaches P → MenuCaches P
  bump_remote_version up p s =
      (with_client {A = Unit {0}} up p tt
        (λ s. (tt, record s { version = some (elim s.version [ none ↦ 1 | some v ↦ v + 1 ]) })) s).1

  -- `_delete_remote_menu_payload`
  unfoldable pub delete_remote_payload : Bool → ℕ → MenuCaches P → MenuCaches P
  delete_remote_payload up p s =
      (with_client {A = Unit {0}} up p tt (λ s. (tt, record s { remote = none })) s).1

  -- `_write_remote_menu_payload`
  unfoldable pub write_remote_payload :
      Bool → ℕ → ℕ → P → Option ℕ → ℕ → MenuCaches P → MenuCaches P
  write_remote_payload up p now payload version ttl s =
      let entry : RemoteMenu P = record {
        expires_at = now + max ttl 1 * second;
        version = elim version [ none ↦ 0 | some v ↦ v ];
        payload = payload;
      } in
      (with_client {A = Unit {0}} up p tt (λ s. (tt, record s { remote = some entry })) s).1

  -- The payload in Redis that has not expired.
  abbrev pub alive : ℕ → Option (RemoteMenu P) → Option (RemoteMenu P)
  alive now none = none
  alive now (some e) = if ltb now e.expires_at then some e else none

  -- `_read_remote_menu_payload`
  unfoldable pub read_remote_payload :
      Bool → ℕ → ℕ → MenuCaches P → Option (RemoteMenu P) × MenuCaches P
  read_remote_payload up p now = with_client up p none (λ s. (alive now s.remote, s))

  -- `invalidate_menu_cache`: the own cache is cleared at once, and Redis by a task in the background;
  -- `meanwhile` is what happens to the caches before that runs.
  unfoldable pub invalidate_menu_cache :
      Bool → ℕ → (MenuCaches P → MenuCaches P) → MenuCaches P → MenuCaches P
  unfolding bump_remote_version delete_remote_payload
  invalidate_menu_cache up p meanwhile s =
      bump_remote_version up p (delete_remote_payload up p (meanwhile (set_local p none s)))

  -- `_hydrate_from_remote_cache`, from what was read on.
  abbrev pub keep_remote :
      Settings → ℕ → ℕ → Option (RemoteMenu P) × MenuCaches P → Option P × MenuCaches P
  keep_remote settings p now (none, s) = (none, s)
  keep_remote settings p now (some e, s) = (
    some e.payload,
    set_local p
        (some (record {
          expires_at = now + settings.menu_cache_ttl_seconds * second;
          version = some e.version;
          payload = e.payload;
        }))
        s,
  )

  unfoldable pub hydrate : Settings → Bool → ℕ → ℕ → MenuCaches P → Option P × MenuCaches P
  unfolding read_remote_payload
  hydrate settings up p now s = keep_remote settings p now (read_remote_payload up p now s)

  abbrev pub loaded : Option ℕ → Option P × MenuCaches P → Loaded P
  loaded snapshot (found, s) = (found, snapshot, s)

  -- `_load_from_cache`
  unfoldable pub load_from_cache : Settings → Bool → ℕ → ℕ → MenuCaches P → Loaded P
  unfolding hydrate read_remote_version
  load_from_cache settings up p now s = elim (s.local p) [
    | none ↦ loaded none (hydrate settings up p now s)
    | some e ↦
        if ltb e.expires_at now
        then loaded none (hydrate settings up p now (set_local p none s))
        else (let (remote_version, s') = read_remote_version up p s in
            if is_outdated remote_version e.version
            then loaded remote_version (hydrate settings up p now (set_local p none s'))
            else (some e.payload, remote_version, s'))
  ]

  -- `_store_to_cache`
  unfoldable pub store_to_cache :
      Settings → Bool → ℕ → ℕ → Option ℕ → P → MenuCaches P → MenuCaches P
  unfolding read_remote_version write_remote_payload
  store_to_cache settings up p now snapshot payload s =
      let ttl = settings.menu_cache_ttl_seconds in
      let (version, s') : Option ℕ × MenuCaches P = elim snapshot [
        | none ↦ read_remote_version up p s
        | some v ↦ (some v, s)
      ] in
      write_remote_payload up p now payload version ttl (
        set_local p
          (some (record { expires_at = now + ttl * second; version = version; payload = payload }))
          s')

  -- `get_menu_payload`: `payload` is what `_build_menu_payload` reads after the caches were asked, and
  -- `meanwhile` what happens to the caches before it is stored.
  unfoldable pub get_menu_payload :
      Settings → Bool → ℕ → ℕ → (MenuCaches P → MenuCaches P) → P → MenuCaches P → P × MenuCaches P
  unfolding load_from_cache store_to_cache
  get_menu_payload settings up p now meanwhile payload s =
      let (cached, snapshot, s') = load_from_cache settings up p now s in
      elim cached [
        | some found ↦ (found, s')
        | none ↦ (payload, store_to_cache settings up p now snapshot payload (meanwhile s'))
      ]

-- Nothing happens meanwhile.
abbrev pub undisturbed : {A : Type 0} → A → A
undisturbed s = s
