-- ===== src/Menu/Fresh.antt =====
-- The caches as long as Redis answers: what is kept under the version of now is the current menu.
use naicha_backend.Database.{Settings, second}
use naicha_backend.Menu.{
  LocalMenu, MenuCaches, RemoteMenu, alive, bump_remote_version, delete_remote_payload, hydrate,
  invalidate_menu_cache, keep_remote, read_remote_payload, read_remote_version, set_local,
  store_to_cache, undisturbed, write_remote_payload,
}
use naicha_backend.Prelude.{
  Bool-cases, Option, Option-cases, ap, arith, false, inl, inr, ltb, none, refl, some, subst, sym,
  true, ℕ, ◌*◌, ◌+◌, ◌<◌, ◌==◌, ◌≡◌, ◌≤◌, ◌⊎◌,
}

-- The version that a process reads next.
abbrev pub version_now : Option ℕ → ℕ
version_now none = 0
version_now (some v) = v

module _ {P : Type 0} where
  -- A version that is not of the future, and the current menu where it is the version of now.
  abbrev pub IsKeptFor : P → ℕ → Option ℕ → P → Type 0
  IsKeptFor menu now_ none payload = Unit
  IsKeptFor menu now_ (some v) payload = (v ≤ now_) × ((v ≡ now_) → payload ≡ menu)

  abbrev pub IsLocalFor : P → ℕ → Option (LocalMenu P) → Type 0
  IsLocalFor menu now_ none = Unit
  IsLocalFor menu now_ (some e) = IsKeptFor menu now_ e.version e.payload

  abbrev pub IsRemoteFor : P → ℕ → Option (RemoteMenu P) → Type 0
  IsRemoteFor menu now_ none = Unit
  IsRemoteFor menu now_ (some e) = (e.version ≤ now_) × (e.payload ≡ menu)

  pub record IsCurrent (menu : P) (s : MenuCaches P) : Type 0 where
    pub local : (p : ℕ) → IsLocalFor menu (version_now s.version) (s.local p)
    pub remote : IsRemoteFor menu (version_now s.version) s.remote
    pub connected : (p : ℕ) → s.disabled p ≡ false

  pub IsCurrent-set_local :
      (menu : P) (s : MenuCaches P) (p : ℕ) (e : Option (LocalMenu P))
      → IsCurrent menu s
      → IsLocalFor menu (version_now s.version) e
      → IsCurrent menu (set_local p e s)
  IsCurrent-set_local menu s p e h k = record {
    local =
        λ q. elim (Bool-cases (q == p)) [ inl here ↦ rw here k | inr there ↦ rw there (h.local q) ];
    remote = h.remote;
    connected = h.connected;
  }

  -- The version in Redis, set where it was not.
  abbrev pub settled : MenuCaches P → MenuCaches P
  settled s = record s { version = some (version_now s.version) }

  pub IsCurrent-settled :
      (menu : P) (s : MenuCaches P) → IsCurrent menu s → IsCurrent menu (settled s)
  IsCurrent-settled menu s h = record {
    local = h.local;
    remote = h.remote;
    connected = h.connected;
  }

  pub read_remote_version_lem :
      (s : MenuCaches P) (p : ℕ)
      → s.disabled p ≡ false
      → read_remote_version true p s ≡ (some (version_now s.version), settled s)
  unfolding read_remote_version
  read_remote_version_lem s p on = elim (Option-cases s.version) [
    | inl unset ↦ rw (on, unset, read_remote_version) refl
    | inr (v, there) ↦
        rw (on, there, read_remote_version) (ap (λ x. (some v, record s { version = x })) there)
  ]

  IsRemoteFor-alive :
      (menu : P) (n now : ℕ) (r : Option (RemoteMenu P))
      → IsRemoteFor menu n r
      → IsRemoteFor menu n (alive now r)
  IsRemoteFor-alive menu n now none h = tt
  IsRemoteFor-alive menu n now (some e) h = elim (Bool-cases (ltb now e.expires_at)) [
    | inl still ↦ rw still h
    | inr expired ↦ rw expired tt
  ]

  read_remote_payload_lem :
      (s : MenuCaches P) (p now : ℕ)
      → s.disabled p ≡ false
      → read_remote_payload true p now s ≡ (alive now s.remote, s)
  unfolding read_remote_payload
  read_remote_payload_lem s p now on = ground (arith, on)

  IsCurrent-keep_remote :
      (settings : Settings) (menu : P) (s : MenuCaches P) (p now : ℕ) (r : Option (RemoteMenu P))
      → IsCurrent menu s
      → IsRemoteFor menu (version_now s.version) r
      → let (found, s') = keep_remote settings p now (r, s) in
        ((found ≡ none) ⊎ (found ≡ some menu)) × IsCurrent menu s' × (s'.version ≡ s.version)
  IsCurrent-keep_remote settings menu s p now none h k = (inl refl, h, refl)
  IsCurrent-keep_remote settings menu s p now (some e) h k =
      (inr (ap some k.1), IsCurrent-set_local menu s p _ h (k.0, λ _. k.1), refl)

  -- A menu that is taken from Redis is the current one.
  pub IsCurrent-hydrate :
      (settings : Settings) (menu : P) (s : MenuCaches P) (p now : ℕ)
      → IsCurrent menu s
      → let (found, s') = hydrate settings true p now s in
        ((found ≡ none) ⊎ (found ≡ some menu)) × IsCurrent menu s' × (s'.version ≡ s.version)
  unfolding hydrate
  IsCurrent-hydrate settings menu s p now h =
      subst
        (λ (r : Option (RemoteMenu P) × MenuCaches P).
          let (found, s') = keep_remote settings p now r in
          ((found ≡ none) ⊎ (found ≡ some menu)) × IsCurrent menu s' × (s'.version ≡ s.version))
        (sym (read_remote_payload_lem s p now (h.connected p)))
        (IsCurrent-keep_remote settings menu s p now (alive now s.remote) h
          (IsRemoteFor-alive menu (version_now s.version) now s.remote h.remote))

  IsCurrent-write_remote_payload :
      (settings : Settings) (menu : P) (s : MenuCaches P) (p now until ttl : ℕ)
      → IsCurrent menu s
      → let version = some (version_now s.version) in
        let entry : LocalMenu P = record {
          expires_at = until;
          version = version;
          payload = menu;
        } in
        IsCurrent menu
          (write_remote_payload true p now menu version ttl (set_local p (some entry) s))
  unfolding write_remote_payload
  IsCurrent-write_remote_payload settings menu s p now until ttl h =
      let entry : LocalMenu P = record {
        expires_at = until;
        version = some (version_now s.version);
        payload = menu;
      } in
      let kept = IsCurrent-set_local menu s p (some entry) h (omega arith, λ _. refl) in
      rw (h.connected p, write_remote_payload)
        (record { local = kept.local; remote = (omega arith, refl); connected = h.connected })

  pub IsCurrent-store_to_cache :
      (settings : Settings) (menu : P) (s : MenuCaches P) (p now : ℕ) (snapshot : Option ℕ)
      → IsCurrent menu s
      → (snapshot ≡ none) ⊎ (snapshot ≡ some (version_now s.version))
      → IsCurrent menu (store_to_cache settings true p now snapshot menu s)
  unfolding store_to_cache
  IsCurrent-store_to_cache settings menu s p now snapshot h known =
      let ttl = settings.menu_cache_ttl_seconds in
      let until = now + ttl * second in
      elim known [
        | inl unread ↦
            rw (unread, store_to_cache, read_remote_version_lem s p (h.connected p))
              (IsCurrent-write_remote_payload settings menu (settled s) p now until ttl
                (IsCurrent-settled menu s h))
        | inr read ↦
            rw (read, store_to_cache)
              (IsCurrent-write_remote_payload settings menu s p now until ttl h)
      ]

  IsKeptFor-later :
      (old menu : P) (n m : ℕ) (version : Option ℕ) (payload : P)
      → n < m
      → IsKeptFor old n version payload
      → IsKeptFor menu m version payload
  IsKeptFor-later old menu n m none payload h k = tt
  IsKeptFor-later old menu n m (some v) payload h k =
      (omega (arith, h, k.0), λ e. absurd (omega (arith, h, k.0, e)))

  IsLocalFor-later :
      (old menu : P) (n m : ℕ) (e : Option (LocalMenu P))
      → n < m
      → IsLocalFor old n e
      → IsLocalFor menu m e
  IsLocalFor-later old menu n m none h k = tt
  IsLocalFor-later old menu n m (some e) h k = IsKeptFor-later old menu n m e.version e.payload h k

  -- After an invalidation the caches are fresh for any menu.
  pub IsCurrent-invalidate_menu_cache :
      (old menu : P) (s : MenuCaches P) (p : ℕ)
      → IsCurrent old s
      → IsCurrent menu (invalidate_menu_cache true p undisturbed s)
  unfolding invalidate_menu_cache bump_remote_version delete_remote_payload
  IsCurrent-invalidate_menu_cache old menu s p h =
      let bumped : ℕ = elim s.version [ none ↦ 1 | some v ↦ v + 1 ] in
      let later : version_now s.version < bumped = elim (Option-cases s.version) [
        | inl unset ↦ rw unset (omega arith)
        | inr (v, there) ↦ rw there (omega arith)
      ] in
      rw
        (
          h.connected p,
          invalidate_menu_cache,
          bump_remote_version,
          delete_remote_payload,
          h.connected p,
        )
        (record {
          local = λ q. elim (Bool-cases (q == p)) [
            | inl here ↦ rw here tt
            | inr there ↦ rw there (
                IsLocalFor-later old menu (version_now s.version) bumped (s.local q) later
                  (h.local q))
          ];
          remote = tt;
          connected = h.connected;
        })
