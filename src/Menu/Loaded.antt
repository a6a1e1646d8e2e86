-- ===== src/Menu/Loaded.antt =====
-- As long as Redis answers, what each process gets is the current menu.
use naicha_backend.Database.{Settings}
use naicha_backend.Menu.{
  Loaded, MenuCaches, get_menu_payload, hydrate, is_outdated, load_from_cache, loaded, set_local,
  undisturbed,
}
use naicha_backend.Menu.Fresh.{
  IsCurrent, IsCurrent-hydrate, IsCurrent-set_local, IsCurrent-settled, IsCurrent-store_to_cache,
  IsKeptFor, read_remote_version_lem, settled, version_now,
}
use naicha_backend.Prelude.{
  Bool-cases, Option, Option-cases, ap, arith, false, inl, inr, ltb, none, refl, some, true, ℕ, ◌≡◌,
  ◌⊎◌,
}

module _ {P : Type 0} where
  -- Nothing is found or the current menu, and a version that was read is the version of now.
  abbrev pub IsLoaded : P → Loaded P → Type 0
  IsLoaded menu (found, snapshot, s) =
      ((found ≡ none) ⊎ (found ≡ some menu))
      × ((snapshot ≡ none) ⊎ (snapshot ≡ some (version_now s.version)))
      × IsCurrent menu s

  IsLoaded-hydrate :
      (settings : Settings) (menu : P) (s : MenuCaches P) (p now : ℕ) (snapshot : Option ℕ)
      → IsCurrent menu s
      → (snapshot ≡ none) ⊎ (snapshot ≡ some (version_now s.version))
      → IsLoaded menu (loaded snapshot (hydrate settings true p now (set_local p none s)))
  IsLoaded-hydrate settings menu s p now snapshot h read =
      let (found, fresh, same) =
        IsCurrent-hydrate settings menu (set_local p none s) p now
          (IsCurrent-set_local menu s p none h tt) in
      (found, rw same read, fresh)

  kept_payload :
      (menu payload : P) (n : ℕ) (version : Option ℕ)
      → IsKeptFor menu n version payload
      → is_outdated (some n) version ≡ false
      → payload ≡ menu
  kept_payload menu payload n none k current = absurd (ground (arith, current))
  kept_payload menu payload n (some v) k current = k.1 (ground (arith, current))

  IsLoaded-load_from_cache :
      (settings : Settings) (menu : P) (s : MenuCaches P) (p now : ℕ)
      → IsCurrent menu s
      → IsLoaded menu (load_from_cache settings true p now s)
  unfolding load_from_cache
  IsLoaded-load_from_cache settings menu s p now h = elim (Option-cases (s.local p)) [
    | inl nothing_kept ↦
        (let (found, fresh, same) = IsCurrent-hydrate settings menu s p now h in
          rw (nothing_kept, load_from_cache) (found, inl refl, fresh))
    | inr (e, kept) ↦ elim (Bool-cases (ltb e.expires_at now)) [
      | inl expired ↦
          rw (kept, load_from_cache, expired)
            (IsLoaded-hydrate settings menu s p now none h (inl refl))
      | inr still ↦
          (let read = read_remote_version_lem s p (h.connected p) in
            let settled_ = IsCurrent-settled menu s h in
            let kept_here : IsKeptFor menu (version_now s.version) e.version e.payload =
              rw kept at (h.local p) in
            elim (Bool-cases (is_outdated (some (version_now s.version)) e.version)) [
              | inl outdated ↦
                  rw (kept, load_from_cache, still, read, outdated)
                    (IsLoaded-hydrate settings menu (settled s) p now (some (version_now s.version))
                      settled_ (inr refl))
              | inr current ↦
                  rw (kept, load_from_cache, still, read, current)
                    (
                      inr (
                          ap some (
                            kept_payload menu e.payload (version_now s.version) e.version kept_here
                              current)),
                      inr refl,
                      settled_,
                    )
            ])
    ]
  ]

  -- A process gets the current menu, and the caches stay fresh.
  pub IsCurrent-get_menu_payload :
      (settings : Settings) (menu : P) (s : MenuCaches P) (p now : ℕ)
      → IsCurrent menu s
      → let (got, s') = get_menu_payload settings true p now undisturbed menu s in
        (got ≡ menu) × IsCurrent menu s'
  unfolding get_menu_payload
  IsCurrent-get_menu_payload settings menu s p now h =
      let l = load_from_cache settings true p now s in
      let (found, read, fresh) = IsLoaded-load_from_cache settings menu s p now h in
      elim found [
        | inl nothing_found ↦
            rw (nothing_found, get_menu_payload)
              (refl, IsCurrent-store_to_cache settings menu l.2 p now l.1 fresh read)
        | inr there ↦ rw (there, get_menu_payload) (refl, fresh)
      ]
