-- ===== src/Advertisements/Configs/Current.antt =====
-- What `get_config` serves, from the cache or not, is what would be computed.
use naicha_backend.Advertisements.{max_by}
use naicha_backend.Advertisements.Configs.{
  AdConfig, active_in, compute_config, config_answer, find_config, get_config, in_order, is_before,
  is_config, is_valid, load_active, next_change_of, normalize_slots, placed_creatives, serve_config,
  store_config, version_of,
}
use naicha_backend.Advertisements.Configs.Calm.{
  EndsApart, all-IsCalm, load_active-calm, mem_text_self,
}
use naicha_backend.Advertisements.Configs.Plain.{normalize_slots-lacks}
use naicha_backend.Advertisements.Keys.{
  IsPlain, build_cache_key, build_cache_key-eq, colon, comma, lacks,
}
use naicha_backend.Advertisements.Tables.{
  AdCreative, AdPlacement, AdState, CachedConfig, ServedCreative,
}
use naicha_backend.Database.{second}
use naicha_backend.Prelude.{
  All, All-map, All-select, Bool-cases, List, List-cases, Option-cases, String, [], ap, arith,
  eq_iff, inl, inr, map, not, refl, some, sort_by, subst, true, ℕ, ◌<◌, ◌==◌, ◌∙◌, ◌∷◌, ◌≡◌, ◌≤◌,
}
use naicha_backend.Table.{find}

-- Without creatives nothing is active.
active_in-nobody :
    (now : ℕ) (platform code : String) (ps : List AdPlacement)
    → active_in now platform code [] ps ≡ []
unfolding active_in find
active_in-nobody now platform code [] = refl
active_in-nobody now platform code (p ∷ ps) = ground (arith, active_in-nobody now platform code ps)

load_active-nobody :
    (slots : List String) (platform : String) (now : ℕ) (ps : List AdPlacement)
    → map {B = String × List ServedCreative}
        (λ slot. (slot, in_order (active_in now platform slot [] ps)))
        slots
      ≡ map (λ (slot : String). (slot, [])) slots
unfolding in_order sort_by
load_active-nobody [] platform now ps = refl
load_active-nobody (slot ∷ slots) platform now ps =
    let empty : in_order (active_in now platform slot [] ps) ≡ [] =
      ap in_order (active_in-nobody now platform slot ps) in
    cc (empty, load_active-nobody slots platform now ps)

without :
    (cs : List AdCreative)
    → All (λ (c : AdCreative). second ≤ c.updated_at) cs
    → max_by (λ (c : AdCreative). c.updated_at) cs < second
    → cs ≡ []
without [] written h = refl
without (c ∷ cs) written h = absurd (omega (arith, written.0, h))

no_version :
    (slots : List String) (now : ℕ) (s : AdState)
    → All (λ (c : AdCreative). second ≤ c.updated_at) s.creatives
    → version_of slots now s ≡ 0
    → s.creatives ≡ []
unfolding version_of
no_version slots now s written none_yet = without s.creatives written (ground (arith, none_yet))

-- What is computed is what the creatives give at that time.
served-compute_config :
    (slots : List String) (platform : String) (now : ℕ) (s : AdState)
    → All (λ (c : AdCreative). second ≤ c.updated_at) s.creatives
    → (compute_config slots platform now s).served ≡ load_active slots platform now s
unfolding compute_config load_active
served-compute_config slots platform now s written =
    elim (Bool-cases (version_of slots now s == 0)) [
      | inr some_version ↦ rw some_version refl
      | inl none_yet ↦
          (let nobody = no_version slots now s written (ground (arith, none_yet)) in
            let empty = load_active-nobody slots platform now s.placements in
            rw (none_yet, nobody, empty) refl)
    ]

-- An entry of the cache is what the creatives gave at the time it was stored, before now.
pub record IsCoherent (now : ℕ) (s : AdState) (e : CachedConfig) : Type 0 where
  pub early : e.stored_at ≤ now
  pub served : e.served ≡ load_active e.slots e.platform e.stored_at s
  pub next_change :
      e.next_change ≡ next_change_of e.stored_at (placed_creatives e.slots s.creatives s.placements)
  pub apart : All (EndsApart e.stored_at) s.creatives
  pub plain : IsPlain e.slots e.platform

found-config :
    (P : CachedConfig → Type 0) (slots : List String) (platform : String) (es : List CachedConfig)
    {e : CachedConfig}
    → All P es
    → find_config slots platform es ≡ some e
    → P e × (build_cache_key e.slots e.platform ≡ build_cache_key slots platform)
unfolding find_config
found-config P slots platform [] all h = absurd (ground (arith, h))
found-config P slots platform (x ∷ es) {e} all h = elim (Bool-cases (is_config slots platform x)) [
  | inr other ↦ found-config P slots platform es all.1 (ground (arith, other, h))
  | inl here ↦
      (let same : x ≡ e = ground (arith, here, h) in
        let key =
          (eq_iff (build_cache_key x.slots x.platform) (build_cache_key slots platform)).0 here in
        subst (λ e. P e × (build_cache_key e.slots e.platform ≡ build_cache_key slots platform))
          same (all.0, key))
]

-- An entry that is still valid serves what the creatives give now.
coherent-load_active :
    (now : ℕ) (s : AdState) (e : CachedConfig)
    → IsCoherent now s e
    → is_valid now e ≡ true
    → e.served ≡ load_active e.slots e.platform now s
unfolding is_valid load_active
coherent-load_active now s e h valid =
    let quiet : is_before now e.next_change ≡ true = ground (arith, valid) in
    let calm =
      all-IsCalm e.stored_at now (placed_creatives e.slots s.creatives s.placements)
        (subst (λ t. is_before now t ≡ true) h.next_change quiet) in
    h.served
    ∙ load_active-calm e.stored_at now e.platform e.slots s.creatives h.early h.apart s.placements
        e.slots (mem_text_self e.slots) calm

IsCoherent-compute_config :
    (slots : List String) (platform : String) (now : ℕ) (s : AdState)
    → All (λ (c : AdCreative). second ≤ c.updated_at) s.creatives
    → All (EndsApart now) s.creatives
    → IsPlain slots platform
    → IsCoherent now s (compute_config slots platform now s)
unfolding compute_config
IsCoherent-compute_config slots platform now s written apart plain = record {
  early = omega arith;
  served = served-compute_config slots platform now s written;
  next_change = refl;
  apart = apart;
  plain = plain;
}

IsCoherent-cache :
    (now : ℕ) (s : AdState) (cache : List CachedConfig) (e : CachedConfig)
    → IsCoherent now s e
    → IsCoherent now (record s { cache = cache }) e
unfolding load_active
IsCoherent-cache now s cache e h = record {
  early = h.early;
  served = h.served;
  next_change = h.next_change;
  apart = h.apart;
  plain = h.plain;
}

serve_config-current :
    (slots : List String) (platform : String) (version now : ℕ) (s : AdState)
    → All (λ (c : AdCreative). second ≤ c.updated_at) s.creatives
    → All (EndsApart now) s.creatives
    → All (IsCoherent now s) s.cache
    → IsPlain slots platform
    → let answered = serve_config slots platform version now s in
      (answered.0 ≡ config_answer version answered.0.version (load_active slots platform now s))
      × All (IsCoherent now answered.1) answered.1.cache
unfolding serve_config store_config
serve_config-current slots platform version now s written apart coherent plain =
    let new = compute_config slots platform now s in
    let cache = store_config new s.cache in
    let Current = λ (answered : AdConfig × AdState).
      (answered.0 ≡ config_answer version answered.0.version (load_active slots platform now s))
      × All (IsCoherent now answered.1) answered.1.cache in
    let fresh : Current (config_answer version new.version new.served, record s { cache = cache }) =
      (
        ap (config_answer version new.version) (served-compute_config slots platform now s written),
        All-map (IsCoherent-cache now s cache) cache (
          IsCoherent-compute_config slots platform now s written apart plain,
          All-select (IsCoherent now s) (λ x. not (is_config new.slots new.platform x)) s.cache
              coherent,
        ),
      ) in
    elim (Option-cases (find_config slots platform s.cache)) [
      | inl absent ↦ rw (absent, serve_config) fresh
      | inr (e, found) ↦ elim (Bool-cases (is_valid now e)) [
        | inr stale ↦ rw (found, stale, serve_config) fresh
        | inl valid ↦
            (let (kept, key) =
                found-config (IsCoherent now s) slots platform s.cache coherent found in
              let (same_slots, same_platform) =
                build_cache_key-eq e.slots slots e.platform platform kept.plain plain key in
              let served : e.served ≡ load_active slots platform now s =
                subst (λ t. e.served ≡ load_active t platform now s) same_slots
                  (subst (λ t. e.served ≡ load_active e.slots t now s) same_platform
                    (coherent-load_active now s e kept valid)) in
              rw (found, valid, serve_config)
                (ap (config_answer version e.version) served, coherent))
      ]
    ]

-- The client gets what the creatives give at that very time for the slots it names, stripped, sorted and
-- each once, or no slots where it has that version already; and the cache is coherent again after it.
-- This is so whether the cache serves or not, if the cache was coherent, all creatives were updated a
-- second after the epoch or later, none of them ends at that very instant, the slots have no comma and
-- the platform no colon, so that the key of the cache tells them apart (as what is cached has none
-- either, by its coherence).
pub get_config-current :
    (slots : List String) (platform : String) (version now : ℕ) (s : AdState)
    → All (λ (c : AdCreative). second ≤ c.updated_at) s.creatives
    → All (EndsApart now) s.creatives
    → All (IsCoherent now s) s.cache
    → All (λ slot. lacks comma slot ≡ true) slots
    → lacks colon platform ≡ true
    → let answered = get_config slots platform version now s in
      (answered.0.slots
        ≡ (config_answer version answered.0.version
            (load_active (normalize_slots slots) platform now s)).slots)
      × All (IsCoherent now answered.1) answered.1.cache
unfolding get_config
get_config-current slots platform version now s written apart coherent commas colons =
    elim (List-cases (normalize_slots slots)) [
      | inl no_slot ↦ rw (no_slot, get_config) (ground arith, coherent)
      | inr (slot, (rest, asked)) ↦
          (let plain : IsPlain (slot ∷ rest) platform = record {
            some_slot = refl;
            commas = rw asked at (normalize_slots-lacks comma slots commas);
            colons = colons;
          } in
            let (served, kept) =
              serve_config-current (slot ∷ rest) platform version now s written apart coherent
                plain in
            rw (asked, get_config) (ap (λ (c : AdConfig). c.slots) served, kept))
    ]
