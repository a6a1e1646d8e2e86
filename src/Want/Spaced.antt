-- ===== src/Want/Spaced.antt =====
-- A requester's events of a product are about a minute apart.
use naicha_backend.Database.{Settings, minute}
use naicha_backend.Exec.{is_ok}
use naicha_backend.Models.Rows.{Product}
use naicha_backend.Prelude.{
  All, All-append, Bool, Bool-cases, List, Option, String, [], arith, false, if◌then◌else◌, inl,
  inr, is_some, ltb, not, refl, true, ℕ, ◌&&◌, ◌++◌, ◌+◌, ◌==◌, ◌||◌, ◌∷◌, ◌≡◌, ◌≤◌, ◌⊎◌,
}
use naicha_backend.Table.{find}
use naicha_backend.Want.{
  WantEvent, WantState, hash_ip, is_available, is_rate_limited, new_event, record_want,
  same_requester,
}

-- Two events, the first of which came before the second: more than a minute less the lag lies between
-- them, where the second one's requester is also the first one's.
abbrev pub is_apart : ℕ → WantEvent → WantEvent → Bool
is_apart lag e f =
    not (e.product_id == f.product_id && same_requester f.user_id f.ip_hash e)
    || ltb (e.created_at + minute) (f.created_at + lag)

abbrev pub IsSpaced : ℕ → List WantEvent → Type 0
IsSpaced lag [] = Unit
IsSpaced lag (e ∷ es) = All (λ f. is_apart lag e f ≡ true) es × IsSpaced lag es

IsSpaced-append :
    (lag : ℕ) (es : List WantEvent) (f : WantEvent)
    → IsSpaced lag es
    → All (λ e. is_apart lag e f ≡ true) es
    → IsSpaced lag (es ++ f ∷ [])
IsSpaced-append lag [] f spaced apart = (tt, tt)
IsSpaced-append lag (e ∷ es) f spaced apart = (
  All-append (λ g. is_apart lag e g ≡ true) es (f ∷ []) spaced.0 (apart.0, tt),
  IsSpaced-append lag es f spaced.1 apart.1,
)

-- Whoever is not limited has no event within the last minute.
apart_of_not_limited :
    (lag now created_at id product_id : ℕ) (user_id : Option ℕ) (ip_hash : Option String)
    (es : List WantEvent)
    → is_rate_limited product_id user_id ip_hash now es ≡ false
    → now ≤ created_at + lag
    → All (λ e. is_apart lag e (new_event id product_id user_id ip_hash created_at) ≡ true) es
unfolding is_rate_limited
apart_of_not_limited lag now created_at id product_id user_id ip_hash [] free early = tt
apart_of_not_limited lag now created_at id product_id user_id ip_hash (e ∷ es) free early = (
  ground (arith, free),
  apart_of_not_limited lag now created_at id product_id user_id ip_hash es (ground (arith, free))
      early,
)

module _ (settings : Settings) (sha256 : String → String → String) (now created_at product_id : ℕ)
    (user_id : Option ℕ) (ip : Option String) (s : WantState) where
  abbrev pub wanted_event : WantEvent
  wanted_event =
      new_event s.next_event_id product_id user_id (hash_ip sha256 settings.secret_key ip)
        created_at

  -- A call raises and changes nothing, or was not limited and adds its event.
  record_want-cases :
      let (r, s') = record_want settings sha256 now created_at product_id user_id ip s in
      ((is_ok r ≡ false) × (s' ≡ s))
      ⊎ ((is_ok r ≡ true)
          × (is_rate_limited product_id user_id (hash_ip sha256 settings.secret_key ip) now s.events
              ≡ false)
          × (s'.events ≡ s.events ++ wanted_event ∷ []))
  unfolding record_want
  record_want-cases = elim (Bool-cases settings.want_enabled) [
    | inr off ↦ inl (ground (arith, off), ground (arith, off))
    | inl on ↦
        elim (Bool-cases
          (is_available (find (λ (p : Product). p.product_id) product_id s.rows.products))) [
            | inr gone ↦ inl (ground (arith, on, gone), ground (arith, on, gone))
            | inl there ↦
                elim (Bool-cases
                  (is_some user_id || is_some (hash_ip sha256 settings.secret_key ip))) [
                    | inr nobody ↦
                        inl (ground (arith, on, there, nobody), ground (arith, on, there, nobody))
                    | inl somebody ↦
                        elim (Bool-cases (
                          is_rate_limited product_id user_id (hash_ip sha256 settings.secret_key ip)
                            now s.events)) [
                              | inl limited ↦ inl (
                                ground (arith, on, there, somebody, limited),
                                ground (arith, on, there, somebody, limited),
                              )
                              | inr free ↦ inr (
                                ground (arith, on, there, somebody, free),
                                free,
                                ground (arith, on, there, somebody, free),
                              )
                            ]
                  ]
          ]
  ]

  -- The database dates an event by the start of its transaction, before the clock is read for the rate
  -- limit. Where that is by at most `lag`, `record_want` keeps the events of one product apart: between
  -- two that count for the same requester, a user or else an address, lies more than a minute less the
  -- lag, if that was so before. A call that returns adds its event at the end, and a call that raises
  -- leaves the events as they are.
  pub record_want-IsSpaced :
      (lag : ℕ)
      → now ≤ created_at + lag
      → IsSpaced lag s.events
      → let (r, s') = record_want settings sha256 now created_at product_id user_id ip s in
        IsSpaced lag s'.events
        × (s'.events ≡ (if is_ok r then s.events ++ wanted_event ∷ [] else s.events))
  record_want-IsSpaced lag early spaced = elim record_want-cases [
    | inl (raised_, same) ↦ rw same (rw raised_ (spaced, refl))
    | inr (returned, free, added) ↦ rw added (
        rw returned (
          IsSpaced-append lag s.events wanted_event spaced (
              apart_of_not_limited lag now created_at s.next_event_id product_id user_id
                (hash_ip sha256 settings.secret_key ip) s.events free early),
          refl,
        ))
  ]
