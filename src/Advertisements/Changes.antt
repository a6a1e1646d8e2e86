-- ===== src/Advertisements/Changes.antt =====
-- The update of a creative: what is sent, and what `flush` writes.
use mathlib.Core.Logic.{ite}
use native.Mathlib.Decide.{ℕ_discrete}
use naicha_backend.Advertisements.Tables.{AdCreative, JumpType}
use naicha_backend.Prelude.{
  Bool, Bool-cases, List, Option, String, [], arith, eq_iff, inl, inr, none, some, str_eq, ℕ, ◌∷◌,
}

abbrev pub or_miniapp : List String → List String
or_miniapp [] = "miniapp" ∷ []
or_miniapp (p ∷ ps) = p ∷ ps

-- AdCreativeUpdateSchema: a field that is not sent is `none`; of those that may be null, the inner
-- value is what is sent.
pub record CreativeChanges : Type 0 where
  pub title : Option String
  pub image_url : Option String
  pub jump_type : Option JumpType
  pub jump_payload : Option (Option String)
  pub start_time : Option (Option ℕ)
  pub end_time : Option (Option ℕ)
  pub enabled : Option Bool
  pub priority : Option ℕ
  pub platforms : Option (List String)
  pub tags : Option (List String)

abbrev pub changed {ℓ} : {A : Type ℓ} → Option A → A → A
changed none old = old
changed (some new) old = new

unfoldable pub change_creative : CreativeChanges → AdCreative → AdCreative
change_creative ch c = record c {
  title = changed ch.title c.title;
  image_url = changed ch.image_url c.image_url;
  jump_type = changed ch.jump_type c.jump_type;
  jump_payload = changed ch.jump_payload c.jump_payload;
  start_time = changed ch.start_time c.start_time;
  end_time = changed ch.end_time c.end_time;
  enabled = changed ch.enabled c.enabled;
  priority = changed ch.priority c.priority;
  platforms = elim ch.platforms [ none ↦ c.platforms | some ps ↦ or_miniapp ps ];
  tags = changed ch.tags c.tags;
}

pub String-discrete : Discrete String
String-discrete a b = elim (Bool-cases (str_eq a b)) [
  | inl same ↦ yes ((eq_iff a b).0 same)
  | inr other ↦ no (λ e. ground (arith, other, (eq_iff a b).1 e))
]

pub AdCreative-discrete : Discrete AdCreative
AdCreative-discrete = hlevel (ℕ_discrete, String-discrete)

-- What `flush` writes of a row: `onupdate` sets the time of a row that differs.
unfoldable pub flush_creative : ℕ → AdCreative → AdCreative → AdCreative
flush_creative now old new = ite (AdCreative-discrete new old) old (record new { updated_at = now })
