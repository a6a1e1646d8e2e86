-- ===== src/Advertisements/Tables.antt =====
-- The tables of app/models/advertisement.py, the cache of the service, and its errors.
use naicha_backend.Prelude.{Bool, List, Option, String, ℕ}

-- ck_ad_creatives_jump_type
pub data JumpType : Type 0 where
  miniapp_page h5 no_jump : JumpType

pub record AdSlot : Type 0 where
  pub slot_id : ℕ
  pub code : String
  pub name : String
  pub created_at : ℕ

pub record AdCreative : Type 0 where
  pub creative_id : ℕ
  pub title : String
  pub image_url : String
  pub jump_type : JumpType
  pub jump_payload : Option String
  pub start_time : Option ℕ
  pub end_time : Option ℕ
  pub enabled : Bool
  pub priority : ℕ
  pub platforms : List String
  pub tags : List String
  pub updated_at : ℕ

pub record AdPlacement : Type 0 where
  pub placement_id : ℕ
  pub slot_code : String
  pub creative_id : ℕ
  pub sort_order : ℕ
  pub updated_at : ℕ

-- What `get_config` serves of a creative (AdConfigCreativeSchema).
pub record ServedCreative : Type 0 where
  pub creative_id : ℕ
  pub title : String
  pub image_url : String
  pub jump_type : JumpType
  pub jump_payload : Option String
  pub tags : List String
  pub priority : ℕ
  pub sort_order : ℕ

-- The creatives of each slot.
abbrev pub SlotConfig : Type 0
SlotConfig = List (String × List ServedCreative)

-- An entry of `_CONFIG_CACHE`; the key is the normalized slots and the platform.
pub record CachedConfig : Type 0 where
  pub slots : List String
  pub platform : String
  pub stored_at : ℕ
  pub version : ℕ
  pub served : SlotConfig
  pub next_change : Option ℕ

pub record AdState : Type 0 where
  pub slots : List AdSlot
  pub creatives : List AdCreative
  pub placements : List AdPlacement
  pub cache : List CachedConfig
  pub next_slot_id : ℕ
  pub next_creative_id : ℕ
  pub next_placement_id : ℕ

pub data AdError : Type 0 where
  slot_exists slot_not_found creative_not_found placement_conflict placement_not_found : AdError
  -- what `flush` raises for a code that is taken
  integrity_error : AdError
