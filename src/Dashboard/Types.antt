-- ===== src/Dashboard/Types.antt =====
-- frontend/src/lib/types.ts. An optional field is an `Option`; times stay texts, as the server
-- sends them.
use volq_auth.Base.{ℕ, Bool, Option, String}
use volq_auth.Base.Value.{ℤ}

pub record Application : Type 0 where
  pub id : String
  pub developer_id : String
  pub name : String
  pub master_public_key : String
  pub version : String
  pub download_url : String
  pub integrity_hash : String
  pub is_paused : Bool
  pub hwid_lock_enabled : Bool
  pub hwid_cooldown_days : ℕ
  pub webhook_url : String
  pub webhook_enabled : Bool
  pub created_at : String
  pub updated_at : String

pub data Status : Type 0 where
  unactivated active paused banned expired : Status

pub record License : Type 0 where
  pub id : String
  pub app_id : String
  pub subscription_id : Option String
  pub subscription_name : String
  pub tier_level : ℕ
  pub license_key : String
  pub duration_seconds : ℕ
  pub is_lifetime : Bool
  pub hwid_hash : Option String
  pub max_hwids : ℕ
  pub status : Status
  pub activated_at : Option String
  pub expires_at : Option String
  pub last_hwid_reset : Option String
  pub banned_reason : Option String
  pub note : String
  pub created_at : String

pub record AppUser : Type 0 where
  pub id : String
  pub app_id : String
  pub username : String
  pub license_id : Option String
  pub hwid_hash : Option String
  pub ip_address : Option String
  pub is_banned : Bool
  pub ban_reason : Option String
  pub created_at : String
  pub last_login_at : Option String

pub record Variable : Type 0 where
  pub id : String
  pub app_id : String
  pub var_key : String
  pub var_value : String
  pub min_tier_level : ℕ
  pub is_secret : Bool
  pub created_at : String

pub record FilePayload : Type 0 where
  pub id : String
  pub app_id : String
  pub file_name : String
  pub r2_storage_key : String
  pub sha256_hash : String
  pub file_size_bytes : ℕ
  pub min_tier_level : ℕ
  pub created_at : String

pub record Reseller : Type 0 where
  pub id : String
  pub developer_id : String
  pub app_id : String
  pub username : String
  pub credits : ℤ
  pub can_reset_hwid : Bool
  pub is_active : Bool
  pub created_at : String

pub record SecurityLog : Type 0 where
  pub id : ℕ
  pub app_id : String
  pub event_type : String
  pub actor_identifier : String
  pub ip_address : String
  pub details : String
  pub created_at : String

pub data Role : Type 0 where
  admin developer reseller : Role

pub record UserProfile : Type 0 where
  pub id : String
  pub username : String
  pub email : String
  pub role : Role
  pub app_id : Option String
  pub credits : Option ℤ
