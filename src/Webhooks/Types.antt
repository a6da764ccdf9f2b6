-- ===== src/Webhooks/Types.antt =====
-- The records of internal/webhooks/webhooks.go and the columns of its tables.
use git_castle.Prelude.{ℕ, String, Bool, Option, List}

pub record Hook : Type 0 where
  pub id : ℕ
  pub url : String
  pub secret : String
  pub events : List String

pub record HookRow : Type 0 where
  pub repository_id : ℕ
  pub hook : Hook
  pub active : Bool

pub record DeliveryRow : Type 0 where
  pub id : ℕ
  pub webhook_id : ℕ
  pub event_type : String
  pub payload : String
  pub status : ℕ
  pub attempts : ℕ
  pub delivered_at : Option ℕ
  pub created_at : ℕ

-- A row of ListDeliveries
pub record Delivery : Type 0 where
  pub id : ℕ
  pub webhook_id : ℕ
  pub event_type : String
  pub payload : String
  pub status : ℕ
  pub attempts : ℕ
  pub delivered : Bool
