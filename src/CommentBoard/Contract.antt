-- ===== src/CommentBoard/Contract.antt =====
-- comment-board/src/episode/contract.rs: the room's contract and its rules.
-- What no operation of the default build reads or writes after its creation is left out: the maps of
-- rewards, disputes, votes and reputations, and the fields for them. A ratio counts hundredths.
use kaspa_x.Base.{ℕ, Bool, true, Option, none, some, List, []}

pub record RoomRules : Type 0 where
  pub min_bond : ℕ
  pub max_bond : ℕ
  pub penalty_multiplier : ℕ
  pub bonds_enabled : Bool
  pub reward_pool_percentage : ℕ
  pub max_comment_length : ℕ
  pub spam_detection_enabled : Bool
  pub community_moderation : Bool
  pub auto_penalty_enabled : Bool
  pub dispute_resolution_timeout : ℕ
  pub voting_period : ℕ
  pub reputation_decay_rate : ℕ
  pub dynamic_bond_pricing : Bool
  pub quality_bonus_enabled : Bool

pub data ModerationStatus : Type 0 where
  active under_review penalized rewarded disputed : ModerationStatus

-- The reports of violations are always none here.
pub record EconomicComment : Type 0 where
  pub id : ℕ
  pub text : List ℕ
  pub author : ℕ
  pub timestamp : ℕ
  pub bond_amount : ℕ
  pub upvotes : ℕ
  pub downvotes : ℕ
  pub quality_score : ℕ
  pub earned_rewards : ℕ
  pub moderation_status : ModerationStatus
  pub dispute_id : Option ℕ

pub record CommentRoomContract : Type 0 where
  pub room_creator : ℕ
  pub room_rules : RoomRules
  pub created_at : ℕ
  pub episode_lifetime : ℕ
  pub participation_bond : ℕ
  pub penalty_pool : ℕ
  pub total_locked_value : ℕ
  pub moderators : List ℕ
  pub comments : List EconomicComment
  pub room_members : List ℕ
  pub authenticated_users : List ℕ
  pub current_challenge : Option (List ℕ)
  pub total_comments : ℕ

abbrev pub default_rules : RoomRules
default_rules = record {
  min_bond = 100000000;
  max_bond = 10000000000;
  penalty_multiplier = 200;
  bonds_enabled = true;
  reward_pool_percentage = 0;
  max_comment_length = 500;
  spam_detection_enabled = true;
  community_moderation = true;
  auto_penalty_enabled = true;
  dispute_resolution_timeout = 172800;
  voting_period = 86400;
  reputation_decay_rate = 1;
  dynamic_bond_pricing = true;
  quality_bonus_enabled = true;
}

abbrev pub lifetime_or_default : Option ℕ → ℕ
lifetime_or_default none = 7776000
lifetime_or_default (some secs) = secs

unfoldable pub new : ℕ → RoomRules → List ℕ → ℕ → Option ℕ → CommentRoomContract
new creator rules moderators initial_funding lifetime = record {
  room_creator = creator;
  room_rules = rules;
  created_at = 0;
  episode_lifetime = lifetime_or_default lifetime;
  participation_bond = rules.min_bond;
  penalty_pool = 0;
  total_locked_value = initial_funding;
  moderators = moderators;
  comments = [];
  room_members = [];
  authenticated_users = [];
  current_challenge = none;
  total_comments = 0;
}
