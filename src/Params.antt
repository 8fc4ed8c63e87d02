-- ===== src/Params.antt =====
-- struct topic_params of include/rws/connector.hpp, over the type of rclcpp::Duration.
use rws.Base.{ℕ, ◌≡◌, ◌↔◌, Bool, true, false, ◌&&◌, ◌==◌, arith}
use rws.Base.Text.{Text, bytes, text_eq, text_eq_iff}

pub record TopicParams (Duration : Type 0) : Type 0 where
  pub history_depth : ℕ
  pub compression : Text
  pub topic : Text
  pub type : Text
  pub latch : Bool
  pub throttle_rate : Duration

abbrev pub same_bool : Bool → Bool → Bool
same_bool true b = b
same_bool false true = false
same_bool false false = true

module _ {Duration : Type 0} where
  -- The constructors that subscriptions and publishers use; `zero` is Duration(0, 0).
  unfoldable pub subscriber_params : Text → Text → ℕ → Text → Duration → TopicParams Duration
  subscriber_params t tp qs c tr = record {
    history_depth = qs;
    compression = c;
    topic = t;
    type = tp;
    latch = false;
    throttle_rate = tr;
  }

  unfoldable pub publisher_params : Duration → Text → Text → ℕ → Bool → TopicParams Duration
  publisher_params zero_duration t tp qs l = record {
    history_depth = qs;
    compression = bytes "none";
    topic = t;
    type = tp;
    latch = l;
    throttle_rate = zero_duration;
  }

  module _ (same_duration : Duration → Duration → Bool) where
    -- topic_params::operator==
    unfoldable pub params_eq : TopicParams Duration → TopicParams Duration → Bool
    params_eq a p =
        text_eq a.topic p.topic
        && (text_eq a.type p.type
            && (a.history_depth == p.history_depth
                && (same_duration a.throttle_rate p.throttle_rate
                    && (text_eq a.compression p.compression && same_bool a.latch p.latch))))

    -- operator== of topic_params holds exactly where all fields are equal, if that of durations is
    -- an equality.
    pub params_eq_iff :
        ((a b : Duration) → (same_duration a b ≡ true) ↔ (a ≡ b))
        → (a p : TopicParams Duration) → (params_eq a p ≡ true) ↔ (a ≡ p)
    unfolding params_eq
    params_eq_iff same a p = ground (
      arith,
      same a.throttle_rate p.throttle_rate,
      text_eq_iff a.topic p.topic,
      text_eq_iff a.type p.type,
      text_eq_iff a.compression p.compression,
    )
