-- ===== src/Ros.antt =====
-- What the code uses of rclcpp, through include/rws/node_interface.hpp: these types and operations
-- are not implemented in the repository, so the parts that use them take this record as a parameter.
use rws.Base.{ℕ, ◌≡◌, ◌↔◌, Bool, true, List}
use rws.Base.Result.{Result}
use rws.Base.Text.{Text}
use rws.Params.{TopicParams}

-- The two durability policies that the code tells apart.
pub data Durability : Type 0 where
  volatile transient_local : Durability

-- rclcpp::QoS, as far as the code sets it.
pub record Qos : Type 0 where
  pub depth : ℕ
  pub durability : Durability

pub record Ros : Type 1 where
  -- rclcpp::Duration and rclcpp::Time; `epoch` is Time(0, 0, RCL_ROS_TIME).
  pub Duration : Type 0
  pub Time : Type 0
  pub nanoseconds : Duration → ℕ
  pub zero_duration : Duration
  pub same_duration : Duration → Duration → Bool
  pub after : Time → Duration → Time
  pub earlier : Time → Time → Bool
  pub epoch : Time
  -- Everything outside the component that a call can read or change.
  pub World : Type 0
  pub now : World → Time × World
  -- Shared pointers to rclcpp::GenericSubscription and to the publisher class.
  pub Subscription : Type 0
  pub Publisher : Type 0
  -- Topic, type, QoS, and the parameters that the callback is bound to.
  pub create_generic_subscription :
      Text → Text → Qos → TopicParams Duration → World → World × Result Subscription
  pub create_generic_publisher : Text → Text → Qos → World → World × Result Publisher
  -- get_publishers_info_by_topic, which is taken to read the graph and change nothing.
  pub publisher_durabilities : Text → World → List Durability
  -- operator== of Duration is an equality.
  pub same_duration_iff : (a b : Duration) → (same_duration a b ≡ true) ↔ (a ≡ b)
