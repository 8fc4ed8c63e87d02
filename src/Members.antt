-- ===== src/Members.antt =====
-- The descriptors of message types that rosidl_typesupport_introspection_cpp makes, as far as
-- src/translate.cpp and src/typesupport_helpers.cpp read them.
use rws.Base.{ℕ, Bool, false, not, ◌&&◌, ◌==◌, Option, none, some, []}
use rws.Base.Text.{Text}
use rws.Cdr.Host.{one_byte, two_bytes, four_bytes, eight_bytes}
use rws.Cdr.Deser.{Shape}
use rws.Cdr.Ser.{Value}

-- The constants ROS_TYPE_... that name no message; `other` stands for any further number.
pub data TypeId : Type 0 where
  ros_bool ros_byte ros_uint8 ros_char ros_float32 ros_float64 ros_int8 ros_int16 : TypeId
  ros_uint16 ros_int32 ros_uint32 ros_int64 ros_uint64 ros_string ros_wstring : TypeId
  other : ℕ → TypeId

-- is_array_, array_size_, is_upper_bound_, and whether get_function is set.
pub record Arity : Type 0 where
  pub is_array : Bool
  pub array_size : ℕ
  pub is_upper_bound : Bool
  pub get_function : Bool

-- The members of a MessageMembers in their order: a name and a type, which for a message has its
-- message_namespace_, its message_name_ and its own members.
pub data Members : Type 0 where
  end : Members
  plain : Text → TypeId → Arity → Members → Members
  nested : Text → Text → Text → Members → Arity → Members → Members

-- The members of a service's request and of its response.
pub record ServiceMembers : Type 0 where
  pub request_members : Members
  pub response_members : Members

-- `member->array_size_ && !member->is_upper_bound_`
abbrev pub is_fixed : Arity → Bool
is_fixed a = not (a.array_size == 0) && not a.is_upper_bound

-- The type that the switch of translate.cpp gives to a `>>` or `<<`; none where it throws.
abbrev pub type_shape : TypeId → Option Shape
type_shape ros_bool = some Shape.boolean
type_shape ros_byte = some (Shape.scalar one_byte)
type_shape ros_uint8 = some (Shape.scalar one_byte)
type_shape ros_char = some (Shape.scalar one_byte)
type_shape ros_float32 = some (Shape.scalar four_bytes)
type_shape ros_float64 = some (Shape.scalar eight_bytes)
type_shape ros_int8 = some (Shape.scalar one_byte)
type_shape ros_int16 = some (Shape.scalar two_bytes)
type_shape ros_uint16 = some (Shape.scalar two_bytes)
type_shape ros_int32 = some (Shape.scalar four_bytes)
type_shape ros_uint32 = some (Shape.scalar four_bytes)
type_shape ros_int64 = some (Shape.scalar eight_bytes)
type_shape ros_uint64 = some (Shape.scalar eight_bytes)
type_shape ros_string = some Shape.text
type_shape ros_wstring = some Shape.wide_text
type_shape (other n) = none

-- The default_value of serialize_field: false, 0 or an empty text.
abbrev pub default_value : Shape → Value
default_value Shape.boolean = Value.boolean false
default_value (Shape.scalar w) = Value.scalar w 0
default_value Shape.text = Value.text []
default_value Shape.wide_text = Value.wide_text []
