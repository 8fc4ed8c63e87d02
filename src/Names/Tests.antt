-- ===== src/Names/Tests.antt =====
-- Names of the packages std_msgs and std_srvs.
use rws.Base.{◌≡◌, refl, ◌∷◌, ◌++◌}
use rws.Base.Result.{ok}
use rws.Base.Text.{bytes}
use rws.Names.{
  find_text, find_first_of, find_last_of, starts_with, slash, extract_type_identifier,
  get_type_from_message_members, service_symbol, message_type_to_ros2_style,
  message_type_to_ros1_style,
}
use rws.Names.Style.{message_type_to_ros1_style-message_type_to_ros2_style}
use rws.Names.Split.{extract_type_identifier-append}

message_type_to_ros1_style-message_type_to_ros2_style_example :
    message_type_to_ros1_style (bytes "std_msgs/msg/String") ≡ bytes "std_msgs/String"
unfolding message_type_to_ros2_style find_text starts_with
message_type_to_ros1_style-message_type_to_ros2_style_example =
    message_type_to_ros1_style-message_type_to_ros2_style (bytes "std_msgs/String")
      (bytes "std_msgs/msg/String") refl refl

extract_type_identifier-append_example :
    extract_type_identifier (bytes "std_srvs" ++ slash ∷ (bytes "srv" ++ slash ∷ bytes "Trigger"))
    ≡ ok (bytes "std_srvs", bytes "srv", bytes "Trigger")
unfolding find_first_of find_last_of
extract_type_identifier-append_example =
    extract_type_identifier-append (bytes "std_srvs") (bytes "srv") (bytes "Trigger") refl refl
      λ e. cc e

-- The cases of the repository's own tests.
get_type_from_message_members_request :
    get_type_from_message_members (bytes "std_srvs::srv") (bytes "Trigger_Request")
    ≡ ok (bytes "std_srvs/srv/Trigger_Request")
unfolding get_type_from_message_members find_text starts_with
get_type_from_message_members_request = refl

service_symbol_two_parts :
    service_symbol (bytes "ts") (bytes "std_srvs/Trigger")
    ≡ ok (bytes "ts__get_service_type_support_handle__std_srvs__srv__Trigger")
unfolding service_symbol extract_type_identifier find_first_of find_last_of
service_symbol_two_parts = refl
