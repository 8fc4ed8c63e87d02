-- ===== src/Meta/Tests.antt =====
-- The definitions of small types, as the tests of the repository expect them.
use rws.Base.{◌≡◌, refl, true, false}
use rws.Base.Result.{ok}
use rws.Base.Text.{Text, bytes, text_eq}
use rws.Base.Keys.{find_key, insert_key}
use rws.Names.{get_type_from_message_members, find_text, starts_with}
use rws.Members.{ros_int32, ros_uint8, ros_uint32, Arity, Members, end, plain, nested}
use rws.Meta.{members_to_meta, sections, generate_message_meta}

abbrev single : Arity
single = record { is_array = false; array_size = 0; is_upper_bound = false; get_function = true }

abbrev time : Members
time = plain (bytes "sec") ros_int32 single (plain (bytes "nanosec") ros_uint32 single end)

abbrev time_member : Text → Members → Members
time_member name rest =
    nested name (bytes "builtin_interfaces::msg") (bytes "Time") time single rest

abbrev log : Members
log = time_member (bytes "stamp") (plain (bytes "level") ros_uint8 single end)

-- Once under another name, and then as a stamp.
abbrev created : Members
created = time_member (bytes "created") (time_member (bytes "stamp") end)

log_meta :
    generate_message_meta true log
    ≡ ok (
        bytes
          "builtin_interfaces/msg/Time stamp\nuint8 level\n============\nMSG: builtin_interfaces/msg/Time\nint32 sec\nuint32 nsec\n")
unfolding generate_message_meta members_to_meta sections find_key insert_key text_eq
    get_type_from_message_members find_text starts_with
log_meta = refl

created_meta :
    generate_message_meta true created
    ≡ ok (
        bytes
          "builtin_interfaces/msg/Time created\nbuiltin_interfaces/msg/Time stamp\n============\nMSG: builtin_interfaces/msg/Time\nint32 sec\nuint32 nanosec\n")
unfolding generate_message_meta members_to_meta sections find_key insert_key text_eq
    get_type_from_message_members find_text starts_with
created_meta = refl

abbrev table : Text → Members
table path = time
