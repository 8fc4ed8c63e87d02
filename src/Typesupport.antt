-- ===== src/Typesupport.antt =====
-- The cache of libraries and the raw messages of src/typesupport_helpers.cpp, on a system that is
-- neither Windows nor macOS. The mutex is left out: calls are taken one after the other.
pub mod Cached
pub mod Inside
mod Tests
use rws.Base.{
  ℕ, zero, suc, ◌+◌, Bool, true, false, Option, none, some, List, [], ◌∷◌, ◌++◌, ◌==◌, length,
  if◌then◌else◌,
}
use rws.Base.Keys.{find_key, insert_key}
use rws.Base.Result.{Result, ok, err, fault, no_library, ◌>>=◌}
use rws.Base.Run.{and_then}
use rws.Base.Text.{Text, bytes}
use rws.Names.{extract_type_identifier}

-- What the code calls of ament_index_cpp and rcpputils; `load` is the constructor of SharedLibrary.
pub record Loader (World Library : Type 0) : Type 0 where
  pub get_package_prefix : Text → World → Option Text
  pub path_for_library : Text → Text → Text
  pub load : Text → World → World × Result Library

module _ {World Library : Type 0} (loader : Loader World Library) where
  open loader use {get_package_prefix, path_for_library, load}

  abbrev pub checked_path : Text → Result Text
  checked_path path = if length path == 0 then err no_library else ok path

  unfoldable pub get_typesupport_library_path : Text → Text → World → Result Text
  get_typesupport_library_path package_name identifier w =
      elim (get_package_prefix package_name w) [
        | none ↦ err no_library
        | some package_prefix ↦ checked_path (
            path_for_library (package_prefix ++ bytes "/lib/")
              (package_name ++ (bytes "__" ++ identifier)))
      ]

  -- g_shared_libs_, and the world.
  abbrev pub Shared : Type 0
  Shared = List (Text × Library) × World

  abbrev pub stored :
      Text → List (Text × Library) → World × Result Library → Shared × Result Library
  stored type_id libs (w, ok library) = ((insert_key type_id library libs, w), ok library)
  stored type_id libs (w, err e) = ((libs, w), err e)
  stored type_id libs (w, fault) = ((libs, w), fault)

  abbrev pub library_path : Text → Text → World → Result Text
  library_path type identifier w = do
    names ← extract_type_identifier type
    get_typesupport_library_path names.0 identifier w

  unfoldable pub get_typesupport_library : Text → Text → Shared → Shared × Result Library
  get_typesupport_library type identifier (libs, w) =
      let type_id = type ++ identifier in
      elim (find_key type_id libs) [
        | none ↦ stored type_id libs (and_then (w, library_path type identifier w) load)
        | some library ↦ ((libs, w), ok library)
      ]

-- The objects that the code makes in a message, with what it is on a machine: sizeof(std::string),
-- sizeof(std::wstring), and the size of a std::vector.
pub data Made : Type 0 where
  string wstring strings wstrings : Made

-- A member of a MessageMembers: its offset_, and what its type is.
mutual
  pub data Layout : Type 0 where
    last : Layout
    member : ℕ → MemberType → Layout → Layout

  pub data MemberType : Type 0 where
    ros_string ros_wstring : Bool → MemberType
    -- members_ and is_array_
    ros_message : Layout → Bool → MemberType
    -- any other type, with its size
    other : ℕ → MemberType

abbrev pub made_string : Bool → Made
made_string true = strings
made_string false = string

abbrev pub made_wstring : Bool → Made
made_wstring true = wstrings
made_wstring false = wstring

-- The objects that are copied into the message that starts at `buf`, in their order.
unfoldable mutual
  pub allocate_string_members : Layout → ℕ → List (ℕ × Made)
  allocate_string_members last buf = []
  allocate_string_members (member offset t rest) buf =
      allocate_member offset t buf ++ allocate_string_members rest buf

  pub allocate_member : ℕ → MemberType → ℕ → List (ℕ × Made)
  allocate_member offset (ros_string is_array) buf = (buf + offset, made_string is_array) ∷ []
  allocate_member offset (ros_wstring is_array) buf = (buf + offset, made_wstring is_array) ∷ []
  allocate_member offset (ros_message sub true) buf = []
  allocate_member offset (ros_message sub false) buf = allocate_string_members sub buf
  allocate_member offset (other size) buf = []

-- The size of the block, the number of bytes that are cleared, and the objects in it.
pub record Allocated : Type 0 where
  pub size : ℕ
  pub cleared : ℕ
  pub objects : List (ℕ × Made)

abbrev pub msg_mem_block_size : ℕ
msg_mem_block_size = 1024

unfoldable pub allocate_message : ℕ → Layout → Allocated
allocate_message size_of members = record {
  size = size_of + msg_mem_block_size;
  cleared = msg_mem_block_size;
  objects = allocate_string_members members 0;
}
