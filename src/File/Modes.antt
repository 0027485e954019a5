-- ===== src/File/Modes.antt =====
-- fs/open_options.cpp: the modes a file is opened in. The flags of open(2) are named, not numbers;
-- their order in a list has no meaning.
use vacps.Prelude.{
  ◌≡◌, refl, List, [], ◌∷◌, Bool, true, false, ◌||◌, Option, none, some, if◌then◌else◌,
}
use vacps.Process.State.{Bytes}
use vacps.CommandLine.Names.{same_bytes}

pub data OpenMode : Type 0 where
  read read_write write write_new append append_read : OpenMode

pub data OpenFlag : Type 0 where
  o_rdonly o_rdwr o_wronly o_creat o_trunc o_excl o_append : OpenFlag

unfoldable pub open_mode_to_string : OpenMode → Bytes
open_mode_to_string read = b'r' ∷ b'e' ∷ b'a' ∷ b'd' ∷ []
open_mode_to_string read_write =
    b'r' ∷ b'e' ∷ b'a' ∷ b'd' ∷ b'-' ∷ b'w' ∷ b'r' ∷ b'i' ∷ b't' ∷ b'e' ∷ []
open_mode_to_string write = b'w' ∷ b'r' ∷ b'i' ∷ b't' ∷ b'e' ∷ []
open_mode_to_string write_new = b'w' ∷ b'r' ∷ b'i' ∷ b't' ∷ b'e' ∷ b'-' ∷ b'n' ∷ b'e' ∷ b'w' ∷ []
open_mode_to_string append = b'a' ∷ b'p' ∷ b'p' ∷ b'e' ∷ b'n' ∷ b'd' ∷ []
open_mode_to_string append_read =
    b'a' ∷ b'p' ∷ b'p' ∷ b'e' ∷ b'n' ∷ b'd' ∷ b'-' ∷ b'r' ∷ b'e' ∷ b'a' ∷ b'd' ∷ []

-- `none` is the error of an unknown mode.
unfoldable pub open_mode_from_string : Bytes → Option OpenMode
open_mode_from_string s =
    if same_bytes s (b'r' ∷ b'e' ∷ b'a' ∷ b'd' ∷ [])
    then some read
    else if same_bytes s (b'r' ∷ b'e' ∷ b'a' ∷ b'd' ∷ b'-' ∷ b'w' ∷ b'r' ∷ b'i' ∷ b't' ∷ b'e' ∷ [])
    then some read_write
    else if same_bytes s (b'w' ∷ b'r' ∷ b'i' ∷ b't' ∷ b'e' ∷ [])
    then some write
    else if same_bytes s (b'w' ∷ b'r' ∷ b'i' ∷ b't' ∷ b'e' ∷ b'-' ∷ b'n' ∷ b'e' ∷ b'w' ∷ [])
    then some write_new
    else if same_bytes s (b'a' ∷ b'p' ∷ b'p' ∷ b'e' ∷ b'n' ∷ b'd' ∷ [])
    then some append
    else if same_bytes s
        (b'a' ∷ b'p' ∷ b'p' ∷ b'e' ∷ b'n' ∷ b'd' ∷ b'-' ∷ b'r' ∷ b'e' ∷ b'a' ∷ b'd' ∷ [])
    then some append_read
    else none

unfoldable pub open_mode_creates : OpenMode → Bool
open_mode_creates read = false
open_mode_creates read_write = false
open_mode_creates write = true
open_mode_creates write_new = true
open_mode_creates append = true
open_mode_creates append_read = true

unfoldable pub open_mode_appends : OpenMode → Bool
open_mode_appends append = true
open_mode_appends append_read = true
open_mode_appends _ = false

-- On Linux.
unfoldable pub posix_open_flags : OpenMode → List OpenFlag
posix_open_flags read = o_rdonly ∷ []
posix_open_flags read_write = o_rdwr ∷ []
posix_open_flags write = o_wronly ∷ o_creat ∷ o_trunc ∷ []
posix_open_flags write_new = o_wronly ∷ o_creat ∷ o_excl ∷ []
posix_open_flags append = o_wronly ∷ o_creat ∷ o_append ∷ []
posix_open_flags append_read = o_rdwr ∷ o_creat ∷ o_append ∷ []

abbrev pub is_creat : OpenFlag → Bool
is_creat o_creat = true
is_creat _ = false

abbrev pub is_append : OpenFlag → Bool
is_append o_append = true
is_append _ = false

unfoldable pub any_flag : (OpenFlag → Bool) → List OpenFlag → Bool
any_flag test [] = false
any_flag test (f ∷ fs) = test f || any_flag test fs

-- The flags that a mode is opened with create exactly if `open_mode_creates` says so and append
-- exactly if `open_mode_appends` says so, and the mode's name is read back as the mode.
pub posix_open_flags-agree :
    (mode : OpenMode)
    → (any_flag is_creat (posix_open_flags mode) ≡ open_mode_creates mode)
      × ((any_flag is_append (posix_open_flags mode) ≡ open_mode_appends mode)
          × (open_mode_from_string (open_mode_to_string mode) ≡ some mode))
unfolding any_flag posix_open_flags open_mode_creates open_mode_appends open_mode_from_string
    open_mode_to_string same_bytes
posix_open_flags-agree read = (refl, (refl, refl))
posix_open_flags-agree read_write = (refl, (refl, refl))
posix_open_flags-agree write = (refl, (refl, refl))
posix_open_flags-agree write_new = (refl, (refl, refl))
posix_open_flags-agree append = (refl, (refl, refl))
posix_open_flags-agree append_read = (refl, (refl, refl))
