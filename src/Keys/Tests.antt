-- ===== src/Keys/Tests.antt =====
-- Names of single keys.
use abel_os.Base.{◌≡◌, refl, some}
use abel_os.Keys.{key_enter, get_key_name}

name_run : get_key_name (some key_enter) ≡ "KEY_ENTER"
unfolding get_key_name
name_run = refl
