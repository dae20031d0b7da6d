-- ===== src/Session/Tests.antt =====
-- The theorem of a required session at concrete sessions.
use mxzz_bi.Prelude.{◌≡◌, refl, false, true, none, some, [], ◌∷◌}
use mxzz_bi.Session.{
  UserData, Auth, can_edit, update_session, is_authenticated, load_config, require_session,
}
use mxzz_bi.Session.Required.{Fits, require_session_authenticated}

abbrev no_session : Auth
no_session = record {
  loaded = false;
  user = record { id = none; permissions = none };
  current_id = none;
  current_permissions = [];
  api_key = some "key";
  logins = 0;
}

abbrev editor : UserData
editor = record { id = some 5; permissions = some ("edit_query" ∷ []) }

-- An object of the user, and one of another.
own_objects :
    (can_edit (some 5) none (update_session editor no_session) ≡ true)
    × (can_edit none (some 6) (update_session editor no_session) ≡ false)
unfolding can_edit update_session
own_objects = (refl, refl)

-- `loadConfig` replaces the session by one of nobody.
config_of_nobody : is_authenticated (load_config (update_session editor no_session)) ≡ false
unfolding load_config update_session
config_of_nobody = refl

require_session_authenticated_example : Fits no_session (require_session (some editor) no_session)
require_session_authenticated_example = require_session_authenticated (some editor) no_session
