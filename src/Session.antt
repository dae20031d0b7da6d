-- ===== src/Session.antt =====
-- client/app/services/auth.js, client/app/services/policy/DefaultPolicy.js and client/app/services/user.js:
-- the session, what the user may do, and the changes of a user with their answers.
pub mod Required
mod Tests
use mxzz_bi.Prelude.{
  ℕ, zero, suc, String, Bool, true, false, ◌&&◌, ◌||◌, Option, none, some, List, [], ◌∷◌, ◌==◌,
  if◌then◌else◌,
}
use mxzz_bi.Parameters.Normalize.{member}

-- A user as the server sends it, with the fields that it has.
pub record UserData : Type 0 where
  pub id : Option ℕ
  pub permissions : Option (List String)

pub record Auth : Type 0 where
  pub loaded : Bool
  -- `session.user`
  pub user : UserData
  -- `currentUser`
  pub current_id : Option ℕ
  pub current_permissions : List String
  pub api_key : Option String
  -- how often the page was sent to the login
  pub logins : ℕ

abbrev pub or_old {ℓ} : {A : Type ℓ} → Option A → Option A → Option A
or_old none b = b
or_old (some a) b = some a

abbrev pub or_permissions : Option (List String) → List String → List String
or_permissions none old = old
or_permissions (some ps) old = ps

-- An id that is there and not 0.
abbrev pub is_id : Option ℕ → Bool
is_id none = false
is_id (some zero) = false
is_id (some (suc n)) = true

abbrev pub same_id : Option ℕ → Option ℕ → Bool
same_id (some a) (some b) = a == b
same_id none b = false
same_id (some a) none = false

abbrev pub has_permission : String → Auth → Bool
has_permission permission a = member permission a.current_permissions

abbrev pub is_admin : Auth → Bool
is_admin a = has_permission "admin" a

-- `object.user_id || (object.user && object.user.id)`
abbrev pub owner_id : (user_id object_user_id : Option ℕ) → Option ℕ
owner_id user_id object_user_id = if is_id user_id then user_id else object_user_id

unfoldable pub can_edit : (user_id object_user_id : Option ℕ) → Auth → Bool
can_edit user_id object_user_id a =
    let owner = owner_id user_id object_user_id in
    is_admin a || is_id owner && same_id owner a.current_id

unfoldable pub can_create : Auth → Bool
can_create a =
    has_permission "create_query" a
    || has_permission "create_dashboard" a
    || has_permission "list_alerts" a

unfoldable pub update_session : UserData → Auth → Auth
update_session u a = record a {
  loaded = true;
  user = u;
  current_id = or_old u.id a.current_id;
  current_permissions = or_permissions u.permissions a.current_permissions;
}

abbrev pub is_authenticated : Auth → Bool
is_authenticated a = a.loaded && is_id a.user.id

abbrev pub set_api_key : Option String → Auth → Auth
set_api_key key a = record a { api_key = key }

abbrev pub login : Auth → Auth
login a = record a { logins = suc a.logins }

-- The answer of `api/session`, `none` if the request fails; whether the promise is fulfilled.
abbrev pub answered : Option UserData → Auth → Auth × Bool
answered none a = (a, false)
answered (some u) a = (update_session u a, true)

unfoldable pub load_session : Option UserData → Auth → Auth × Bool
unfolding update_session
load_session answer a =
    if is_authenticated a then (a, true) else answered answer (set_api_key none a)

-- The user of `loadConfig` has no permissions and no id.
unfoldable pub load_config : Auth → Auth
unfolding update_session
load_config a = update_session (record { id = none; permissions = some [] }) a

-- What is left of a session that was loaded: the session, or the login.
abbrev pub or_login : Auth × Bool → Auth × Bool
or_login (a, true) = if is_authenticated a then (a, true) else (login a, false)
or_login (a, false) = (login a, false)

-- With whether the promise gives the session.
unfoldable pub require_session : Option UserData → Auth → Auth × Bool
unfolding load_session
require_session answer a =
    if is_authenticated a then (a, true) else or_login (load_session answer a)

-- DefaultPolicy.js: what is left to administrators, and the dashboards.
abbrev pub can_create_data_source : Auth → Bool
can_create_data_source a = is_admin a

abbrev pub can_create_destination : Auth → Bool
can_create_destination a = is_admin a

abbrev pub can_create_dashboard : Auth → Bool
can_create_dashboard a = has_permission "create_dashboard" a

abbrev pub can_create_user : Auth → Bool
can_create_user a = is_admin a

-- user.js
pub record User : Type 0 where
  pub name : String
  pub is_disabled : Bool
  pub profile_image_url : String

pub data Message : Type 0 where
  now_enabled now_disabled has_been_deleted : (user_name : String) → Message
  cannot_enable cannot_disable cannot_delete : (error : String) → Message

-- The first of the texts that there is.
abbrev pub get_error_message : (data_message status_text : Option String) → String
get_error_message (some m) s = m
get_error_message none (some s) = s
get_error_message none none = "Unknown error"

-- The answer to a change of a user: the new image, or the texts of the error.
pub data Answer : Type 0 where
  succeeded : (profile_image_url : String) → Answer
  failed : (data_message status_text : Option String) → Answer

-- `sanitize` is DOMPurify's.
unfoldable pub enable_user : (sanitize : String → String) → Answer → User → User × Message
enable_user sanitize (succeeded url) u =
    (record u { is_disabled = false; profile_image_url = url }, now_enabled (sanitize u.name))
enable_user sanitize (failed m s) u = (u, cannot_enable (get_error_message m s))

unfoldable pub disable_user : (sanitize : String → String) → Answer → User → User × Message
disable_user sanitize (succeeded url) u =
    (record u { is_disabled = true; profile_image_url = url }, now_disabled (sanitize u.name))
disable_user sanitize (failed m s) u = (u, cannot_disable (get_error_message m s))

unfoldable pub delete_user : (sanitize : String → String) → Answer → User → User × Message
delete_user sanitize (succeeded url) u = (u, has_been_deleted (sanitize u.name))
delete_user sanitize (failed m s) u = (u, cannot_delete (get_error_message m s))
