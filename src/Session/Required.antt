-- ===== src/Session/Required.antt =====
-- auth.js: what a page that requires a session gets, and who may edit an object.
use mxzz_bi.Prelude.{
  suc, ◌≡◌, refl, ap, Bool, true, false, Option, none, some, if◌then◌else◌, Bool-cases, inl, inr,
}
use mxzz_bi.Session.{
  UserData, Auth, update_session, is_authenticated, set_api_key, answered, load_session, or_login,
  require_session,
}

-- The session that is given, and the logins.
abbrev pub Fits : Auth → Auth × Bool → Type 0
Fits a r = (is_authenticated r.0 ≡ r.1) × (r.0.logins ≡ (if r.1 then a.logins else suc a.logins))

or_login-Fits : (a b : Auth) → b.logins ≡ a.logins → Fits a (or_login (b, true))
or_login-Fits a b h = elim (Bool-cases (is_authenticated b)) [
  | inl e ↦ rw e (e, h)
  | inr e ↦ rw e (e, ap suc h)
]

answered-Fits :
    (answer : Option UserData) (a : Auth)
    → is_authenticated a ≡ false
    → Fits a (or_login (answered answer (set_api_key none a)))
answered-Fits none a h = (h, refl)
answered-Fits (some u) a h =
    unfold update_session in or_login-Fits a (update_session u (set_api_key none a)) refl

require_session-Fits :
    (answer : Option UserData) (a : Auth) (t : Bool)
    → is_authenticated a ≡ t
    → Fits a (
        if t
        then (a, true)
        else or_login (if t then (a, true) else answered answer (set_api_key none a)))
require_session-Fits answer a true h = (h, refl)
require_session-Fits answer a false h = answered-Fits answer a h

-- A session is given just when it is one of a user, whether it was there, was loaded, or could not be
-- loaded; and only otherwise is the page sent to the login, once.
pub require_session_authenticated :
    (answer : Option UserData) (a : Auth) → Fits a (require_session answer a)
unfolding require_session load_session
require_session_authenticated answer a = require_session-Fits answer a (is_authenticated a) refl
