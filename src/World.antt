-- ===== src/World.antt =====
-- The state of the handlers that touch more than one component: the tables of Db, the authorization
-- codes and the refresh tokens.
use sassy_auth.Common.{Action}
use sassy_auth.Db.{Db}
use sassy_auth.OauthCode
use sassy_auth.RefreshToken

pub record World : Type 0 where
  pub db : Db
  pub codes : OauthCode.Table
  pub refresh : RefreshToken.Table

module _ {A : Type 0} where
  abbrev pub on_db : Action Db A → Action World A
  on_db m w = let (r, d) = m w.db in (r, record w { db = d })

  abbrev pub on_codes : Action OauthCode.Table A → Action World A
  on_codes m w = let (r, t) = m w.codes in (r, record w { codes = t })

  abbrev pub on_refresh : Action RefreshToken.Table A → Action World A
  on_refresh m w = let (r, t) = m w.refresh in (r, record w { refresh = t })
