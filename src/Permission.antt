-- ===== src/Permission.antt =====
-- internal/permission: the authorisation of authorizer.go, over the client of openfga.go.
use mdrive.Prelude.{Bool, not, ◌||◌, Option, none, some, Text, codes, no_text, ◌++◌, if◌then◌else◌}
use mdrive.Errorx.{Kind}
use mdrive.Result.{Result, ok, err}
use mdrive.Outside.{Moment}

-- Action
pub data Permission : Type 0 where
  view edit delete manage share : Permission

abbrev pub relation : Permission → Text
relation Permission.view = codes "can_view"
relation Permission.edit = codes "can_edit"
relation Permission.delete = codes "can_delete"
relation Permission.manage = codes "can_manage"
relation Permission.share = codes "can_share"

-- ObjectType
pub data ObjectType : Type 0 where
  drive user : ObjectType

abbrev pub type_name : ObjectType → Text
type_name ObjectType.drive = codes "drive"
type_name ObjectType.user = codes "user"

-- The OpenFGA client, which is not part of the program: what the server answers to Check of a user, a
-- relation and an object.
pub record FgaClient : Type 0 where
  pub check : Moment → Text → Text → Text → Result Bool

-- (c *FGAChecker) Check
unfoldable pub check : FgaClient → Text → Permission → ObjectType → Text → Moment → Result Bool
check F user_id perm object_type object_id t =
    F.check t (codes "user:" ++ user_id) (relation perm)
      (type_name object_type ++ codes ":" ++ object_id)

-- Config, as far as buildCredentials reads it.
pub record FgaConfig : Type 0 where
  pub api_token : Text
  pub client_id : Text
  pub client_secret : Text
  pub token_issuer : Text
  pub audience : Text

-- AuthMode
pub data AuthMode : Type 0 where
  api_token client_credentials no_auth : AuthMode
  other : Text → AuthMode

-- credentials.Credentials
pub data Credentials : Type 0 where
  token : Text → Credentials
  client : Text → Text → Text → Text → Credentials

abbrev given : Text → Bool
given s = not (no_text s)

-- buildCredentials; the checks of the SDK's NewCredentials are passed by what the guards let through.
unfoldable pub build_credentials : FgaConfig → AuthMode → Result (Option Credentials)
build_credentials cfg AuthMode.api_token =
    if no_text cfg.api_token || given cfg.client_id || given cfg.client_secret
    then err Kind.invalid_argument
    else ok (some (Credentials.token cfg.api_token))
build_credentials cfg AuthMode.client_credentials =
    if no_text cfg.client_id
      || no_text cfg.client_secret
      || no_text cfg.token_issuer
      || no_text cfg.audience
      || given cfg.api_token
    then err Kind.invalid_argument
    else ok
        (some (Credentials.client cfg.client_id cfg.client_secret cfg.token_issuer cfg.audience))
build_credentials cfg AuthMode.no_auth =
    if given cfg.api_token || given cfg.client_id || given cfg.client_secret
    then err Kind.invalid_argument
    else ok none
build_credentials cfg (AuthMode.other mode) = err Kind.invalid_argument
