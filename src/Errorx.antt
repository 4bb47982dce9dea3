-- ===== src/Errorx.antt =====
-- internal/errorx/errorx.go: typed errors. The proofs are in the child module.
pub mod Chain
use mdrive.Prelude.{ℕ, Bool, true, false, Option, none, some, ◌++◌, Text, codes}

-- Kind, in the order of the Go constants.
pub data Kind : Type 0 where
  unknown internal canceled invalid_argument deadline_exceeded not_found already_exists : Kind
  permission_denied resource_exhausted failed_precondition aborted out_of_range : Kind
  unimplemented unavailable data_loss unauthenticated revision_conflict : Kind

-- Kind.Status
pub status : Kind → ℕ
status Kind.canceled = 499
status Kind.invalid_argument = 400
status Kind.deadline_exceeded = 504
status Kind.not_found = 404
status Kind.already_exists = 409
status Kind.permission_denied = 403
status Kind.resource_exhausted = 429
status Kind.failed_precondition = 412
status Kind.aborted = 409
status Kind.out_of_range = 400
status Kind.unimplemented = 501
status Kind.internal = 500
status Kind.unavailable = 503
status Kind.data_loss = 500
status Kind.unauthenticated = 401
status Kind.revision_conflict = 409
status Kind.unknown = 500

-- Kind.String
pub kind_string : Kind → Text
kind_string Kind.canceled = codes "canceled"
kind_string Kind.invalid_argument = codes "invalid_argument"
kind_string Kind.deadline_exceeded = codes "deadline_exceeded"
kind_string Kind.not_found = codes "not_found"
kind_string Kind.already_exists = codes "already_exists"
kind_string Kind.permission_denied = codes "permission_denied"
kind_string Kind.resource_exhausted = codes "resource_exhausted"
kind_string Kind.failed_precondition = codes "failed_precondition"
kind_string Kind.aborted = codes "aborted"
kind_string Kind.out_of_range = codes "out_of_range"
kind_string Kind.unimplemented = codes "unimplemented"
kind_string Kind.internal = codes "internal"
kind_string Kind.unavailable = codes "unavailable"
kind_string Kind.data_loss = codes "data_loss"
kind_string Kind.unauthenticated = codes "unauthenticated"
kind_string Kind.revision_conflict = codes "revision_conflict"
kind_string Kind.unknown = codes "unknown"

-- An error chain: a foreign error, a foreign error that wraps another (`fmt.Errorf` with `%w`),
-- or the struct `errorx` without and with a cause.
pub data Error : Type 0 where
  foreign : Text → Error
  foreign_wrap : Text → Error → Error
  errorx : Kind → Text → Error
  errorx_wrap : Kind → Text → Error → Error

-- (e *errorx) Error, and `Error` of the foreign errors.
pub render : Error → Text
render (foreign m) = m
render (foreign_wrap m e) = m ++ codes ": " ++ render e
render (errorx k m) = m
render (errorx_wrap k m e) = m ++ codes ": " ++ render e

-- (e *errorx) Unwrap
pub unwrap : Error → Option Error
unwrap (foreign m) = none
unwrap (foreign_wrap m e) = some e
unwrap (errorx k m) = none
unwrap (errorx_wrap k m e) = some e

-- errors.AsType[Error](err), with the kind of what it finds.
pub as_error : Error → Option (Kind × Text)
as_error (foreign m) = none
as_error (foreign_wrap m e) = as_error e
as_error (errorx k m) = some (k, m)
as_error (errorx_wrap k m e) = some (k, m ++ codes ": " ++ render e)

-- New
pub new_error : Kind → Text → Error
new_error k m = errorx k m

abbrev kind_or_unknown : Option (Kind × Text) → Kind
kind_or_unknown none = Kind.unknown
kind_or_unknown (some (k, _)) = k

-- Wrap, on a nil or a non-nil error, with at most one kind to override.
pub wrap : Option Error → Text → Option Kind → Option Error
wrap none m override = none
wrap (some e) m none = some (errorx_wrap (kind_or_unknown (as_error e)) m e)
wrap (some e) m (some k) = some (errorx_wrap k m e)

-- The loop of KindOf: ask the chain, then unwrap once and ask again.
pub kind_loop : Error → Kind
kind_loop (foreign m) = Kind.unknown
kind_loop (foreign_wrap m e) = elim (as_error e) [ none ↦ kind_loop e | some (k, _) ↦ k ]
kind_loop (errorx k m) = k
kind_loop (errorx_wrap k m e) = k

-- KindOf
pub kind_of : Option Error → Kind
kind_of none = Kind.unknown
kind_of (some e) = kind_loop e

pub Kind-discrete : Discrete Kind
Kind-discrete = hlevel

-- IsKind
pub is_kind : Option Error → Kind → Bool
is_kind e k = elim (Kind-discrete (kind_of e) k) [ yes _ ↦ true | no _ ↦ false ]

-- internal/app/apiserver/middleware/error.go: kindToCode. The code of a kind is the kind's name
-- on the wire; a kind that the map lacks is reported as internal.
pub code_of : Kind → Kind
code_of Kind.unknown = Kind.internal
code_of k = k

pub record StatusCode : Type 0 where
  pub status_code : ℕ
  pub code : Kind
  pub message : Text

-- KindToCode
pub kind_to_code : Option Error → Option StatusCode
kind_to_code none = none
kind_to_code (some e) = some (record {
  status_code = status (kind_of (some e));
  code = code_of (kind_of (some e));
  message = elim (as_error e) [ none ↦ render e | some (k, m) ↦ kind_string k ++ codes ": " ++ m ];
})
