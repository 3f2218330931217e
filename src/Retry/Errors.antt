-- ===== src/Retry/Errors.antt =====
-- The mapping of gRPC statuses to the errors of the SDK (error_ps.go). What a status carries beside its
-- code is its first detail; messages and the context map are left out.
use gocb.Base.{String, Bool, true, false, Option, none, some, str_eq, if◌then◌else◌}

-- The codes that are told apart.
pub data Code : Type 0 where
  canceled internal invalid_code deadline_exceeded unauthenticated permission_denied : Code
  unimplemented unavailable not_found already_exists other_code : Code

-- A detail: the type of the first violation of a precondition, the type of a resource, the reason of an
-- error, or another one.
pub data Detail : Type 0 where
  precondition : Option String → Detail
  resource reason : String → Detail
  other_detail : Detail

pub record Status : Type 0 where
  pub code : Code
  pub detail : Option Detail

-- The errors of the SDK. An error that is no gRPC status is kept, and may match ErrTimeout.
pub data Error : Type 0 where
  document_locked path_mismatch document_not_json document_too_deep value_too_large : Error
  value_invalid number_too_big document_not_found index_not_found bucket_not_found : Error
  scope_not_found collection_not_found path_not_found document_exists index_exists : Error
  bucket_exists scope_exists collection_exists path_exists cas_mismatch request_canceled : Error
  internal_server_failure invalid_argument unambiguous_timeout ambiguous_timeout : Error
  authentication_failure feature_not_available service_not_available other_status : Error
  foreign : Bool → Error

unfoldable pub precondition_error : String → Option Error
precondition_error s =
    if str_eq s "LOCKED"
    then some document_locked
    else if str_eq s "PATH_MISMATCH"
    then some path_mismatch
    else if str_eq s "DOC_NOT_JSON"
    then some document_not_json
    else if str_eq s "DOC_TOO_DEEP"
    then some document_too_deep
    else if str_eq s "VALUE_TOO_LARGE"
    then some value_too_large
    else if str_eq s "VALUE_OUT_OF_RANGE"
    then some value_invalid
    else if str_eq s "PATH_VALUE_OUT_OF_RANGE"
    then some number_too_big
    else none

unfoldable pub not_found_error : String → Option Error
not_found_error s =
    if str_eq s "document"
    then some document_not_found
    else if str_eq s "queryindex"
    then some index_not_found
    else if str_eq s "searchindex"
    then some index_not_found
    else if str_eq s "bucket"
    then some bucket_not_found
    else if str_eq s "scope"
    then some scope_not_found
    else if str_eq s "collection"
    then some collection_not_found
    else if str_eq s "path"
    then some path_not_found
    else none

unfoldable pub exists_error : String → Option Error
exists_error s =
    if str_eq s "document"
    then some document_exists
    else if str_eq s "queryindex"
    then some index_exists
    else if str_eq s "searchindex"
    then some index_exists
    else if str_eq s "bucket"
    then some bucket_exists
    else if str_eq s "scope"
    then some scope_exists
    else if str_eq s "collection"
    then some collection_exists
    else if str_eq s "path"
    then some path_exists
    else none

unfoldable pub resource_error : Code → String → Option Error
resource_error not_found s = not_found_error s
resource_error already_exists s = exists_error s
resource_error _ s = none

unfoldable pub detail_error : Code → Option Detail → Option Error
detail_error c none = none
detail_error c (some (precondition none)) = none
detail_error c (some (precondition (some s))) = precondition_error s
detail_error c (some (resource s)) = resource_error c s
detail_error c (some (reason s)) = if str_eq s "CAS_MISMATCH" then some cas_mismatch else none
detail_error c (some other_detail) = none

-- The switch on the code, where the details do not decide.
unfoldable pub code_error : Bool → Code → Error
code_error read_only canceled = request_canceled
code_error read_only internal = internal_server_failure
code_error read_only invalid_code = invalid_argument
code_error read_only deadline_exceeded =
    if read_only then unambiguous_timeout else ambiguous_timeout
code_error read_only unauthenticated = authentication_failure
code_error read_only permission_denied = authentication_failure
code_error read_only unimplemented = feature_not_available
code_error read_only unavailable = service_not_available
code_error read_only not_found = other_status
code_error read_only already_exists = other_status
code_error read_only other_code = other_status

abbrev pub or_else : Error → Option Error → Error
or_else e none = e
or_else e (some d) = d

-- `mapPsErrorStatusToGocbError`
unfoldable pub map_status : Status → Bool → Error
map_status st read_only = or_else (code_error read_only st.code) (detail_error st.code st.detail)

-- An error of a call: a gRPC status, or any other error, which may match ErrTimeout.
pub data CallError : Type 0 where
  status : Status → CallError
  no_status : Bool → CallError

-- `mapPsErrorToGocbError`
unfoldable pub map_error : CallError → Bool → Error
map_error (status st) read_only = map_status st read_only
map_error (no_status b) read_only = foreign b

-- `errors.Is(err, ErrTimeout)`
abbrev pub is_timeout : Error → Bool
is_timeout unambiguous_timeout = true
is_timeout ambiguous_timeout = true
is_timeout (foreign b) = b
is_timeout _ = false
