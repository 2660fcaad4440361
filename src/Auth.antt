-- ===== src/Auth.antt =====
-- internal/server/auth.go and helpers.go: who signed a request.
pub mod Registration
pub mod Unsigned
use anp_server_go.Common.{
  Bool, List, Option, String, [], concat, false, if◌then◌else◌, none, not, pair_eq, some, string_eq,
  true, ℕ, ◌==◌, ◌∷◌,
}
use anp_server_go.Common.Dict.{Dict, lookup}
use anp_server_go.Env.{Env, Request}
use anp_server_go.Exec.{Error, Exec, errorf, gets, or_raise, pure, raise, raise_if, ◌>>=◌, ◌>>◌}
use anp_server_go.Json.{Fields, GoMap, get_str}
use anp_server_go.Strings.{after_first, before_last, cut, equal_fold, strip_prefix, trim_space}

-- keyIDToDID: what stands before the last "#"
abbrev or_whole : Option String → String → String
or_whole none s = s
or_whole (some t) s = t

unfoldable pub key_id_to_did : String → String
unfolding before_last
key_id_to_did key_id = or_whole (before_last b'#' key_id) key_id

abbrev without_equals : Option String → String → String
without_equals none s = s
without_equals (some t) s = trim_space t

-- The value up to the next ";", without outer spaces.
abbrev unquoted : String → String
unquoted s = trim_space (cut b';' s).0

-- A quoted value ends at the next quote; with none, the quote is dropped and the value is unquoted.
abbrev until_quote : String × Option String → String → String
until_quote (_, none) s = unquoted s
until_quote (value, some _) s = value

abbrev value_of : Option String → String → String
value_of none s = unquoted s
value_of (some t) s = until_quote (cut 34 t) t

abbrev key_value : String → String
key_value rest =
    let s = trim_space rest in
    let t = without_equals (strip_prefix "=" s) s in value_of (strip_prefix "\"" t) t

abbrev or_no_key : Option String → String
or_no_key none = ""
or_no_key (some rest) = key_value rest

unfoldable pub extract_key_id : String → String
unfolding after_first strip_prefix trim_space cut
extract_key_id signature_input = or_no_key (after_first "keyid" signature_input)

unfoldable pub header_get : List (String × String) → String → String
header_get [] key = ""
header_get ((k, v) ∷ headers) key = if equal_fold k key then v else header_get headers key

unfoldable pub request_url : Request → String
request_url req =
    concat (if req.tls then "https" else "http") (concat "://" (concat req.host req.path))

abbrev pub signature_failed : Error
signature_failed = errorf "signature verification failed" []

abbrev service_failed : Error
service_failed = errorf "service signature verification failed" []

-- The DID whose key signed the request, as the SDK verifies it against a document.
unfoldable pub check_signature : Env → Request → List ℕ → GoMap → Error → Exec String
check_signature env req body doc failed = do
  key_id ← or_raise (env.verify_signature doc (request_url req) req.headers body) failed
  pure (key_id_to_did key_id)

abbrev local_doc : Option Fields → Option GoMap → Option GoMap
local_doc (some doc) remote = some (some doc)
local_doc none remote = remote

unfoldable pub verify_service_signature : Env → Request → List ℕ → String → Exec String
verify_service_signature env req body did = do
  found ← gets (λ s. lookup did s.registered_dids)
  doc ← or_raise (local_doc found (env.resolve_did did)) service_failed
  check_signature env req body doc service_failed

-- The signature of a DID that is registered here, or of a remote service where that is enabled.
unfoldable pub verify_as : Env → Request → List ℕ → String → Option Fields → Exec String
verify_as env req body did (some doc) = check_signature env req body (some doc) signature_failed
verify_as env req body did none =
    if env.service_did == ""
    then raise signature_failed
    else verify_service_signature env req body did

abbrev pub is_empty : Dict String Fields → Bool
is_empty [] = true
is_empty (_ ∷ _) = false

unfoldable pub verify_signed : Env → Request → List ℕ → Exec String
verify_signed env req body = do
  let input = header_get req.headers "Signature-Input"
  raise_if (input == "") (errorf "missing Signature-Input header" [])
  let did = key_id_to_did (extract_key_id input)
  raise_if (did == "") (errorf "signature keyid not found" [])
  found ← gets (λ s. lookup did s.registered_dids)
  verify_as env req body did found

-- The authenticated DID; "" while no DID is registered.
unfoldable pub verify : Env → Request → List ℕ → Exec String
verify env req body = do
  first_boot ← gets (λ s. is_empty s.registered_dids)
  if first_boot then pure "" else verify_signed env req body

-- The owner of a registered DID signs with the document that is stored.
unfoldable pub verify_owner : Env → Request → List ℕ → String → Option Fields → Exec String
verify_owner env req body did none = pure did
verify_owner env req body did (some doc) = do
  raise_if (header_get req.headers "Signature-Input" == "")
      (errorf "missing Signature-Input header" [])
  signer ← check_signature env req body (some doc) signature_failed
  raise_if (not (signer == did)) (errorf "signature does not match DID %q" (did ∷ []))
  pure did

-- did.register_document: a new DID may come unsigned.
unfoldable pub verify_registration : Env → Request → List ℕ → GoMap → Exec String
verify_registration env req body params = do
  let did = get_str params "did"
  raise_if (did == "") (errorf "did is required" [])
  found ← gets (λ s. lookup did s.registered_dids)
  verify_owner env req body did found
