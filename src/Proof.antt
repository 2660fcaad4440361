-- ===== src/Proof.antt =====
-- internal/server/e2ee.go: verifyOriginProof, which ties a message to its sender's DID document.
pub mod Origin
use anp_server_go.Common.{String, [], none, not, pair_eq, some, string_eq, ◌==◌, ◌||◌}
use anp_server_go.Common.Dict.{lookup}
use anp_server_go.Env.{Env, OriginProof}
use anp_server_go.Exec.{Exec, errorf, gets, or_raise, pure, raise_if, ◌>>=◌, ◌>>◌}
use anp_server_go.Json.{GoMap, get_map, get_str}

unfoldable pub verify_origin_proof : Env → String → String → GoMap → GoMap → GoMap → Exec (Unit {0})
verify_origin_proof env sender method meta body auth = do
  op ← or_raise (get_map auth "origin_proof") (errorf "auth.origin_proof is missing" [])
  let proof : OriginProof = record {
    content_digest = get_str (some op) "contentDigest";
    signature_input = get_str (some op) "signatureInput";
    signature = get_str (some op) "signature";
  }
  raise_if (proof.content_digest == "" || proof.signature_input == "" || proof.signature == "")
      (errorf "auth.origin_proof fields are incomplete" [])
  doc ←
      or_raise (← gets (λ s. lookup sender s.registered_dids))
        (errorf "signer DID not registered" [])
  raise_if (not (env.verify_proof proof method meta body doc sender))
      (errorf "origin proof verification failed: %w" [])

-- A proof is checked where `params["auth"]` is a map, and skipped where it is not.
unfoldable pub verify_attached_proof :
    Env → String → String → GoMap → GoMap → GoMap → Exec (Unit {0})
verify_attached_proof env sender method meta body none = pure tt
verify_attached_proof env sender method meta body (some auth) =
    verify_origin_proof env sender method meta body (some auth)
