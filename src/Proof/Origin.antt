-- ===== src/Proof/Origin.antt =====
-- What verifyOriginProof of internal/server/e2ee.go has checked.
use anp_server_go.Common.{String, none, pair_eq, some, string_eq, true, ◌≡◌}
use anp_server_go.Common.Dict.{lookup}
use anp_server_go.Ends.{Ends, Ends-gets, Ends-or_raise, Ends-raise_if, err_ok, raise_if_ok}
use anp_server_go.Env.{Env, OriginProof}
use anp_server_go.Exec.{ok}
use anp_server_go.Json.{Fields, GoMap, get_map, get_str}
use anp_server_go.Proof.{verify_attached_proof, verify_origin_proof}
use anp_server_go.Store.{Db}

-- The proof that a request carries.
abbrev pub proof_of : Fields → OriginProof
proof_of op = record {
  content_digest = get_str (some op) "contentDigest";
  signature_input = get_str (some op) "signatureInput";
  signature = get_str (some op) "signature";
}

-- The auth object has a proof of the method, meta and body that the sender's registered document
-- verifies.
abbrev pub IsProven : Env → String → String → GoMap → GoMap → GoMap → Db → Type 0
IsProven env sender method meta body auth s =
    (op : Fields) × (doc : Fields) × (get_map auth "origin_proof" ≡ some op)
    × (lookup sender s.registered_dids ≡ some doc)
    × (env.verify_proof (proof_of op) method meta body doc sender ≡ true)

module _ (env : Env) (sender method : String) (meta body auth : GoMap) (s : Db) where
  pub verify_origin_proof-IsProven :
      Ends
        (λ r. (u : Unit {0}) → r.0 ≡ ok u → IsProven env sender method meta body auth s)
        (verify_origin_proof env sender method meta body auth)
        s
  unfolding verify_origin_proof
  verify_origin_proof-IsProven =
      Ends-or_raise _ _ _ (λ gone u. err_ok)
        λ op given.
          Ends-raise_if _ _ _ (λ u. err_ok)
            λ complete. Ends-gets _ _ (
              Ends-or_raise _ _ _ (λ gone u. err_ok)
                λ doc found. record { at = λ u h. (op, doc, given, found, raise_if_ok _ _ s u h) })

-- Where the auth object is there, it has a proof.
abbrev pub IsProvenIf : Env → String → String → GoMap → GoMap → GoMap → Db → Type 0
IsProvenIf env sender method meta body none s = Unit
IsProvenIf env sender method meta body (some auth) s =
    IsProven env sender method meta body (some auth) s

pub verify_attached_proof-IsProvenIf :
    (env : Env) (sender method : String) (meta body auth : GoMap) (s : Db) (u : Unit {0})
    → (verify_attached_proof env sender method meta body auth s).0 ≡ ok u
    → IsProvenIf env sender method meta body auth s
unfolding verify_attached_proof
verify_attached_proof-IsProvenIf env sender method meta body none s u h = tt
verify_attached_proof-IsProvenIf env sender method meta body (some auth) s u h =
    (verify_origin_proof-IsProven env sender method meta body (some auth) s).at u h
