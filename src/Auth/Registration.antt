-- ===== src/Auth/Registration.antt =====
-- Registered DID documents and verifyRegistration of internal/server/auth.go.
use anp_server_go.Common.{
  Bool, Bool-cases, List, Option, String, [], arith, eq_iff, false, inl, inr, is_some, length, ltb,
  none, not, pair_eq, refl, some, string_eq, true, ℕ, ◌&&◌, ◌==◌, ◌||◌, ◌∙◌, ◌∷◌, ◌≡◌,
}
use mathlib.Core.Path.{subst}
use anp_server_go.Auth.{
  check_signature, key_id_to_did, request_url, signature_failed, verify_owner, verify_registration,
}
use anp_server_go.Common.Dict.{Dict, lookup, lookup-insert}
use anp_server_go.Did.{did_register_document}
use anp_server_go.Ends.{Ends, Ends-bind, Ends-gets, Ends-or_raise, Ends-pure, Ends-raise_if, err_ok}
use anp_server_go.Env.{Env, Request, RpcRequest}
use anp_server_go.Exec.{Error, Result, err, ok}
use anp_server_go.Frame.{frame, frame-Bindings, frame-Writes}
use anp_server_go.Json.{Fields, GoMap, Json, get_str}
use anp_server_go.Moves.{Moves, moves_rules}
use anp_server_go.Rpc.{Method, register_document, routes}
use anp_server_go.Rpc.Entry.{
  answer, authenticate, base_url_of, handle_body, handle_parsed, handle_rpc, max_body_bytes,
  read_body,
}
use anp_server_go.Sql.{insert_response, upsert_did}
use anp_server_go.Store.{Db}
use anp_server_go.Writes.Dispatch.{authenticate-Moves, dispatch_idempotent-Moves}

abbrev is_registration : Method → Bool
is_registration register_document = true
is_registration _ = false

abbrev routes_only : List (String × Method) → Bool
routes_only [] = true
routes_only ((name, m) ∷ rest) =
    (not (is_registration m) || name == "did.register_document") && routes_only rest

lookup-registration :
    (method : String) (table : List (String × Method))
    → routes_only table ≡ true
    → lookup method table ≡ some register_document
    → (method == "did.register_document") ≡ true
unfolding lookup
lookup-registration method [] only h = cc
lookup-registration method ((name, m) ∷ rest) only h =
    ground (arith, lookup-registration method rest, eq_iff name method)

-- No other name is routed to the registration.
routes-registration :
    (method : String)
    → lookup method routes ≡ some register_document
    → (method == "did.register_document") ≡ true
routes-registration method h = lookup-registration method routes refl h

-- The request with the body that is read is signed for a DID with a key of its stored document.
abbrev pub IsSignedFor : Env → Request → List ℕ → String → Fields → Type 0
IsSignedFor env req body did doc =
    (key : String) × (env.verify_signature (some doc) (request_url req) req.headers body ≡ some key)
    × (key_id_to_did key ≡ did)

check_signature_ok :
    (env : Env) (req : Request) (body : List ℕ) (doc : Fields) (failed : Error) (s : Db)
    (did : String)
    → (check_signature env req body (some doc) failed s).0 ≡ ok did
    → IsSignedFor env req body did doc
unfolding check_signature
check_signature_ok env req body doc failed s did h =
    (Ends-or_raise {R = λ r. r.0 ≡ ok did → IsSignedFor env req body did doc} _ failed _
        (λ gone. err_ok) (λ key signed. Ends-pure (key_id_to_did key) (λ e. (key, signed, cc)))).at
      h

-- A registration that succeeds for a registered DID is signed for it.
module _ (env : Env) (req : Request) (body : List ℕ) (d : String) (doc : Fields) (s : Db)
    (found : lookup d s.registered_dids ≡ some doc) where
  owner_signed :
      Ends
        (λ r. (x : String) → r.0 ≡ ok x → IsSignedFor env req body d doc)
        (verify_owner env req body d (some doc))
        s
  unfolding verify_owner
  owner_signed =
      Ends-raise_if _ _ _ (λ x. err_ok)
        λ present.
          Ends-bind (check_signature env req body (some doc) signature_failed) _
            (λ e failed x. err_ok)
            λ signer checked.
              Ends-raise_if _ _ _ (λ x. err_ok)
                λ same. Ends-pure d λ x e.
                  subst (λ z. IsSignedFor env req body z doc) (ground (arith, eq_iff signer d))
                    (check_signature_ok env req body doc signature_failed s signer checked)

  registration_signed :
      (params : GoMap)
      → get_str params "did" ≡ d
      → Ends
          (λ r. (x : String) → r.0 ≡ ok x → IsSignedFor env req body d doc)
          (verify_registration env req body params)
          s
  unfolding verify_registration
  registration_signed params same =
      Ends-raise_if _ _ _ (λ x. err_ok) λ named. Ends-gets _ _ (rw same (rw found owner_signed))

  registration_other :
      (params : GoMap) (x : String)
      → ¬ IsSignedFor env req body d doc
      → (verify_registration env req body params s).0 ≡ ok x
      → (get_str params "did" == d) ≡ false
  registration_other params x unsigned passed = elim (Bool-cases (get_str params "did" == d)) [
    | inl same ↦ absurd (unsigned ((registration_signed params ((eq_iff _ d).0 same)).at x passed))
    | inr other ↦ other
  ]

-- What a database has of one document.
abbrev document_of : String → Dict String Fields → Dict String Json → Option Fields
document_of d docs cached = lookup d docs

module _ (d : String) where
  upsert_did-Frame :
      (did : String) (doc : Fields)
      → (did == d) ≡ false
      → Moves (frame (document_of d)) (upsert_did did doc)
  unfolding upsert_did
  upsert_did-Frame did doc other = record {
    at = λ s. rw (lookup-insert did d doc s.registered_dids) (rw other refl);
  }

  did_register_document-Frame :
      (params : GoMap)
      → (get_str params "did" == d) ≡ false
      → Moves (frame (document_of d)) (did_register_document params)
  unfolding did_register_document
  did_register_document-Frame params other =
      search (moves_rules, upsert_did-Frame _ _ other) depth 10

  insert_response-Frame :
      (key : String) (v : Json) → Moves (frame (document_of d)) (insert_response key v)
  unfolding insert_response
  insert_response-Frame key v = record {
    at = λ s. elim (Bool-cases (is_some (lookup key s.idempotency))) [
      | inl taken ↦ rw taken refl
      | inr free ↦ rw free refl
    ];
  }

  answer_document :
      (env : Env) (req : Request) (rpc : RpcRequest) (identity : Result String) (s : Db)
      → ((x : String)
          → identity ≡ ok x
          → (rpc.method == "did.register_document") ≡ true
          → (get_str rpc.params "did" == d) ≡ false)
      → lookup d (answer env req rpc identity s).1.registered_dids ≡ lookup d s.registered_dids
  unfolding answer
  answer_document env req rpc (err e) s other = refl
  answer_document env req rpc (ok x) s other =
      (dispatch_idempotent-Moves (frame-Writes (document_of d)) (frame-Bindings (document_of d))
          insert_response-Frame env rpc.method rpc.params x (base_url_of req)
          (λ routed.
            did_register_document-Frame rpc.params
              (other x refl (routes-registration rpc.method routed)))).at
        s

authenticate_registers :
    (env : Env) (req : Request) (body : List ℕ) (rpc : RpcRequest)
    → (rpc.method == "did.register_document") ≡ true
    → authenticate env req body rpc ≡ verify_registration env req body rpc.params
unfolding authenticate
authenticate_registers env req body rpc registers = rw registers refl

module _ (env : Env) (req : Request) (d : String) (doc : Fields) (s : Db)
    (found : lookup d s.registered_dids ≡ some doc) where
  identity_other :
      (body : List ℕ) (rpc : RpcRequest) (x : String)
      → ¬ IsSignedFor env req body d doc
      → (authenticate env req body rpc s).0 ≡ ok x
      → (rpc.method == "did.register_document") ≡ true
      → (get_str rpc.params "did" == d) ≡ false
  identity_other body rpc x unsigned passed registers =
      registration_other env req body d doc s found rpc.params x unsigned
        (subst (λ m. (m s).0 ≡ ok x) (authenticate_registers env req body rpc registers) passed)

  handle_parsed_document :
      (body : List ℕ) (rpc : Option RpcRequest)
      → ¬ IsSignedFor env req body d doc
      → lookup d (handle_parsed env req body rpc s).1.registered_dids ≡ some doc
  unfolding handle_parsed
  handle_parsed_document body none unsigned = found
  handle_parsed_document body (some rpc) unsigned =
      let (identity, t) = authenticate env req body rpc s in
      answer_document d env req rpc identity t (λ x. identity_other body rpc x unsigned)
      ∙ (authenticate-Moves {p = frame (document_of d)} env req body rpc).at s
      ∙ found

  handle_body_document :
      (body : Option (List ℕ))
      → ((bytes : List ℕ) → body ≡ some bytes → ¬ IsSignedFor env req (read_body bytes) d doc)
      → lookup d (handle_body env req body s).1.registered_dids ≡ some doc
  unfolding handle_body
  handle_body_document none unsigned = found
  handle_body_document (some bytes) unsigned =
      elim (Bool-cases (ltb max_body_bytes (length (read_body bytes)))) [
        | inl large ↦ rw large found
        | inr fits ↦ rw fits (handle_parsed_document _ _ (unsigned bytes refl))
      ]

-- A registered DID keeps its document through every request, whatever its method, that is not
-- signed for this DID with a key of this document.
pub handle_rpc_document :
    (env : Env) (req : Request) (d : String) (doc : Fields) (s : Db)
    → lookup d s.registered_dids ≡ some doc
    → ((bytes : List ℕ) → req.body ≡ some bytes → ¬ IsSignedFor env req (read_body bytes) d doc)
    → lookup d (handle_rpc env req s).1.registered_dids ≡ some doc
unfolding handle_rpc
handle_rpc_document env req d doc s found unsigned = elim (Bool-cases (req.method == "POST")) [
  | inl post ↦ rw post (handle_body_document env req d doc s found req.body unsigned)
  | inr other ↦ rw other found
]
