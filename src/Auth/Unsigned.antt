-- ===== src/Auth/Unsigned.antt =====
-- Requests without a valid signature, in verify of internal/server/auth.go.
use anp_server_go.Common.{
  Bool-cases, List, Option, String, false, inl, inr, length, ltb, none, refl, some, sym, ℕ, ◌==◌,
  ◌∙◌, ◌≡◌,
}
use mathlib.Core.Path.{subst}
use anp_server_go.Auth.{
  check_signature, is_empty, request_url, signature_failed, verify, verify_as,
  verify_service_signature, verify_signed,
}
use anp_server_go.Ends.{Ends, Ends-gets, Ends-if, Ends-or_raise, Ends-raise_if, err_ok, some_none}
use anp_server_go.Env.{Env, Request, RpcRequest}
use anp_server_go.Exec.{Error, Result, err, ok, raise}
use anp_server_go.Json.{Fields, GoMap, get}
use anp_server_go.Moves.{unchanged}
use anp_server_go.Rpc.Entry.{
  answer, authenticate, handle_body, handle_parsed, handle_rpc, max_body_bytes, read_body,
}
use anp_server_go.Store.{Db}
use anp_server_go.Writes.Dispatch.{authenticate-Moves}

-- No document verifies the request's signature, over whatever body.
abbrev pub IsUnsigned : Env → Request → Type 0
IsUnsigned env req =
    (doc : GoMap) (body : List ℕ)
    → env.verify_signature doc (request_url req) req.headers body ≡ none

-- The result is an error.
abbrev Refused : Result String × Db → Type 0
Refused (r, t) = (x : String) → r ≡ ok x → ⊥

module _ (env : Env) (req : Request) (body : List ℕ) (unsigned : IsUnsigned env req) where
  check_signature-Refused :
      (doc : GoMap) (failed : Error) (s : Db)
      → Ends Refused (check_signature env req body doc failed) s
  unfolding check_signature
  check_signature-Refused doc failed s =
      Ends-or_raise _ _ _ (λ gone x. err_ok)
        (λ key signed. some_none (sym signed ∙ unsigned doc body))

  verify_service_signature-Refused :
      (did : String) (s : Db) → Ends Refused (verify_service_signature env req body did) s
  unfolding verify_service_signature
  verify_service_signature-Refused did s =
      Ends-gets _ _
        (Ends-or_raise _ _ _ (λ gone x. err_ok) (λ doc found. check_signature-Refused doc _ s))

  verify_as-Refused :
      (did : String) (doc : Option Fields) (s : Db)
      → Ends Refused (verify_as env req body did doc) s
  unfolding verify_as raise
  verify_as-Refused did (some doc) s = check_signature-Refused (some doc) _ s
  verify_as-Refused did none s =
      Ends-if (env.service_did == "") (raise signature_failed) _
        (λ alone. record { at = λ x. err_ok }) (λ joined. verify_service_signature-Refused did s)

  verify_signed-Refused : (s : Db) → Ends Refused (verify_signed env req body) s
  unfolding verify_signed
  verify_signed-Refused s =
      Ends-raise_if _ _ _ (λ x. err_ok)
        λ present.
          Ends-raise_if _ _ _ (λ x. err_ok) λ named. Ends-gets _ _ (verify_as-Refused _ _ s)

  verify-Refused :
      (s : Db) → is_empty s.registered_dids ≡ false → Ends Refused (verify env req body) s
  unfolding verify
  verify-Refused s booted = Ends-gets _ _ (rw booted (verify_signed-Refused s))

authenticates :
    (env : Env) (req : Request) (body : List ℕ) (rpc : RpcRequest)
    → (rpc.method == "did.register_document") ≡ false
    → authenticate env req body rpc ≡ verify env req body
unfolding authenticate
authenticates env req body rpc other = rw other refl

answer_refused :
    (env : Env) (req : Request) (rpc : RpcRequest) (identity : Result String) (s : Db)
    → ((x : String) → identity ≡ ok x → ⊥)
    → (answer env req rpc identity s).1 ≡ s
unfolding answer
answer_refused env req rpc (ok x) s refused = absurd (refused x refl)
answer_refused env req rpc (err e) s refused = refl

-- The body is not decoded as a registration.
abbrev pub IsNoRegistration : Env → List ℕ → Type 0
IsNoRegistration env body =
    (rpc : RpcRequest)
    → env.parse_request body ≡ some rpc
    → (rpc.method == "did.register_document") ≡ false

module _ (env : Env) (req : Request) (unsigned : IsUnsigned env req) (s : Db)
    (booted : is_empty s.registered_dids ≡ false) where
  handle_parsed_unsigned :
      (body : List ℕ) (rpc : Option RpcRequest)
      → IsNoRegistration env body
      → env.parse_request body ≡ rpc
      → (handle_parsed env req body rpc s).1 ≡ s
  unfolding handle_parsed
  handle_parsed_unsigned body none other parsed = refl
  handle_parsed_unsigned body (some rpc) other parsed =
      answer_refused env req rpc (authenticate env req body rpc s).0 _ (
        subst (λ m. Refused (m s)) (sym (authenticates env req body rpc (other rpc parsed)))
          (verify-Refused env req body unsigned s booted).at)
      ∙ (authenticate-Moves {p = unchanged} env req body rpc).at s

  handle_body_unsigned :
      (body : Option (List ℕ))
      → ((bytes : List ℕ) → body ≡ some bytes → IsNoRegistration env (read_body bytes))
      → (handle_body env req body s).1 ≡ s
  unfolding handle_body
  handle_body_unsigned none other = refl
  handle_body_unsigned (some bytes) other =
      elim (Bool-cases (ltb max_body_bytes (length (read_body bytes)))) [
        | inl large ↦ rw large refl
        | inr fits ↦ rw fits (handle_parsed_unsigned _ _ (other bytes refl) refl)
      ]

-- Once a DID is registered, a request whose signature no document verifies changes nothing, unless
-- it is a registration.
pub handle_rpc_unsigned :
    (env : Env) (req : Request) (s : Db)
    → is_empty s.registered_dids ≡ false
    → IsUnsigned env req
    → ((bytes : List ℕ) → req.body ≡ some bytes → IsNoRegistration env (read_body bytes))
    → (handle_rpc env req s).1 ≡ s
unfolding handle_rpc
handle_rpc_unsigned env req s booted unsigned other = elim (Bool-cases (req.method == "POST")) [
  | inl post ↦ rw post (handle_body_unsigned env req unsigned s booted req.body other)
  | inr get ↦ rw get refl
]
