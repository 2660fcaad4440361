-- ===== src/Env.antt =====
-- What a request sees of the world outside the repository's code: the clock, the random source and
-- the functions of the ANP SDK (github.com/agent-network-protocol/anp/golang) and of the SQLite
-- driver that the handlers call. Every request has an environment of its own, so nothing is assumed
-- to be the same from one request to the next. One request reads one clock value.
use anp_server_go.Common.{Bool, List, Option, String, ℕ, ◌/◌}
use anp_server_go.Json.{Fields, GoMap, Json}

-- The three texts of `anpproof.RFC9421OriginProof`.
pub record OriginProof : Type 0 where
  pub content_digest : String
  pub signature_input : String
  pub signature : String

-- The parts of an *http.Request that the server reads, with the headers as pairs.
pub record Request : Type 0 where
  pub method : String
  pub tls : Bool
  pub host : String
  pub path : String
  pub headers : List (String × String)
  -- the body's bytes, or none where reading it fails
  pub body : Option (List ℕ)

-- What net.ParseIP's result says of itself.
pub record IpAddress : Type 0 where
  pub is_loopback : Bool
  pub is_private : Bool
  pub is_link_local_unicast : Bool
  pub is_link_local_multicast : Bool
  pub is_unspecified : Bool

-- A decoded JSON-RPC request.
pub record RpcRequest : Type 0 where
  pub method : String
  pub params : GoMap
  pub id : Json

pub record Env : Type 0 where
  -- the fields of the Server that requests do not change
  pub service_did : String
  pub base_url : String
  -- time.Now().UTC(), in nanoseconds, and time.Time.Format(time.RFC3339) of a second
  pub now : ℕ
  pub rfc3339 : ℕ → String
  -- fmt.Sprintf("%d", n)
  pub decimal : ℕ → String
  -- hex.EncodeToString of the n bytes of the request's i-th crypto/rand read
  pub random_hex : ℕ → ℕ → String
  -- wns.ValidateHandle returns no error
  pub handle_syntax : String → Bool
  -- anpproof.VerifyRFC9421OriginProof returns no error: proof, method, meta, body, document, signer
  pub verify_proof : OriginProof → String → GoMap → GoMap → Fields → String → Bool
  -- anpauth.VerifyHTTPMessageSignature: document, URL, headers and body give the key id
  pub verify_signature : GoMap → String → List (String × String) → List ℕ → Option String
  -- anpauth.ResolveDidDocument
  pub resolve_did : String → Option GoMap
  -- the text that json.Marshal writes
  pub marshal : Json → String
  -- base64.RawURLEncoding of the SHA-256 digest
  pub sha256_b64u : List ℕ → String
  -- json.Unmarshal of a request's body; none is a parse error
  pub parse_request : List ℕ → Option RpcRequest
  -- url.PathUnescape, strings.ToLower of strings.TrimSpace, the host of net.SplitHostPort, and
  -- net.ParseIP; none is an error, or nil
  pub path_unescape : String → Option String
  pub lower_trim : String → String
  pub split_host_port : String → Option String
  pub parse_ip : String → Option IpAddress
  -- what the driver stores for a value that is bound to a TEXT column: none is an error of the
  -- driver, some none is NULL
  pub bind_text : Option Json → Option (Option String)

-- time.RFC3339 drops what is below a second.
abbrev pub second : ℕ
second = 1000000000

abbrev pub now_sec : Env → ℕ
now_sec env = env.now / second
