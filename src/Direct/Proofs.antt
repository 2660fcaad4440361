-- ===== src/Direct/Proofs.antt =====
-- The proof of origin that direct.send of internal/server/e2ee.go demands of a plaintext message.
use anp_server_go.Common.{String, some, sym, true, ◌≡◌}
use mathlib.Core.Path.{subst}
use anp_server_go.Direct.{direct_send, is_plaintext, plaintext_content}
use anp_server_go.Ends.{Ends, Ends-bind, Ends-or_raise, Ends-raise_if, err_ok}
use anp_server_go.Env.{Env}
use anp_server_go.Exec.{ok}
use anp_server_go.Group.Reads.{sender_or_claimed}
use anp_server_go.Json.{GoMap, Json, get_map}
use anp_server_go.Proof.Origin.{IsProven, verify_origin_proof-IsProven}
use anp_server_go.Store.{Db}

module _ (env : Env) (sender : String) (meta body auth : GoMap) (s : Db) where
  plaintext_content-IsProven :
      Ends
        (λ r.
          (c : String × String) → r.0 ≡ ok c → IsProven env sender "direct.send" meta body auth s)
        (plaintext_content env sender meta body auth)
        s
  unfolding plaintext_content
  plaintext_content-IsProven =
      Ends-or_raise _ _ _ (λ gone c. err_ok)
        λ content one.
          Ends-or_raise _ _ _ (λ gone c. err_ok)
            λ present given.
              Ends-bind _ _ (λ e failed c. err_ok)
                λ u done. record {
                  at = λ c h.
                      subst (λ a. IsProven env sender "direct.send" meta body a s) (sym given)
                        ((verify_origin_proof-IsProven env sender "direct.send" meta body
                            (some present) s).at
                          u done);
                }

module _ (env : Env) (caller : String) (params : GoMap) (s : Db) where
  direct_send-Ends :
      is_plaintext (get_map params "meta") ≡ true
      → Ends
          (λ r.
            (v : Json)
            → r.0 ≡ ok v
            → IsProven env
                (sender_or_claimed caller (get_map params "meta"))
                "direct.send"
                (get_map params "meta")
                (get_map params "body")
                (get_map params "auth")
                s)
          (direct_send env caller params)
          s
  unfolding direct_send
  direct_send-Ends transport =
      Ends-raise_if _ _ _ (λ v. err_ok)
        λ named. rw transport (
          Ends-bind _ _ (λ e failed v. err_ok)
            λ content done. record {
              at = λ v h. (plaintext_content-IsProven env _ _ _ _ s).at content done;
            })

-- direct.send that accepts a plaintext message has verified its proof of origin with the document
-- that is registered for the sender.
pub direct_send-IsProven :
    (env : Env) (caller : String) (params : GoMap) (s : Db) (v : Json)
    → is_plaintext (get_map params "meta") ≡ true
    → (direct_send env caller params s).0 ≡ ok v
    → IsProven env
        (sender_or_claimed caller (get_map params "meta"))
        "direct.send"
        (get_map params "meta")
        (get_map params "body")
        (get_map params "auth")
        s
direct_send-IsProven env caller params s v transport accepted =
    (direct_send-Ends env caller params s transport).at v accepted
