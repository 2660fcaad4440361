-- ===== src/Rpc/Replay.antt =====
-- The idempotency cache of internal/server/rpc.go, from one request to a later one.
use anp_server_go.Common.{
  Bool-cases, List, Option, String, ap, false, inl, inr, is_some, none, pair_eq, refl, some,
  string_eq, ◌==◌, ◌∙◌, ◌≡◌,
}
use anp_server_go.Common.Dict.{Dict, beq_refl, lookup, lookup-insert}
use anp_server_go.Did.{did_register_document}
use anp_server_go.Ends.{Ends, Ends-bind, Ends-gets, Ends-if, err_ok, ok_inj}
use anp_server_go.Env.{Env, Request}
use anp_server_go.Evolution.{kept_row}
use anp_server_go.Evolution.Dispatch.{serve-Evolves}
use anp_server_go.Exec.{Error, Result, err, ok, pure, ◌>>=◌}
use anp_server_go.Frame.{frame, frame-Bindings, frame-Writes}
use anp_server_go.Json.{Fields, GoMap, Json}
use anp_server_go.Moves.{Moves, moves_rules}
use anp_server_go.Rpc.{
  cache_key, cached_or_run, dispatch, dispatch_idempotent, operation_id, run_first,
}
use anp_server_go.Rpc.Entry.{serve}
use anp_server_go.Sql.{insert_response, upsert_did}
use anp_server_go.Store.{Db}
use anp_server_go.Writes.Dispatch.{dispatch-Moves}

-- A run that succeeds leaves its answer in the cache.
abbrev Cached : String → Result Json × Db → Type 0
Cached key (r, t) = (v : Json) → r ≡ ok v → lookup key t.idempotency ≡ some v

abbrev responses : Dict String Fields → Dict String Json → Dict String Json
responses dids cached = cached

upsert_did-Frame : (did : String) (doc : Fields) → Moves (frame responses) (upsert_did did doc)
unfolding upsert_did
upsert_did-Frame did doc = record { at = λ s. refl }

did_register_document-Frame :
    (params : GoMap) → Moves (frame responses) (did_register_document params)
unfolding did_register_document
did_register_document-Frame params = search (moves_rules, upsert_did-Frame) depth 10

insert_response-Ends :
    (key : String) (v : Json) (s : Db)
    → lookup key s.idempotency ≡ none
    → Ends (Cached key) (insert_response key v >>= λ _. pure v) s
unfolding ◌>>=◌ pure insert_response
insert_response-Ends key v s free = record {
  at =
      rw free (λ u h.
        rw (lookup-insert key key v s.idempotency) (rw (beq_refl key) (ap some (ok_inj h))));
}

module _ (env : Env) (method : String) (params : GoMap) (did base : String) where
  run_first-Ends :
      (key : String) (s : Db)
      → lookup key s.idempotency ≡ none
      → Ends (Cached key) (run_first env method params did base key) s
  unfolding run_first
  run_first-Ends key s free =
      Ends-bind (dispatch env method params did base) _ (λ e failed v h. err_ok h)
        (λ v done. insert_response-Ends key v _ (
          ap (lookup key) (
            (dispatch-Moves (frame-Writes responses) (frame-Bindings responses) env method params
                did base (λ _. did_register_document-Frame params)).at
              s)
          ∙ free))

  cached_or_run-Ends :
      (key : String) (s : Db) (o : Option Json)
      → lookup key s.idempotency ≡ o
      → Ends (Cached key) (cached_or_run o (run_first env method params did base key)) s
  unfolding pure
  cached_or_run-Ends key s none found = run_first-Ends key s found
  cached_or_run-Ends key s (some v) found = record { at = λ u h. found ∙ ap some (ok_inj h) }

  dispatch_idempotent-Cached :
      (s : Db)
      → (operation_id params == "") ≡ false
      → Cached
          (cache_key did method (operation_id params))
          (dispatch_idempotent env method params did base s)
  unfolding dispatch_idempotent ◌>>=◌
  dispatch_idempotent-Cached s named = rw named (cached_or_run-Ends _ s _ refl).at

dispatch_idempotent_hit :
    (env : Env) (method : String) (params : GoMap) (did base : String) (s : Db) (v : Json)
    → (operation_id params == "") ≡ false
    → lookup (cache_key did method (operation_id params)) s.idempotency ≡ some v
    → dispatch_idempotent env method params did base s ≡ (ok v, s)
unfolding dispatch_idempotent ◌>>=◌ pure
dispatch_idempotent_hit env method params did base s v named found = rw named (rw found refl)

-- A call that succeeded under an operation id that is not empty is answered with the same result,
-- and changes nothing, when the same caller calls the same method under that id again, whatever
-- its other parameters are and whatever requests the server has handled in between.
pub dispatch_idempotent_replay :
    (env env' : Env) (method : String) (params params' : GoMap) (did base base' : String) (s : Db)
    (v : Json) (requests : List (Env × Request))
    → (operation_id params == "") ≡ false
    → operation_id params' ≡ operation_id params
    → (dispatch_idempotent env method params did base s).0 ≡ ok v
    → (let later = serve requests (dispatch_idempotent env method params did base s).1 in
        dispatch_idempotent env' method params' did base' later ≡ (ok v, later))
dispatch_idempotent_replay env env' method params params' did base base' s v requests named same
      done =
    let t = (dispatch_idempotent env method params did base s).1 in
    dispatch_idempotent_hit env' method params' did base' _ v (rw same named) (
      rw same (
        kept_row ((serve-Evolves requests t).responses (cache_key did method (operation_id params)))
          (dispatch_idempotent-Cached env method params did base s named v done)))

-- A run that fails leaves the cache as it was.
abbrev KeepsCache : Db → Result Json × Db → Type 0
KeepsCache s (r, t) = (e : Error) → r ≡ err e → t.idempotency ≡ s.idempotency

ok_err : {A : Type 0} {C : Type 0} {e : Error} {a : A} → ok a ≡ err e → C
ok_err h = cc

module _ (env : Env) (method : String) (params : GoMap) (did base : String) (s : Db) where
  dispatch-Frame : (dispatch env method params did base s).1.idempotency ≡ s.idempotency
  dispatch-Frame =
      (dispatch-Moves (frame-Writes responses) (frame-Bindings responses) env method params did base
          (λ _. did_register_document-Frame params)).at
        s

  stored_ok :
      (key : String) (v : Json) (t : Db)
      → Ends (KeepsCache s) (insert_response key v >>= λ _. pure v) t
  unfolding ◌>>=◌ pure insert_response
  stored_ok key v t = elim (Bool-cases (is_some (lookup key t.idempotency))) [
    | inl taken ↦ record { at = rw taken (λ e. ok_err) }
    | inr free ↦ record { at = rw free (λ e. ok_err) }
  ]

  cached_or_run-KeepsCache :
      (key : String) (o : Option Json)
      → Ends (KeepsCache s) (cached_or_run o (run_first env method params did base key)) s
  unfolding pure run_first
  cached_or_run-KeepsCache key none =
      Ends-bind (dispatch env method params did base) _ (λ e failed e' h. dispatch-Frame)
        (λ v done. stored_ok key v _)
  cached_or_run-KeepsCache key (some v) = record { at = λ e. ok_err }

  dispatch_idempotent-KeepsCache :
      Ends (KeepsCache s) (dispatch_idempotent env method params did base) s
  unfolding dispatch_idempotent
  dispatch_idempotent-KeepsCache =
      Ends-if (operation_id params == "") (dispatch env method params did base) _
        (λ unnamed. record { at = λ e failed. dispatch-Frame })
        (λ named. Ends-gets _ _ (cached_or_run-KeepsCache _ _))

-- A call that fails is not cached: it leaves the cache as it was, whatever else it has written, so
-- that the same call may be tried again.
pub dispatch_idempotent_failed :
    (env : Env) (method : String) (params : GoMap) (did base : String) (s : Db) (e : Error)
    → (dispatch_idempotent env method params did base s).0 ≡ err e
    → (dispatch_idempotent env method params did base s).1.idempotency ≡ s.idempotency
dispatch_idempotent_failed env method params did base s e failed =
    (dispatch_idempotent-KeepsCache env method params did base s).at e failed
