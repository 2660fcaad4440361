-- ===== src/Exec.antt =====
-- A handler: a function of the database that returns a result or an error beside the new database.
-- The handlers run no transaction, so what was written before an error stays written.
-- The errors are those of internal/server/rpc.go.
use anp_server_go.Common.{Bool, List, Option, String, [], false, none, some, true}
use anp_server_go.Store.{Db}

-- The codes of an `*rpcError`; `plain` stands for any other error, which is sent as -32000.
pub data Code : Type 0 where
  plain handle_taken did_not_found opk_unavailable invalid_params : Code
  e2ee_key_package_not_found e2ee_invalid_key_package e2ee_controller_required : Code
  e2ee_notice_unsupported : Code
  slot_not_found slot_expired commit_token_invalid object_too_large grant_not_found : Code
  unauthorized digest_mismatch object_unavailable encryption_policy_violation : Code

-- A format of fmt.Errorf with the arguments for its verbs.
pub record Error : Type 0 where
  pub code : Code
  pub format : String
  pub args : List String

abbrev pub errorf : String → List String → Error
errorf format args = record { code = plain; format = format; args = args }

abbrev pub rpc_error : Code → String → Error
rpc_error code msg = record { code = code; format = msg; args = [] }

abbrev pub invalid : String → Error
invalid = rpc_error invalid_params

pub data Result (A : Type 0) : Type 0 where
  ok : A → Result A
  err : Error → Result A

abbrev pub Exec : Type 0 → Type 0
Exec A = Db → Result A × Db

module _ {A : Type 0} where
  unfoldable pub pure : A → Exec A
  pure a s = (ok a, s)

  unfoldable pub raise : Error → Exec A
  raise e s = (err e, s)

  unfoldable pub gets : (Db → A) → Exec A
  gets f s = (ok (f s), s)

  unfoldable pub or_raise : Option A → Error → Exec A
  or_raise none e s = (err e, s)
  or_raise (some a) e s = (ok a, s)

unfoldable pub raise_if : Bool → Error → Exec (Unit {0})
raise_if true e s = (err e, s)
raise_if false e s = (ok tt, s)

-- `return nil, err` on an error, and nothing on nil
unfoldable pub raise_any : Option Error → Exec (Unit {0})
raise_any none s = (ok tt, s)
raise_any (some e) s = (err e, s)

unfoldable pub modify : (Db → Db) → Exec (Unit {0})
modify f s = (ok tt, f s)

-- `_, _ = m`: the error is dropped, and what was written stays.
unfoldable pub ignore : {A : Type 0} → Exec A → Exec (Unit {0})
ignore m s = (ok tt, (m s).1)

module _ {A B : Type 0} where
  abbrev pub continue : Result A → (A → Exec B) → Exec B
  continue (ok a) f s = f a s
  continue (err e) f s = (err e, s)

  infixl 10 ◌>>=◌ ◌>>◌
  -- Opening this opens the actions above too.
  unfoldable pub ◌>>=◌ : Exec A → (A → Exec B) → Exec B
  unfolding pure raise gets or_raise raise_if raise_any modify ignore
  ◌>>=◌ m f s = let (r, s') = m s in continue r f s'

  abbrev pub ◌>>◌ : Exec A → Exec B → Exec B
  m >> n = m >>= λ _. n
