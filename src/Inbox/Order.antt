-- ===== src/Inbox/Order.antt =====
-- The order in which msg.inbox of internal/server/msg.go shows the messages.
use anp_server_go.Common.{
  Bool, Bool-cases, List, String, [], arith, filter, inl, inr, suc, take, zero, ℕ, ◌+◌, ◌∷◌, ◌≤◌,
}
use anp_server_go.Env.{Env, Request}
use anp_server_go.Inbox.{inbox_rows, is_visible}
use anp_server_go.Numbering.{IsBelow, serve-IsNumbered}
use anp_server_go.Rpc.Entry.{serve}
use anp_server_go.Store.{Message, empty}

IsBelow-weaken : (m n : ℕ) (ms : List (ℕ × Message)) → m ≤ n → IsBelow m ms → IsBelow n ms
IsBelow-weaken m n [] le h = tt
IsBelow-weaken m n ((id, x) ∷ ms) le h = (omega (arith, h.0), h.1)

filter-IsBelow :
    (p : ℕ × Message → Bool) (n : ℕ) (ms : List (ℕ × Message))
    → IsBelow n ms
    → IsBelow n (filter p ms)
filter-IsBelow p n [] h = tt
filter-IsBelow p n ((id, x) ∷ ms) h = elim (Bool-cases (p (id, x))) [
  | inl shown ↦ rw shown (h.0, filter-IsBelow p id ms h.1)
  | inr hidden ↦ rw hidden (IsBelow-weaken id n _ (omega (arith, h.0)) (filter-IsBelow p id ms h.1))
]

take-IsBelow : (k n : ℕ) (ms : List (ℕ × Message)) → IsBelow n ms → IsBelow n (take k ms)
take-IsBelow zero n ms h = tt
take-IsBelow (suc k) n [] h = tt
take-IsBelow (suc k) n ((id, x) ∷ ms) h = (h.0, take-IsBelow k id ms h.1)

-- After any requests to a new server, an inbox shows its messages with strictly falling numbers,
-- all of them numbers that were given out.
pub inbox_rows-IsBelow :
    (requests : List (Env × Request)) (did : String) (limit : ℕ)
    → IsBelow ((serve requests empty).last_id + 1) (inbox_rows (serve requests empty) did limit)
unfolding inbox_rows
inbox_rows-IsBelow requests did limit =
    let s = serve requests empty in
    take-IsBelow limit (s.last_id + 1) _ (
      filter-IsBelow (λ r. is_visible s did r.1) (s.last_id + 1) s.messages
        (serve-IsNumbered requests empty (tt, tt)).0)
