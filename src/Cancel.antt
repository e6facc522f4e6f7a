-- ===== src/Cancel.antt =====
-- core/include/core/cancel_token.h and core/src/cancel_token.cpp. A callback is a `std::function`,
-- possibly empty; a call of it is recorded by its number, with whether it throws. The token's lock
-- orders the calls, so an operation is one step, and `on_cancel`, which reads the flag before it
-- takes the lock, is also given as the two steps that another thread can come between.
pub mod Registry
pub mod Race
mod Examples
use stv_renew.Prelude.{
  ℕ, Bool, true, false, String, List, [], ◌∷◌, ◌++◌, Option, none, some, get_elem?, set, length,
  if◌then◌else◌,
}
use stv_renew.Errors.{Result, ok, err}

pub record Callback : Type 0 where
  pub id : ℕ
  pub throws : Bool

pub record CancelToken : Type 0 where
  pub canceled : Bool
  pub callbacks : List (Option Callback)

-- `CancelToken::create()`.
abbrev pub create : CancelToken
create = record { canceled = false; callbacks = [] }

-- The `for` loop: an empty function is skipped, and what a callback throws is swallowed.
unfoldable pub invoke_all : List (Option Callback) → List ℕ
invoke_all [] = []
invoke_all (none ∷ cbs) = invoke_all cbs
invoke_all (some cb ∷ cbs) = cb.id ∷ invoke_all cbs

-- Gives the token and the callbacks invoked. The exchange succeeds for the first caller only.
unfoldable pub request_cancel : CancelToken → CancelToken × List ℕ
request_cancel t =
    if t.canceled then (t, []) else (record t { canceled = true }, invoke_all t.callbacks)

unfoldable pub is_canceled : CancelToken → Bool
is_canceled t = t.canceled

unfoldable pub throw_if_canceled : CancelToken → Result (Unit {0}) String
unfolding is_canceled
throw_if_canceled t = if is_canceled t then err "CancelToken: operation canceled" else ok tt

-- `callbacks_.push_back(cb)`, the part of `on_cancel` under the lock.
unfoldable pub push_callback : CancelToken → Option Callback → CancelToken
push_callback t cb = record t { callbacks = t.callbacks ++ cb ∷ [] }

-- On a canceled token the callback runs at once; what it throws leaves `on_cancel` (`err`).
unfoldable pub invoke_now : Option Callback → List ℕ × Result (Unit {0}) ℕ
invoke_now none = ([], ok tt)
invoke_now (some cb) = (cb.id ∷ [], if cb.throws then err cb.id else ok tt)

unfoldable pub on_cancel :
    CancelToken → Option Callback → CancelToken × (List ℕ × Result (Unit {0}) ℕ)
unfolding invoke_now push_callback
on_cancel t cb = if t.canceled then (t, invoke_now cb) else (push_callback t cb, ([], ok tt))

-- The tokens that `std::shared_ptr<CancelToken>` points to, by address: several tasks may hold one.
abbrev pub Tokens : Type 0
Tokens = List CancelToken

-- `CancelToken::create()` at the next address.
unfoldable pub allocate : Tokens → Tokens × ℕ
allocate ts = (ts ++ create ∷ [], length ts)

-- `if (token) token->request_cancel();` for a pointer that may be null.
unfoldable pub request_at : Option ℕ → Tokens → Tokens × List ℕ
unfolding request_cancel
request_at none ts = (ts, [])
request_at (some a) ts = elim (get_elem? ts a) [
  | none ↦ (ts, [])
  | some t ↦ let (t', invoked) = request_cancel t in (set ts a t', invoked)
]

-- `token && token->is_canceled()`.
unfoldable pub is_canceled_at : Option ℕ → Tokens → Bool
unfolding is_canceled
is_canceled_at none ts = false
is_canceled_at (some a) ts = elim (get_elem? ts a) [ none ↦ false | some t ↦ is_canceled t ]
