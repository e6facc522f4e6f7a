-- ===== src/Cancel/Registry.antt =====
-- Histories of one token: each callback registered runs once, when the token is canceled.
use stv_renew.Prelude.{
  ℕ, ◌≡◌, refl, ap, Bool, true, false, List, [], ◌∷◌, ◌++◌, Option, none, some, arith,
  if◌then◌else◌,
}
use mathlib.Core.List.{append_assoc}
use stv_renew.Cancel.{
  Callback, CancelToken, create, invoke_all, request_cancel, push_callback, on_cancel,
}

-- The calls on a token, in the order in which they take effect.
pub data Call : Type 0 where
  request : Call
  register : Option Callback → Call

unfoldable pub perform : CancelToken → Call → CancelToken × List ℕ
unfolding request_cancel on_cancel
perform t request = request_cancel t
perform t (register cb) = let (t', run) = on_cancel t cb in (t', run.0)

-- The token after a history and all callbacks invoked on the way.
unfoldable pub history : CancelToken → List Call → CancelToken × List ℕ
unfolding perform
history t [] = (t, [])
history t (c ∷ cs) =
    let (t', now) = perform t c in let (t'', later) = history t' cs in (t'', now ++ later)

abbrev pub requested : List Call → Bool
requested [] = false
requested (request ∷ cs) = true
requested (register _ ∷ cs) = requested cs

abbrev pub registered : List Call → List (Option Callback)
registered [] = []
registered (request ∷ cs) = registered cs
registered (register cb ∷ cs) = cb ∷ registered cs

invoke_all-append :
    (xs ys : List (Option Callback)) → invoke_all (xs ++ ys) ≡ invoke_all xs ++ invoke_all ys
unfolding invoke_all
invoke_all-append [] ys = refl
invoke_all-append (none ∷ xs) ys = invoke_all-append xs ys
invoke_all-append (some cb ∷ xs) ys = ap (◌∷◌ cb.id) (invoke_all-append xs ys)

-- Once canceled, a request does nothing and a registration runs its callback at once.
pub history_canceled :
    (t : CancelToken) (cs : List Call)
    → t.canceled ≡ true
    → history t cs ≡ (t, invoke_all (registered cs))
unfolding history invoke_all
history_canceled t [] h = refl
history_canceled t (request ∷ cs) h = ground (arith, history_canceled t cs)
history_canceled t (register none ∷ cs) h = ground (arith, history_canceled t cs)
history_canceled t (register (some cb) ∷ cs) h = ground (arith, history_canceled t cs)

history_from :
    (t : CancelToken) (cs : List Call)
    → t.canceled ≡ false
    → ((history t cs).0.canceled ≡ requested cs)
      × ((history t cs).1
          ≡ (if requested cs then invoke_all (t.callbacks ++ registered cs) else []))
unfolding history
history_from t [] h = (h, refl)
history_from t (request ∷ cs) h = ground (
  arith,
  history_canceled (record t { canceled = true }) cs,
  invoke_all-append t.callbacks (registered cs),
)
history_from t (register cb ∷ cs) h = ground (
  arith,
  history_from (push_callback t cb) cs,
  append_assoc t.callbacks (cb ∷ []) (registered cs),
)

-- Over any history of a new token, of requests and registrations in any order, the token is
-- canceled exactly when cancellation was requested, and then every callback registered, before or
-- after the request, has run exactly once, in the order of registration; if it was not requested,
-- none has run.
pub history_lem :
    (cs : List Call)
    → ((history create cs).0.canceled ≡ requested cs)
      × ((history create cs).1 ≡ (if requested cs then invoke_all (registered cs) else []))
history_lem cs = history_from create cs refl
