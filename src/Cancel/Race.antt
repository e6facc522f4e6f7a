-- ===== src/Cancel/Race.antt =====
-- `on_cancel` reads the flag before it takes the lock: a request between the two loses the callback.
use stv_renew.Prelude.{◌≡◌, false, List, some, arith}
use stv_renew.Cancel.{Callback, CancelToken, invoke_all, request_cancel, is_canceled, push_callback}
use stv_renew.Cancel.Registry.{Call, registered, history, history_canceled}

-- The flag is read as clear, another thread requests cancellation, then the callback is pushed.
unfoldable pub lost_registration : CancelToken → Callback → CancelToken
unfolding push_callback request_cancel
lost_registration t cb = push_callback (request_cancel t).0 (some cb)

-- When another thread cancels the token after `on_cancel` has read the flag as clear and before it
-- takes the lock, the callback that is then pushed is lost: the request ran the callbacks that were
-- there before, and whatever requests and registrations follow, they run only the callbacks that
-- they register themselves.
pub lost_registration_lem :
    (t : CancelToken) (cb : Callback) (cs : List Call)
    → is_canceled t ≡ false
    → ((request_cancel t).1 ≡ invoke_all t.callbacks)
      × ((history (lost_registration t cb) cs).1 ≡ invoke_all (registered cs))
unfolding lost_registration is_canceled request_cancel
lost_registration_lem t cb cs h = ground (arith, history_canceled (lost_registration t cb) cs)
