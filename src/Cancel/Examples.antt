-- ===== src/Cancel/Examples.antt =====
-- Inputs for the theorems about tokens, and tests.
use stv_renew.Prelude.{◌≡◌, refl, true, false, List, [], ◌∷◌, none, some, ℕ}
use stv_renew.Errors.{err}
use stv_renew.Cancel.{
  Callback, create, invoke_all, request_cancel, is_canceled, throw_if_canceled, on_cancel,
  request_at, is_canceled_at, allocate,
}
use stv_renew.Cancel.Registry.{Call, request, register, history, history_lem}
use stv_renew.Cancel.Race.{lost_registration, lost_registration_lem}

abbrev quiet : ℕ → Callback
quiet n = record { id = n; throws = false }

abbrev around_request : List Call
around_request =
    register (some (quiet 1)) ∷ register none ∷ request ∷ request ∷ register (some (quiet 2)) ∷ []

history_lem_example :
    ((history create around_request).0.canceled ≡ true)
    × ((history create around_request).1 ≡ 1 ∷ 2 ∷ [])
unfolding invoke_all
history_lem_example = history_lem around_request

lost_registration_lem_example :
    ((request_cancel create).1 ≡ [])
    × ((history (lost_registration create (quiet 7)) (request ∷ register (some (quiet 8)) ∷ [])).1
        ≡ 8 ∷ [])
unfolding invoke_all is_canceled
lost_registration_lem_example =
    lost_registration_lem create (quiet 7) (request ∷ register (some (quiet 8)) ∷ []) refl

throwing_callback :
    on_cancel (record create { canceled = true }) (some (record { id = 3; throws = true }))
    ≡ (record create { canceled = true }, (3 ∷ [], err 3))
unfolding on_cancel
throwing_callback = refl

throw_after_request :
    throw_if_canceled (request_cancel create).0 ≡ err "CancelToken: operation canceled"
unfolding throw_if_canceled request_cancel
throw_after_request = refl

shared_flag : is_canceled_at (some 0) (request_at (some 0) (allocate []).0).0 ≡ true
unfolding is_canceled_at request_at allocate
shared_flag = refl
