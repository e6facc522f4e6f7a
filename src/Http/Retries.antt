-- ===== src/Http/Retries.antt =====
-- `RetryableHttpClient::execute` ends, and calls the inner client a bounded number of times.
use stv_renew.Prelude.{
  ◌≡◌, refl, ap, ℕ, zero, suc, ◌+◌, ◌≤◌, ◌<◌, Bool, true, false, Option, none, some, arith, ltb,
  if◌then◌else◌, ltb→lt, not, some_inj,
}
use stv_renew.Prelude.Int.{pos_part}
use stv_renew.Errors.{TaskError, Result, ok, err}
use stv_renew.Http.{
  HttpRequest, HttpResponse, RetryPolicy, Surroundings, wait, attempt, retry, execute, own_error,
  inner_error, should_retry, parse_http_error_code, next_backoff, request_canceled,
}

-- A clock that sleeping moves on, and a count of the calls of the inner client.
pub record IsCounted {W : Type 0} (env : Surroundings W) (calls : W → ℕ) : Type 0 where
  pub sleep_long : (w : W) (n : ℕ) → env.clock w + n ≤ env.clock (env.sleep_for w n)
  pub poll_on : (w : W) → env.clock w ≤ env.clock (env.is_canceled w).0
  pub call-calls : (w : W) (q : HttpRequest) → calls (env.call w q).0 ≡ suc (calls w)
  pub poll-calls : (w : W) → calls (env.is_canceled w).0 ≡ calls w
  pub sleep-calls : (w : W) (n : ℕ) → calls (env.sleep_for w n) ≡ calls w

-- An answer after at most so many calls.
abbrev pub AnsweredBy : {W A : Type 0} → (W → ℕ) → ℕ → Option (W × A) → Type 0
AnsweredBy {W = W} {A = A} calls most o = (w : W) × ((a : A) × (o ≡ some (w, a)) × (calls w ≤ most))

wait_round :
    {W : Type 0} (calls : W → ℕ) (w w1 : W) (most : ℕ) (early stop : Bool)
    (rest : Option (W × Bool))
    → calls w ≤ most
    → calls w1 ≤ most
    → (early ≡ true → AnsweredBy calls most rest)
    → AnsweredBy calls most
        (if early then if stop then some (w1, true) else rest else some (w, false))
wait_round calls w w1 most false stop rest a b f = (w, (false, refl, a))
wait_round calls w w1 most true true rest a b f = (w1, (true, refl, b))
wait_round calls w w1 most true false rest a b f = f refl

abbrev Answer : Type 0
Answer = Result HttpResponse TaskError

attempt_round :
    {W : Type 0} (calls : W → ℕ) (w1 w2 : W) (most : ℕ) (stop has_inner : Bool) (x y r : Answer)
    (may_retry : TaskError → Bool) (noted : TaskError → TaskError)
    (again : W → TaskError → Option (W × Answer))
    → calls w1 ≤ most
    → calls w2 ≤ most
    → ((e : TaskError) → AnsweredBy calls most (again w2 (noted e)))
    → AnsweredBy calls most (
        if stop then some (w1, x) else if not has_inner then some (w1, y) else elim r [
          | ok response ↦ some (w2, ok response)
          | err e ↦ if may_retry e then again w2 (noted e) else some (w2, err (noted e))
        ])
attempt_round calls w1 w2 most true has_inner x y r may_retry noted again a b f = (w1, (x, refl, a))
attempt_round calls w1 w2 most false false x y r may_retry noted again a b f = (w1, (y, refl, a))
attempt_round calls w1 w2 most false true x y (ok v) may_retry noted again a b f =
    (w2, (ok v, refl, b))
attempt_round calls w1 w2 most false true x y (err e) may_retry noted again a b f =
    by_kind (may_retry e)
  where
    by_kind :
        (k : Bool)
        → AnsweredBy calls most (if k then again w2 (noted e) else some (w2, err (noted e)))
    by_kind true = f e
    by_kind false = (w2, (err (noted e), refl, b))

-- The wait of a backoff, and what follows it.
pause_round :
    {W : Type 0} (calls : W → ℕ) (most now : ℕ) (o : Option (W × Bool)) (x : Answer)
    (next : W → Option (W × Answer))
    → AnsweredBy calls now o
    → now ≤ most
    → ((w : W) → calls w ≤ now → AnsweredBy calls most (next w))
    → AnsweredBy calls most (elim o [
      | none ↦ none
      | some (w, stop) ↦ elim stop [ true ↦ some (w, x) | false ↦ next w ]
    ])
pause_round calls most now none x next (w, (stop, e, k)) h f = cc
pause_round {W = W} calls most now (some (w, true)) x next (w', (stop, e, k)) h f =
    let same : calls w ≡ calls w' = ap (λ (z : W × Bool). calls z.0) (some_inj e) in
    (w, (x, refl, omega (arith, same, k, h)))
pause_round {W = W} calls most now (some (w, false)) x next (w', (stop, e, k)) h f =
    let same : calls w ≡ calls w' = ap (λ (z : W × Bool). calls z.0) (some_inj e) in
    f w (omega (arith, same, k))

module _ {W : Type 0} (env : Surroundings W) (calls : W → ℕ) (laws : IsCounted env calls)
    (policy : RetryPolicy) (slices : 1 ≤ policy.sleep_slice) where
  wait_ends :
      (fuel : ℕ) (w : W) (until most : ℕ)
      → 0 < fuel
      → until < env.clock w + fuel
      → calls w ≤ most
      → AnsweredBy calls most (wait env policy fuel w until)
  unfolding wait
  wait_ends zero w until most positive h k = absurd (omega (arith, positive))
  wait_ends (suc fuel) w until most positive h k =
      let w1 = (env.is_canceled w).0 in
      let w2 = env.sleep_for w1 policy.sleep_slice in
      let polled = laws.poll-calls w in
      wait_round calls w w1 most (ltb (env.clock w) until) (env.is_canceled w).1 _ k
        (omega (arith, polled, k))
        (λ e.
          let early = ltb→lt (env.clock w) until e in
          wait_ends fuel w2 until most (omega (arith, early, h))
            (omega (arith, early, h, laws.poll_on w, laws.sleep_long w1 policy.sleep_slice, slices))
            (omega (arith, polled, laws.sleep-calls w1 policy.sleep_slice, k)))

  attempt_ends :
      (has_inner : Bool) (request : HttpRequest) (count : ℕ)
      (again : W → TaskError → Option (W × Result HttpResponse TaskError)) (w : W) (most : ℕ)
      → calls w < most
      → ((w' : W) (e : TaskError) → calls w' ≡ suc (calls w) → AnsweredBy calls most (again w' e))
      → AnsweredBy calls most (attempt env policy has_inner request count again w)
  unfolding attempt
  attempt_ends has_inner request count again w most few more =
      let w1 = (env.is_canceled w).0 in
      let w2 = (env.call w1 request).0 in
      let polled = laws.poll-calls w in
      let called = laws.call-calls w1 request in
      attempt_round calls w1 w2 most (env.is_canceled w).1 has_inner _ _ (env.call w1 request).1
        (λ e. should_retry (parse_http_error_code e)) (inner_error request count) again
        (omega (arith, polled, few)) (omega (arith, polled, called, few))
        (λ e. more w2 (inner_error request count e) (omega (arith, polled, called)))

  retry_ends :
      (has_inner : Bool) (request : HttpRequest) (left count backoff : ℕ) (w : W)
      → AnsweredBy calls
          (calls w + suc left)
          (retry env policy has_inner request left count backoff w)
  unfolding retry
  retry_ends has_inner request zero count backoff w =
      attempt_ends has_inner request count _ w (calls w + 1) (omega arith)
        (λ w' e same. (w', (err e, refl, omega (arith, same))))
  retry_ends has_inner request (suc left) count backoff w =
      attempt_ends has_inner request count _ w (calls w + suc (suc left)) (omega arith)
        (λ w' e same.
          pause_round calls (calls w + suc (suc left)) (calls w')
            (wait env policy (suc backoff) w' (env.clock w' + backoff))
            (err (
              own_error request count request_canceled "Request canceled."
                "Cancellation requested during retry backoff"))
            (retry env policy has_inner request left (suc count) (next_backoff policy backoff))
            (wait_ends (suc backoff) w' (env.clock w' + backoff) (calls w') (omega arith)
              (omega arith) (omega arith))
            (omega (arith, same))
            (λ v few.
              let (u, (r, answered, most)) =
                retry_ends has_inner request left (suc count) (next_backoff policy backoff) v in
              (u, (r, answered, omega (arith, most, few, same)))))

-- With a clock that sleeping moves on and slices of at least a millisecond, `execute` returns, and
-- has called the inner client at most once and once more for each retry allowed; a negative number
-- of retries counts as none.
pub execute-AnsweredBy :
    {W : Type 0} (env : Surroundings W) (calls : W → ℕ) (policy : RetryPolicy) (has_inner : Bool)
    (request : HttpRequest) (w : W)
    → IsCounted env calls
    → 1 ≤ policy.sleep_slice
    → AnsweredBy calls
        (calls w + suc (pos_part policy.max_retries))
        (execute env policy has_inner request w)
unfolding execute
execute-AnsweredBy env calls policy has_inner request w laws slices =
    retry_ends env calls laws policy slices has_inner request (pos_part policy.max_retries) 0
      policy.initial_backoff w
