-- ===== src/Server/Session.antt =====
-- `ztask_context_newsession` of ztask/ztask_server.c: the sessions of a service.
use ztask.Base.{ℕ, zero, suc, ◌+◌, ◌%◌, ◌^◌, ◌-◌, ◌≡◌, refl, ap, ◌∙◌, arith}
use ztask.Server.{newsession}

-- The session of call number `n + 1` on a new context.
unfoldable pub sessions : ℕ → ℕ
unfolding newsession
sessions zero = newsession 0
sessions (suc n) = newsession (sessions n)

newsession_step : (m : ℕ) → newsession (m % (2 ^ 31 - 1) + 1) ≡ (m + 1) % (2 ^ 31 - 1) + 1
unfolding newsession
newsession_step m = ground arith

-- "session always be a positive number": the sessions of a service count from 1 to 2^31 - 1, the
-- greatest `int`, and then from 1 again.
pub sessions_count : (n : ℕ) → sessions n ≡ n % (2 ^ 31 - 1) + 1
unfolding sessions newsession
sessions_count zero = refl
sessions_count (suc n) =
    ap newsession (sessions_count n) ∙ newsession_step n ∙ ap (λ m. m % (2 ^ 31 - 1) + 1) (one n)
  where
    one : (m : ℕ) → m + 1 ≡ suc m
    one m = omega arith
