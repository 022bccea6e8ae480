-- ===== src/Identity/Redis.antt =====
-- The Redis adapters of the identity service
-- (apps/identity/src/infrastructure/redis/redis.adapters.ts).
use food_ordering_app.Prelude.{
  ℕ, suc, ◌+◌, ◌*◌, max, String, Bool, true, false, Option, none, some, if◌then◌else◌, ltb, leb,
  is_some,
}
use food_ordering_app.Effect.{ok, Action, gets, modify}
use food_ordering_app.Keyed.{write}
use food_ordering_app.Identity.Model.{Scope, login, otp_requests, Timed, World}

-- `GET`: a key is gone when its time is over.
unfoldable pub read : {A : Type 0} → ℕ → Option (Timed A) → Option A
read now none = none
read now (some t) = if ltb now t.expiry then some t.value else none

-- `SET … EX`
abbrev pub timed : {A : Type 0} → A → ℕ → ℕ → Option (Timed A)
timed value now seconds = some (record { value = value; expiry = now + seconds * 1000 })

-- `INCR`, and `EXPIRE` when it answers 1; a counter that is there keeps its expiry.
unfoldable pub counted : ℕ → ℕ → Option (Timed ℕ) → Timed ℕ
counted now seconds none = record { value = 1; expiry = now + seconds * 1000 }
counted now seconds (some t) =
    if ltb now t.expiry
    then record t { value = suc t.value }
    else record { value = 1; expiry = now + seconds * 1000 }

-- `RedisOtpStore`
unfoldable pub set_otp : String → String → ℕ → Action World (Unit {0})
set_otp user_id hash seconds =
    modify (λ w. record w { otp = write user_id (timed hash w.now seconds) w.otp })

unfoldable pub get_otp : String → Action World (Option String)
unfolding read
get_otp user_id = gets (λ w. read w.now (w.otp user_id))

unfoldable pub del_otp : String → Action World (Unit {0})
del_otp user_id = modify (λ w. record w { otp = write user_id none w.otp })

unfoldable pub incr_attempts : String → ℕ → Action World ℕ
unfolding counted
incr_attempts user_id seconds w =
    let c = counted w.now seconds (w.attempts user_id) in
    (ok c.value, record w { attempts = write user_id (some c) w.attempts })

unfoldable pub clear_attempts : String → Action World (Unit {0})
clear_attempts user_id = modify (λ w. record w { attempts = write user_id none w.attempts })

-- `RedisTokenDenylist`
unfoldable pub deny : String → ℕ → Action World (Unit {0})
deny jti seconds =
    modify (λ w. record w { denied = write jti (timed tt w.now (max seconds 1)) w.denied })

unfoldable pub is_revoked : String → Action World Bool
unfolding read
is_revoked jti = gets (λ w. is_some (read w.now (w.denied jti)))

abbrev pub same_scope : Scope → Scope → Bool
same_scope login login = true
same_scope otp_requests otp_requests = true
same_scope _ _ = false

-- The counters after one of them is written.
unfoldable pub write_rate :
    Scope
    → String
    → Timed ℕ
    → (Scope → String → Option (Timed ℕ))
    → Scope
    → String
    → Option (Timed ℕ)
write_rate scope id c rates s = if same_scope scope s then write id (some c) (rates s) else rates s

-- `RedisRateLimiter.hit`
unfoldable pub hit : Scope → String → ℕ → ℕ → Action World Bool
unfolding counted write_rate
hit scope id limit seconds w =
    let c = counted w.now seconds (w.rates scope id) in
    (ok (leb c.value limit), record w { rates = write_rate scope id c w.rates })
