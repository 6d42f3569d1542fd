-- ===== src/Daemon/AuthSessions.antt =====
-- src/runtime/daemon/server.ts, `InteractiveAuthSessions`: the sign-ins that a person is going
-- through at the moment. A method reads the clock once, as `now`. `expirations` is a JavaScript
-- `Map`: its entries in the order in which their keys were first set.
use cued.Base.{
  ℕ, ◌+◌, max, Bool, not, String, List, [], ◌∷◌, map, Option, none, some, leb, ltb, filter_by, ◌==◌,
  string_eq, if◌then◌else◌,
}

pub record AuthSessions : Type 0 where
  pub active_until : ℕ
  pub expirations : List (String × ℕ)

-- `Map.prototype.set`
abbrev pub set_expiration : String → ℕ → List (String × ℕ) → List (String × ℕ)
set_expiration id at [] = (id, at) ∷ []
set_expiration id at (e ∷ es) =
    let rest = set_expiration id at es in if e.0 == id then (id, at) ∷ es else e ∷ rest

-- `Math.max(0, ...values)`
abbrev pub latest : List ℕ → ℕ
latest [] = 0
latest (t ∷ ts) = max t (latest ts)

unfoldable pub refresh : ℕ → AuthSessions → AuthSessions
refresh now s =
    let live = filter_by (λ e. not (leb e.1 now)) s.expirations in
    record { active_until = latest (map (λ e. e.1) live); expirations = live }

unfoldable pub is_active : ℕ → AuthSessions → AuthSessions × Bool
unfolding refresh
is_active now s = (refresh now s, ltb now (refresh now s).active_until)

unfoldable pub expires_at : ℕ → AuthSessions → AuthSessions × Option ℕ
unfolding refresh is_active
expires_at now s =
    let (t, active) = is_active now (refresh now s) in
    (t, if active then some t.active_until else none)

unfoldable pub auth_status : ℕ → AuthSessions → AuthSessions × Bool × Option ℕ
unfolding is_active
auth_status now s =
    let (t, active) = is_active now s in (t, active, if active then some t.active_until else none)

unfoldable pub begin : ℕ → String → ℕ → AuthSessions → AuthSessions × Bool × Option ℕ
unfolding refresh auth_status
begin now id ttl_ms s =
    auth_status now
      (refresh now (record s { expirations = set_expiration id (now + ttl_ms) s.expirations }))

unfoldable pub end : ℕ → String → AuthSessions → AuthSessions × Bool × Option ℕ
unfolding refresh auth_status
end now id s =
    auth_status now
      (refresh now (record s { expirations = filter_by (λ e. not (e.0 == id)) s.expirations }))
