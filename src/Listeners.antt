-- ===== src/Listeners.antt =====
-- src/services/stratum-v1.service.ts: the ports on which Stratum V1 miners are accepted, which are
-- closed while the process is overloaded. The sockets of the accepted miners are left out.
pub mod Recovery
use lido.Base.{
  ℕ, ◌+◌, Bool, true, false, ◌&&◌, ◌||◌, not, Option, none, some, List, [], ◌∷◌, ◌++◌, map, ltb,
  leb, if◌then◌else◌,
}

-- `server` is whether the field of that name is not null.
pub record Listener : Type 0 where
  pub port : ℕ
  pub server : Bool
  pub paused : Bool

pub record StratumService : Type 0 where
  pub listeners : List Listener
  pub healthy_backpressure_checks : ℕ

-- The values of the environment, as the getters with their fallbacks give them.
pub record Limits : Type 0 where
  pub event_loop_p95_ms : ℕ
  pub rss_mb : ℕ
  pub resume_event_loop_p95_ms : ℕ
  pub resume_rss_mb : ℕ
  pub healthy_checks : ℕ

-- What a check measures: eventLoopP95Ms and rssMb.
pub record Load : Type 0 where
  pub event_loop : ℕ
  pub rss : ℕ

-- The number is what parseInt gives, `none` for NaN and for a number below zero.
unfoldable pub get_positive_integer_env : Option ℕ → ℕ → ℕ
get_positive_integer_env none fallback = fallback
get_positive_integer_env (some configured) fallback =
    if ltb 0 configured then configured else fallback

unfoldable pub get_limits : (ℕ → Option ℕ) → Limits
get_limits env = record {
  event_loop_p95_ms = get_positive_integer_env (env 1) 2000;
  rss_mb = get_positive_integer_env (env 3) 2500;
  resume_event_loop_p95_ms = get_positive_integer_env (env 2) 250;
  resume_rss_mb = get_positive_integer_env (env 4) 2000;
  healthy_checks = get_positive_integer_env (env 5) 3;
}

unfoldable pub listen : Listener → Listener
listen l = if l.server then l else record l { server = true; paused = false }

unfoldable pub start_socket_server : ℕ → StratumService → StratumService
start_socket_server port s = record s {
  listeners = s.listeners ++ (listen (record { port = port; server = false; paused = false }) ∷ []);
}

unfoldable pub pause_listener : Listener → Listener
pause_listener l =
    if l.paused || not l.server then l else record l { server = false; paused = true }

unfoldable pub resume_listener : Listener → Listener
resume_listener l = if not l.paused || l.server then l else listen l

unfoldable pub pause_accepting : StratumService → StratumService
pause_accepting s = record s { listeners = map pause_listener s.listeners }

unfoldable pub resume_accepting : StratumService → StratumService
resume_accepting s = record s { listeners = map resume_listener s.listeners }

unfoldable pub any_paused : List Listener → Bool
any_paused [] = false
any_paused (l ∷ ls) = l.paused || any_paused ls

unfoldable pub is_overloaded : Limits → Load → Bool
is_overloaded limits load =
    leb limits.event_loop_p95_ms load.event_loop || leb limits.rss_mb load.rss

unfoldable pub is_healthy : Limits → Load → Bool
is_healthy limits load =
    leb load.event_loop limits.resume_event_loop_p95_ms && leb load.rss limits.resume_rss_mb

abbrev with_checks : ℕ → StratumService → StratumService
with_checks n s = record s { healthy_backpressure_checks = n }

-- The end of a healthy check, with the count that it has raised.
unfoldable pub count_healthy : Limits → StratumService → StratumService
count_healthy limits s =
    if leb limits.healthy_checks s.healthy_backpressure_checks
    then with_checks 0 (resume_accepting s)
    else s

-- The flags are `overloaded`, `paused` and `healthy`.
unfoldable pub react : Limits → Bool → Bool → Bool → StratumService → StratumService
react limits true false healthy s = pause_accepting (with_checks 0 s)
react limits true true healthy s = with_checks 0 s
react limits false false healthy s = s
react limits false true false s = with_checks 0 s
react limits false true true s =
    count_healthy limits (with_checks (s.healthy_backpressure_checks + 1) s)

unfoldable pub check_backpressure : Limits → Load → StratumService → StratumService
check_backpressure limits load s =
    react limits (is_overloaded limits load) (any_paused s.listeners) (is_healthy limits load) s

-- The rounds of the monitor.
unfoldable pub monitor : Limits → List Load → StratumService → StratumService
monitor limits [] s = s
monitor limits (load ∷ loads) s = monitor limits loads (check_backpressure limits load s)
