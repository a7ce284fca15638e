-- ===== src/Runtime/Watching.antt =====
-- internal/contexts/runtime/watcher.go: the reloads of a watcher, one for each notification and tick.
pub mod Publication
pub mod Readiness
use kiwi_guard.Common.{String, List, [], ◌∷◌, Option, none, some}
use kiwi_guard.Runtime.Reloading.{Repository, Compiler, Served, mark_degraded, reload}

-- What the loop of the watcher receives: a notification or a tick, with what the repository answers
-- then, or the end of the notifications.
pub data Signal : Type 0 where
  notified : Repository → Signal
  ticked : Repository → Signal
  subscriber_closed : Signal

unfoldable pub handle_signal : Compiler → Signal → Served → Served
unfolding reload mark_degraded
handle_signal compiler (notified repository) s = reload compiler repository s
handle_signal compiler (ticked repository) s = reload compiler repository s
handle_signal compiler subscriber_closed s = mark_degraded "config_subscriber_closed" s

unfoldable pub handle_signals : Compiler → List Signal → Served → Served
unfolding handle_signal
handle_signals compiler [] s = s
handle_signals compiler (signal ∷ signals) s =
    handle_signals compiler signals (handle_signal compiler signal s)

-- The argument is the error of `subscribe`.
unfoldable pub subscribed : Option String → Served → Served
unfolding mark_degraded
subscribed none s = s
subscribed (some e) s = mark_degraded "config_subscribe_failed" s

-- A watcher with all its ports, up to the end of its signals.
unfoldable pub watch : Compiler → Option String → Repository → List Signal → Served → Served
unfolding subscribed reload handle_signals
watch compiler subscribe_error repository signals s =
    handle_signals compiler signals (reload compiler repository (subscribed subscribe_error s))
