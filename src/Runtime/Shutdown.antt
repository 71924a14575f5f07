-- ===== src/Runtime/Shutdown.antt =====
-- runtime/runtime.go: the shutdown of a runtime, which keeps its sessions.
use durable_acp.Prelude.{
  String, Option, none, some, List, [], ◌∷◌, ◌++◌, Map, lookup, if◌then◌else◌,
}
use durable_acp.Session.{closed}
use durable_acp.Host.{Value}
use durable_acp.Journal.Record.{Bytes}
use durable_acp.Journal.Replay.{Json}
use durable_acp.Runtime.Coalesce.{close_coalescer}
use durable_acp.Runtime.State.{ManagedSession, Adapter, Runtime, Clock}
use durable_acp.Runtime.Turns.{has_status}
use durable_acp.Runtime.Delivery.{Appender, through_coalescer}
use durable_acp.Runtime.Delivery.Sessions.{Frame, Frame-refl, Frame-trans, through_coalescer-Frame}

-- The error of closing one session at its adapter, if it is open and has one.
unfoldable pub closing_error :
    (String → Option String) → String → Option ManagedSession → Map Adapter → List String
closing_error failure id none adapters = []
closing_error failure id (some m) adapters = elim (lookup m.session.backend adapters) [
  | none ↦ []
  | some adapter ↦
      if has_status closed m then [] else elim (failure id) [ none ↦ [] | some what ↦ what ∷ [] ]
]

module _ {ℓ} {J : Type ℓ} (json : Json) (marshal : Map Value → Option Bytes)
    (append_record : Appender J) where
  unfoldable pub close_coalescers : Clock → List String → Runtime J → Runtime J
  close_coalescers clock [] r = r
  close_coalescers clock (id ∷ ids) r =
      close_coalescers clock ids
        (through_coalescer json marshal append_record clock id close_coalescer r)

  unfoldable pub closing_errors : (String → Option String) → List String → Runtime J → List String
  closing_errors failure [] r = []
  closing_errors failure (id ∷ ids) r =
      closing_error failure id (lookup id r.sessions) r.adapters ++ closing_errors failure ids r

  -- `Shutdown`, by the order in which the map of sessions is gone through and the errors of
  -- `CloseSession`. The errors are joined.
  unfoldable pub shutdown :
      Clock → List String → (String → Option String) → Runtime J → List String × Runtime J
  shutdown clock ids failure r = (closing_errors failure ids r, close_coalescers clock ids r)

  close_coalescers-Frame :
      (clock : Clock) (ids : List String) (r : Runtime J) → Frame r (close_coalescers clock ids r)
  unfolding close_coalescers
  close_coalescers-Frame clock [] r = Frame-refl r
  close_coalescers-Frame clock (id ∷ ids) r =
      let r' = through_coalescer json marshal append_record clock id close_coalescer r in
      Frame-trans r r' _
        (through_coalescer-Frame json marshal append_record clock id close_coalescer r)
        (close_coalescers-Frame clock ids r')

  pub shutdown-Frame :
      (clock : Clock) (ids : List String) (failure : String → Option String) (r : Runtime J)
      → Frame r (shutdown clock ids failure r).1
  unfolding shutdown
  shutdown-Frame clock ids failure r = close_coalescers-Frame clock ids r
