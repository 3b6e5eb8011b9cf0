-- ===== src/Server/Exchange.antt =====
-- `pollOnce` of service/src/serial_server.cpp over IPC: it reads its bytes from the one ring, and what
-- the handlers write goes into the other one while it runs.
pub mod Histories
pub mod Publishing
pub mod Regions
pub mod Polls
pub mod Speaks
pub mod Framing
use k230_lr2021_radio.Prelude.{
  ℕ, zero, suc, ◌-◌, true, false, List, [], ◌∷◌, ◌++◌, Option, none, some, length, take,
}
use k230_lr2021_radio.Device.{Env, Event, History}
use k230_lr2021_radio.Server.Parser.{Bytes}
use k230_lr2021_radio.Server.Frames.{writes_of}
use k230_lr2021_radio.Server.Frames.Decoding.{joined}
use k230_lr2021_radio.Server.Ipc.{r2v_base, v2r_base, write_ring, read_byte_ipc}
use k230_lr2021_radio.Server.Handlers.{Node, poll_byte, maybe_emit_stats}

-- `writeAll`, one after the other.
abbrev pub write_each : List (List ℕ) → Bytes → Bytes
write_each [] f = f
write_each (w ∷ ws) f = write_each ws (write_ring r2v_base w f)

-- The writes of some calls, the oldest first, which is the last of the list.
abbrev pub publish : List Event → Bytes → Bytes
publish [] f = f
publish (e ∷ es) f = write_each (writes_of e) (publish es f)

-- The calls of a history behind those of an older one.
abbrev pub new_events : History → History → List Event
new_events h h' = take (length h' - length h) h'

-- What the host finds of what a node did behind another.
abbrev pub publish_from : Node → Node → Bytes → Bytes
publish_from n n' f = publish (new_events n.worker.history n'.worker.history) f

module _ (env : Env) where
  -- The loop of `pollOnce`; `none` is a loop that is not over by then.
  unfoldable pub poll_ring : ℕ → List ℕ → Bytes → Node → Option (Node × Bytes)
  poll_ring zero pending f n = none
  poll_ring (suc fuel) pending f n =
      let (got, pending', f') = read_byte_ipc true v2r_base pending f in
      elim got [
        | none ↦ let n' = maybe_emit_stats env false n in some (n', publish_from n n' f')
        | some b ↦ let n' = poll_byte env b n in poll_ring fuel pending' (publish_from n n' f') n'
      ]
