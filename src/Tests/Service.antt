-- ===== src/Tests/Service.antt =====
-- The service as a whole: its start, a round of its loop, and a stream of commands.
use Prim.{tt}
use k230_lr2021_radio.Prelude.{
  ℕ, zero, suc, ◌+◌, ◌≡◌, refl, true, false, List, [], ◌∷◌, map, length, some, arith,
}
use k230_lr2021_radio.Worker.State.{fresh}
use k230_lr2021_radio.Worker.Calls.{sent, terminals}
use k230_lr2021_radio.Worker.Control.Power.{IsBenchSafe}
use k230_lr2021_radio.Worker.Thermal.{init}
use k230_lr2021_radio.Server.Parser.Timing.{IsPrompt}
use k230_lr2021_radio.Server.Parser.Commands.{Command, encode, call_of}
use k230_lr2021_radio.Server.Parser.Streams.{stream, AllSendable}
use k230_lr2021_radio.Server.Handlers.{Node, poll_input, poll_byte}
use k230_lr2021_radio.Server.Handlers.Books.{announced}
use k230_lr2021_radio.Server.Handlers.Serves.{Serves, arrivals, poll_input-stream}
use k230_lr2021_radio.System.{
  Meeting, fresh_node, init_server, boot, superloop_round, Reached, booted, polled,
}
use k230_lr2021_radio.System.Runs.{
  IsSilent, Reached-accounts, Reached-IsBenchSafe, superloop_round-returns,
}
use k230_lr2021_radio.Tests.Samples.{quiet, still, node}

abbrev started : Node
started = init_server quiet (fresh_node false (init quiet 44 fresh).1)

boot-started : boot quiet false ≡ some started
unfolding boot init
boot-started = refl

quiet-IsSilent : IsSilent quiet
quiet-IsSilent h = (refl, refl)

-- A transmit frame comes in.
abbrev input : List ℕ
input = encode (Command.tx (7 ∷ 8 ∷ 9 ∷ []))

abbrev one_frame : Meeting
one_frame = record { client_waits = false; input = input; hung_up = false; rounds = 1 }

round_returns : (n' : Node) × (superloop_round quiet one_frame started ≡ some n')
round_returns = superloop_round-returns quiet false input false 0 started quiet-IsSilent

abbrev later : Node
unfolding round_returns
later = round_returns.0

later-Reached : Reached quiet false later
unfolding later
later-Reached = polled one_frame started later (booted started boot-started) round_returns.1

Reached-accounts_example :
    announced (sent later.worker.history)
    ≡ length (terminals later.worker.history) + length later.worker.tx_q
Reached-accounts_example = Reached-accounts quiet false later later-Reached

Reached-IsBenchSafe_example : IsBenchSafe later.worker
Reached-IsBenchSafe_example = Reached-IsBenchSafe quiet false later later-Reached

arrivals-still : (bs : List ℕ) (n : Node) (i : ℕ) → arrivals still bs n i ≡ 0
arrivals-still [] n i = refl
arrivals-still (b ∷ bs) n zero = refl
arrivals-still (b ∷ bs) n (suc i) = arrivals-still bs (poll_byte still b n) i

arrivals-IsPrompt : (bs : List ℕ) (n : Node) → IsPrompt (arrivals still bs n)
arrivals-IsPrompt bs n i = omega (arith, arrivals-still bs n i, arrivals-still bs n (suc i))

abbrev commands : List Command
commands = Command.tx (1 ∷ 2 ∷ 3 ∷ []) ∷ Command.scan 300 (902000000 ∷ []) ∷ Command.reset ∷ []

commands-AllSendable : AllSendable commands
commands-AllSendable = (
  (omega arith, omega arith),
  ((omega arith, omega arith, omega arith, (omega arith, tt)), (tt, tt)),
)

poll_input-stream_example :
    Serves still (map call_of commands) node (poll_input still (stream commands) true node)
poll_input-stream_example =
    poll_input-stream still commands true node (record { state = refl; skip = refl })
      commands-AllSendable (arrivals-IsPrompt (stream commands) node)
