-- ===== src/Web/Socket/Tests.antt =====
-- The socket client on a run where the ticket fails once. The client's numbers are whole here.
use exaint.Base.{refl, ℕ, ◌+◌, ◌*◌, ◌≤◌, ◌≡◌, true, false, List, [], ◌∷◌, arith}
use exaint.Web.Socket.{backoff_base, backoff_delay_ms}
use exaint.Web.Socket.Client.{
  attempt_connect, connect, start_visibility, set_state, ticket_failed, schedule_reconnect,
}
use exaint.Web.Socket.Client.Signals.{Signal, connects, ticket_fails, handle, handle_all}
use exaint.Web.Socket.Client.Handlers.{reaching}
use exaint.Web.Socket.Client.Live.{client_after, client-Trying}
use exaint.Web.Socket.Backoff.{backoff_delay_ms_lem}

backoff_delay_ms_lem_example :
    let delay = backoff_delay_ms 2 4503599627370496 in
    (backoff_base 2 * 4 ≤ delay * 5 + 5)
    × (delay * 5 ≤ backoff_base 2 * 6 + 5)
    × (delay ≤ 12000)
    × (backoff_base 2 ≤ backoff_base 3)
backoff_delay_ms_lem_example = backoff_delay_ms_lem 2 4503599627370496 (omega arith)

abbrev of_ms : ℕ → ℕ
of_ms n = n

abbrev ewma : ℕ → ℕ → ℕ
ewma new old = new

abbrev signals : List Signal
signals = connects false 0 ∷ ticket_fails 0 4503599627370496 ∷ []

still_started : (client_after 0 of_ms ewma of_ms signals true).started ≡ true
unfolding handle_all handle connect ticket_failed schedule_reconnect attempt_connect
    start_visibility set_state
still_started = refl

client-Trying_example : reaching (client_after 0 of_ms ewma of_ms signals true) ≡ true
client-Trying_example = client-Trying 0 of_ms ewma of_ms signals true still_started
