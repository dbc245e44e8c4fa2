-- ===== src/Cli/Capture.antt =====
-- The capture loop of netzer-cli/src/main.rs that calls `recv`, over the calls that it makes.
pub mod Run
pub mod Loop
pub mod Ring
use net_zer.Outcome.{Outcome, slice_to, ok, ◌>>=◌}
use net_zer.Prelude.{ℕ, Bytes, List, Bool, [], ◌∷◌}
use net_zer.Cli.Line.{Style, Session}
use net_zer.Cli.Process.{Clock, process_packet}

-- What a call of `recv` gives: so many bytes, with the buffer and the clock as they are then, or an error.
pub data Received : Type 0 where
  frame : (clock : Clock) (size : ℕ) (buffer : Bytes) → Received
  failed : (error : ℕ) → Received

module _ (paint : Style → Bytes → Bytes) (show_hexdump : Bool) where
  -- One turn of the loop. The line about a read error goes to the standard error.
  unfoldable pub capture_step : Received → Session → Outcome Session
  capture_step (frame clock size buffer) session = do
    packet_data ← slice_to buffer size
    process_packet paint show_hexdump clock packet_data size session
  capture_step (failed error) session = ok session

  unfoldable pub capture : List Received → Session → Outcome Session
  capture [] session = ok session
  capture (r ∷ more) session = do next ← capture_step r session; capture more next
