-- ===== src/Session/PairingFlow/Waiting.antt =====
-- The loop that waits for a frame of one channel (`recv_data_frame` of session.rs).
use bridgeos.Prelude.{ℕ, zero, suc, ◌≤◌, ◌<◌, ◌≡◌, refl, ◌≢◌, Option, none, some, arith}
use bridgeos.Prelude.Exec.{Exec, ◌>>◌, pure, raise}
use bridgeos.Prelude.Outcome.{Outcome, ends_ok, ends_err, continue-Outcome}
use bridgeos.Prelude.Result.{Result, ok, err}
use bridgeos.Core.{BridgeError}
use bridgeos.Protocol.Frame.{ping, pong, disconnect, DataFrame, Frame, handshake, control, app}
use bridgeos.Transport.{Framed}
use bridgeos.Session.{SessionError, transport, closed, out_of_fuel, Link, recv, try_send}
use bridgeos.Session.PairingFlow.{
  Reaction, take_it, reply_pong, hang_up, skip, react, recv_data_frame,
}

-- A connection on which finitely many frames are still to come.
pub record Drains {T : Type 0} (io : Framed T) : Type 0 where
  pub pending : T → ℕ
  pub recv_takes :
      (s : T) (frame : Frame)
      → (io.recv_frame s).0 ≡ ok (some frame)
      → pending (io.recv_frame s).1 < pending s
  pub send_adds_none : (frame : Frame) (s : T) → pending (io.send_frame frame s).1 ≤ pending s

react-take_it :
    (channel : ℕ) (frame : Frame) (df : DataFrame)
    → react channel frame ≡ take_it df
    → df.channel ≡ channel
unfolding react
react-take_it channel (app data_frame) df h = ground arith
react-take_it channel (control (ping n)) df h = cc
react-take_it channel (control (pong n)) df h = cc
react-take_it channel (control (disconnect r)) df h = cc
react-take_it channel (handshake m) df h = cc

module _ {T : Type 0} (io : Framed T) (d : Drains io) where
  -- How the wait may end.
  abbrev Ended : ℕ → DataFrame → Link T → Type 0
  Ended channel df l = df.channel ≡ channel

  abbrev EndedBadly : SessionError → Link T → Type 0
  EndedBadly e l = e ≢ out_of_fuel

  recv-Outcome :
      (l : Link T)
      → Outcome (λ frame l'. d.pending l'.framed < d.pending l.framed) EndedBadly (recv io l)
  unfolding recv
  recv-Outcome l = by_result (io.recv_frame l.framed).0 refl
    where
      by_result :
          (r : Result (Option Frame) BridgeError)
          → (io.recv_frame l.framed).0 ≡ r
          → Outcome (λ frame l'. d.pending l'.framed < d.pending l.framed) EndedBadly (recv io l)
      by_result (err e) h = rw (h, recv) (ends_err transport _ (λ e. cc))
      by_result (ok none) h = rw (h, recv) (ends_err closed _ (λ e. cc))
      by_result (ok (some frame)) h = rw (h, recv) (ends_ok frame _ (d.recv_takes l.framed frame h))

  recv_data_frame-Outcome :
      (fuel channel : ℕ) (l : Link T)
      → d.pending l.framed < fuel
      → Outcome (Ended channel) EndedBadly (recv_data_frame io fuel channel l)
  unfolding recv_data_frame try_send
  recv_data_frame-Outcome zero channel l h = elim (nothing_below h) [ ]
    where
      nothing_below : d.pending l.framed < 0 → ⊥
      nothing_below h = omega arith
  recv_data_frame-Outcome (suc fuel) channel l h =
      continue-Outcome (recv io l) _ (recv-Outcome l) (λ frame l' less.
        reaction frame l' less (λ k. recv_data_frame-Outcome fuel channel k) (react channel frame)
          (react-take_it channel frame))
    where
      reaction :
          (frame : Frame) (l' : Link T)
          → d.pending l'.framed < d.pending l.framed
          → ((k : Link T)
              → d.pending k.framed < fuel
              → Outcome (Ended channel) EndedBadly (recv_data_frame io fuel channel k))
          → (r : Reaction) → ((df : DataFrame) → r ≡ take_it df → df.channel ≡ channel)
          → Outcome (Ended channel) EndedBadly (
              (elim r as (λ _. Exec (Link T) SessionError DataFrame) [
                | take_it df ↦ pure df
                | reply_pong nonce ↦ (do
                  try_send io (control (pong nonce))
                  recv_data_frame io fuel channel)
                | hang_up ↦ raise closed
                | skip ↦ recv_data_frame io fuel channel
              ])
                l')
      reaction frame l' less rest (take_it df) right = ends_ok df l' (right df refl)
      reaction frame l' less rest (reply_pong n) right =
          rest _ (omega (arith, h, less, d.send_adds_none (control (pong n)) l'.framed))
      reaction frame l' less rest hang_up right = ends_err closed l' (λ e. cc)
      reaction frame l' less rest skip right = rest l' (omega (arith, h, less))

  -- The wait for a frame of a channel ends: with fuel for more frames than are still to come it does
  -- not run out, and a frame that it returns is one of that channel.
  pub recv_data_frame-ends :
      (fuel channel : ℕ) (l : Link T)
      → d.pending l.framed < fuel
      → ((recv_data_frame io fuel channel l).0 ≢ err out_of_fuel)
        × ((df : DataFrame) → (recv_data_frame io fuel channel l).0 ≡ ok df → df.channel ≡ channel)
  recv_data_frame-ends fuel channel l h =
      let o = recv_data_frame-Outcome fuel channel l h in
      (λ e. o.on_err out_of_fuel e refl, o.on_ok)
