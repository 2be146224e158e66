-- ===== src/Session/FrameLoop/Boundary.antt =====
-- The trust boundary of the frame loop (session.rs).
use bridgeos.Prelude.{
  ◌==◌, Bool-cases, Bytes, ℕ, zero, suc, ◌≡◌, refl, ◌∙◌, inl, inr, Bool, true, false, Option, none,
  some,
}
use bridgeos.Prelude.Exec.{Exec, continue, ◌>>=◌, pure}
use bridgeos.Prelude.Result.{Result, ok, err}
use bridgeos.Core.{BridgeError}
use bridgeos.Protocol.Frame.{
  ping, pong, disconnect, DataFrame, Frame, handshake, control, app, channel_clipboard,
  channel_file_transfer, channel_pairing,
}
use bridgeos.Protocol.Codec.{Postcard}
use bridgeos.Transport.{Framed}
use bridgeos.Clipboard.Content.{ClipboardMessage}
use bridgeos.Clipboard.Backend.{ClipboardBackend}
use bridgeos.Transfer.Disk.{Files}
use bridgeos.Transfer.Messages.{TransferMessage}
use bridgeos.Session.{terminated, state-is_trusted, SessionError}
use bridgeos.Session.FrameLoop.{
  Running, send_reply, process_data, process_frame, process_next_frame,
}

module _ {T B F : Type 0} where
  -- The clipboard, the files and the trusted peers are as before, and the session is not trusted.
  pub record Protected (before after : Running T B F) : Type 0 where
    pub same_engine : after.session.clipboard_engine ≡ before.session.clipboard_engine
    pub same_files : after.files ≡ before.files
    pub same_store : after.session.trust_store ≡ before.session.trust_store
    pub not_trusted : state-is_trusted after.session.state ≡ false

  trans-Protected : (a b c : Running T B F) → Protected a b → Protected b c → Protected a c
  trans-Protected a b c p q = record {
    same_engine = q.same_engine ∙ p.same_engine;
    same_files = q.same_files ∙ p.same_files;
    same_store = q.same_store ∙ p.same_store;
    not_trusted = q.not_trusted;
  }

terminated_untrusted : state-is_trusted terminated ≡ false
unfolding state-is_trusted
terminated_untrusted = refl

module _ {T : Type 0} (io : Framed T) {B F : Type 0} (fs : Files F) (pt : Postcard TransferMessage)
    (blake3 : Bytes → Bytes) (pc : Postcard ClipboardMessage) (backend : ClipboardBackend B) where
  -- Frames are processed one after the other, at most so many, while the loop goes on.
  unfoldable pub process_frames : ℕ → Exec (Running T B F) SessionError Bool
  process_frames zero = pure true
  process_frames (suc n) = do
    more ← process_next_frame io fs pt blake3 pc backend
    elim more [ true ↦ process_frames n | false ↦ pure false ]

  -- Nothing at all is done with the data of an untrusted peer.
  process_data-untrusted :
      (df : DataFrame) (s : Running T B F)
      → state-is_trusted s.session.state ≡ false
      → process_data io fs pt blake3 pc backend df s ≡ (ok true, s)
  unfolding process_data
  process_data-untrusted df s h = elim (Bool-cases (df.channel == channel_pairing)) [
    | inl e ↦ rw e refl
    | inr e ↦
        rw (e, h)
          (elim (Bool-cases (df.channel == channel_clipboard)) [
            | inl f ↦ rw f refl
            | inr f ↦ rw f (elim (Bool-cases (df.channel == channel_file_transfer)) [
              | inl g ↦ rw g refl
              | inr g ↦ rw g refl
            ])
          ])
  ]

  process_frame-Protected :
      (frame : Frame) (s : Running T B F)
      → state-is_trusted s.session.state ≡ false
      → Protected s (process_frame io fs pt blake3 pc backend frame s).1
  unfolding process_frame send_reply
  process_frame-Protected (control (ping n)) s h =
      sent (send_reply io (control (pong n)) s)
        (record { same_engine = refl; same_files = refl; same_store = refl; not_trusted = h })
    where
      sent :
          (r : Result (Unit {0}) SessionError × Running T B F)
          → Protected s r.1
          → Protected s (continue r (λ u. pure true)).1
      sent (ok u, t) p = p
      sent (err e, t) p = p
  process_frame-Protected (control (pong n)) s h = record {
    same_engine = refl;
    same_files = refl;
    same_store = refl;
    not_trusted = h;
  }
  process_frame-Protected (control (disconnect r)) s h = record {
    same_engine = refl;
    same_files = refl;
    same_store = refl;
    not_trusted = terminated_untrusted;
  }
  process_frame-Protected (app df) s h =
      rw (process_data-untrusted df s h)
        (record { same_engine = refl; same_files = refl; same_store = refl; not_trusted = h })
  process_frame-Protected (handshake m) s h = record {
    same_engine = refl;
    same_files = refl;
    same_store = refl;
    not_trusted = h;
  }

  process_next_frame-Protected :
      (s : Running T B F)
      → state-is_trusted s.session.state ≡ false
      → Protected s (process_next_frame io fs pt blake3 pc backend s).1
  unfolding process_next_frame
  process_next_frame-Protected s h = by_frame (io.recv_frame s.session.framed).0 refl
    where
      read : Running T B F
      read = record s { session = record s.session { framed = (io.recv_frame s.session.framed).1 } }

      unchanged :
          Protected s (record s {
            session = record s.session { framed = (io.recv_frame s.session.framed).1 };
          })
      unchanged = record {
        same_engine = refl;
        same_files = refl;
        same_store = refl;
        not_trusted = h;
      }

      by_frame :
          (r : Result (Option Frame) BridgeError)
          → (io.recv_frame s.session.framed).0 ≡ r
          → Protected s (process_next_frame io fs pt blake3 pc backend s).1
      by_frame (err e) k = rw (k, process_next_frame) unchanged
      by_frame (ok none) k = rw (k, process_next_frame) unchanged
      by_frame (ok (some frame)) k =
          rw (k, process_next_frame)
            (trans-Protected s _ _ unchanged (process_frame-Protected frame _ h))

  -- Whatever frames an untrusted peer sends, and however many, the session's clipboard engine, the
  -- files of the device and the store of trusted peers stay as they were, and the session does not
  -- become trusted.
  pub process_frames-Protected :
      (n : ℕ) (s : Running T B F)
      → state-is_trusted s.session.state ≡ false
      → Protected s (process_frames n s).1
  unfolding process_frames
  process_frames-Protected zero s h = record {
    same_engine = refl;
    same_files = refl;
    same_store = refl;
    not_trusted = h;
  }
  process_frames-Protected (suc n) s h =
      go (process_next_frame io fs pt blake3 pc backend s) (process_next_frame-Protected s h)
        (λ t k. process_frames-Protected n t k)
    where
      go :
          (r : Result Bool SessionError × Running T B F)
          → Protected s r.1
          → ((t : Running T B F)
              → state-is_trusted t.session.state ≡ false
              → Protected t (process_frames n t).1)
          → Protected s
              (continue r (λ more. elim more as (λ _. Exec (Running T B F) SessionError Bool) [
                | true ↦ process_frames n
                | false ↦ pure false
              ])).1
      go (err e, t) p rest = p
      go (ok false, t) p rest = p
      go (ok true, t) p rest = trans-Protected s t _ p (rest t p.not_trusted)
