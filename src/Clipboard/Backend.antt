-- ===== src/Clipboard/Backend.antt =====
-- The `ClipboardBackend` trait and crates/bridge-clipboard/src/backend/memory.rs. Notifications to
-- the monitors are the list of contents sent. A poisoned lock is not modelled.
use bridgeos.Prelude.{Option, none, some, List, [], ◌∷◌, ◌++◌}
use bridgeos.Prelude.Result.{Result, ok}
use bridgeos.Clipboard.Content.{ClipboardError, ClipboardContent}

-- What the engine uses of a backend with the state `B`.
pub record ClipboardBackend (B : Type 0) : Type 0 where
  pub get_content : B → Result (Option ClipboardContent) ClipboardError
  pub set_content : ClipboardContent → B → Result (Unit {0}) ClipboardError × B
  pub clear_content : B → Result (Unit {0}) ClipboardError × B

pub record MemoryBackend : Type 0 where
  pub content : Option ClipboardContent
  pub notified : List ClipboardContent

abbrev pub new_memory : MemoryBackend
new_memory = record { content = none; notified = [] }

unfoldable pub memory_set :
    ClipboardContent → MemoryBackend → Result (Unit {0}) ClipboardError × MemoryBackend
memory_set c b = (ok tt, record { content = some c; notified = b.notified ++ c ∷ [] })

unfoldable pub memory_clear : MemoryBackend → Result (Unit {0}) ClipboardError × MemoryBackend
memory_clear b = (ok tt, record b { content = none })

unfoldable pub memory_backend : ClipboardBackend MemoryBackend
unfolding memory_set memory_clear
memory_backend = record {
  get_content = λ b. ok b.content;
  set_content = memory_set;
  clear_content = memory_clear;
}
