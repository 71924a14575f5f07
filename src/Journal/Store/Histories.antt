-- ===== src/Journal/Store/Histories.antt =====
-- Every store that is reached from an empty one, by any calls, under any faults.
use durable_acp.Prelude.{ℕ, String, Bool, [], Map, lookup, trim_space}
use durable_acp.Journal.Record.{Bytes, Record, Codec, IsCodec}
use durable_acp.Journal.Paths.{IsSafe}
use durable_acp.Journal.Envelope.{Config}
use durable_acp.Journal.Store.{Store, Faults, append, close, subscribe}
use durable_acp.Journal.Store.Soundness.{IsSound}
use durable_acp.Journal.Store.Appending.{HasRoom, append-Outcome}

-- The calls that change a store: `Append` under any faults to a session whose identifier is safe and
-- whose sequences have not run out, `Subscribe`, and `Close`.
pub data Step (codec : Codec) (config : Config) (s : Store) : Store → Type 0 where
  appends :
      (fresh : String) (now : ℕ) (r : Record) (io : Faults)
      → IsSafe (trim_space r.session_id)
      → HasRoom codec config (trim_space r.session_id) s
      → Step codec config s (append codec config fresh now r io s).1
  subscribes : (listener : ℕ) → Step codec config s (subscribe listener s)
  closes : (fails : String → Bool) → Step codec config s (close fails s).1

pub data Reach (codec : Codec) (config : Config) (s : Store) : Store → Type 0 where
  here : Reach codec config s s
  next : {t u : Store} → Reach codec config s t → Step codec config t u → Reach codec config s u

-- `NewStore` over a directory: no writer is open, the files may hold anything.
unfoldable pub new_store : Map Bytes → Store
new_store files = record { files = files; writers = []; listeners = []; notified = [] }

new_store-IsSound :
    (codec : Codec) (config : Config) (files : Map Bytes) → IsSound codec config (new_store files)
unfolding new_store lookup
new_store-IsSound codec config files = record { safe = λ id w h. cc; knows = λ id w h. cc }

subscribe-IsSound :
    (codec : Codec) (config : Config) (listener : ℕ) (s : Store)
    → IsSound codec config s
    → IsSound codec config (subscribe listener s)
unfolding subscribe
subscribe-IsSound codec config listener s h = record {
  safe = h.safe;
  knows = λ id w e.
      let f = h.knows id w e in
      record { whole = f.whole; records = f.records; reads = f.reads; seq = f.seq };
}

close-IsSound :
    (codec : Codec) (config : Config) (fails : String → Bool) (s : Store)
    → IsSound codec config (close fails s).1
unfolding close lookup
close-IsSound codec config fails s = record { safe = λ id w h. cc; knows = λ id w h. cc }

Step-IsSound :
    (codec : Codec) (config : Config) (laws : IsCodec codec) (s t : Store)
    → IsSound codec config s
    → Step codec config s t
    → IsSound codec config t
Step-IsSound codec config laws s _ h (appends fresh now r io safe room) =
    (append-Outcome codec config laws fresh now r io s h safe room).1
Step-IsSound codec config laws s _ h (subscribes listener) =
    subscribe-IsSound codec config listener s h
Step-IsSound codec config laws s _ h (closes fails) = close-IsSound codec config fails s

Reach-IsSound_from :
    (codec : Codec) (config : Config) (laws : IsCodec codec) (s t : Store)
    → IsSound codec config s
    → Reach codec config s t
    → IsSound codec config t
Reach-IsSound_from codec config laws s _ h here = h
Reach-IsSound_from codec config laws s u h (next {t} r st) =
    Step-IsSound codec config laws t u (Reach-IsSound_from codec config laws s t h r) st

-- From a new store over a directory of any files, by any Subscribe and Close calls and by Append calls,
-- under any faults, to sessions with a safe identifier (one that names its file unchanged) whose next
-- sequence is below 2 ^ 64, every store that is reached is sound: each open writer belongs to a safe
-- identifier and knows its journal, whose file ends in a line break and can be read whole, and whose last
-- sequence is the writer's.
pub Reach-IsSound :
    (codec : Codec) (config : Config) (laws : IsCodec codec) (files : Map Bytes) (t : Store)
    → Reach codec config (new_store files) t
    → IsSound codec config t
Reach-IsSound codec config laws files t r =
    Reach-IsSound_from codec config laws (new_store files) t (new_store-IsSound codec config files)
      r
