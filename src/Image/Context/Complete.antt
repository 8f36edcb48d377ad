-- ===== src/Image/Context/Complete.antt =====
-- That a build context lacks no file (thunder_sandbox/image.py).
use thunder_sandbox.Prelude.{◌≡◌, ◌⊎◌, Bool, true, List, Text}
use thunder_sandbox.Image.Ignore.{DockerIgnore}
use thunder_sandbox.Image.Context.{Node, Entries, Walk, is_seen}
use thunder_sandbox.Image.Context.Wanted.{is_open, Direct, Deep, Open}
use thunder_sandbox.Image.Context.Level.{Has, Keeps}

abbrev entries_of : Node → Entries
entries_of (Node.folder es) = es
entries_of y = Entries.end

module _ (nfc : Text → Text) (is_artifacts : Text → Bool) (ignore : DockerIgnore) where
  -- the folders that are walked include the open ones
  abbrev Walked : Text → Entries → List Text → Type 0
  Walked parent es walked =
      (n : Text) → Open nfc is_artifacts ignore parent es n → is_seen n walked ≡ true

  abbrev Descended : Text → Entries → Walk → Walk → Type 0
  Descended parent es w v =
      Keeps nfc is_artifacts ignore w v
      × ((p : Text) → Deep nfc is_artifacts ignore parent es p → Has nfc is_artifacts ignore p v)

  -- what comes of a folder: it has the wanted files in it, if it is open
  abbrev Added : Text → Entries → Walk → Walk → Type 0
  Added path sub w v =
      Keeps nfc is_artifacts ignore w v
      × (is_open nfc is_artifacts ignore path ≡ true
          → (p : Text)
          → Direct nfc is_artifacts ignore path sub p ⊎ Deep nfc is_artifacts ignore path sub p
          → Has nfc is_artifacts ignore p v)
