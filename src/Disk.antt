-- ===== src/Disk.antt =====
-- The JSON files that scripts/auto-retry-tests.py reads and writes: `safe_file_operation` and
-- `safe_json_operation`, with what stands in the way of opening a file as a part of the disk.
use commons_operator.Prelude.{arith, Bool, true, false, Option, none, some, Text, ◌≡◌}
use commons_operator.Prelude.Dict.{Dict, lookup, insert, lookup-insert_self}
use commons_operator.Exec.{Exec, ok, raised, file_not_found}
use commons_operator.Json.{Value}

-- A text that is no JSON: a report, or what is left of a file that could not be written whole.
pub data Content (F : Type 0) : Type 0 where
  json : Value F → Content F
  plain : Text → Content F
  other : Content F

-- Why a file cannot be opened or written: FileNotFoundError, PermissionError, or any other
-- exception, which may come when the file is open.
pub data Fault : Type 0 where
  missing denied broken : Fault

pub record Disk (F : Type 0) : Type 0 where
  pub files : Dict (Content F)
  pub read_fault : Text → Option Fault
  pub write_fault : Text → Option Fault

module _ {F : Type 0} where
  abbrev pub json_of : Option (Content F) → Option (Value F)
  json_of (some (json v)) = some v
  json_of c = none

  -- `safe_json_operation("load", path)`: each failure is a FileOperationError, which is caught.
  unfoldable pub load_json : Text → Disk F → Option (Value F)
  load_json path disk = elim (disk.read_fault path) [
    | some f ↦ none
    | none ↦ json_of (lookup path disk.files)
  ]

  -- `safe_json_operation("save", path, data)`. A FileNotFoundError is raised again in the mode "w",
  -- and `safe_json_operation` does not catch it. A failure while it writes leaves no JSON behind.
  unfoldable pub save_json : Text → Value F → Exec (Disk F) Bool
  save_json path v disk = elim (disk.write_fault path) [
    | none ↦ (ok true, record disk { files = insert path (json v) disk.files })
    | some missing ↦ (raised file_not_found, disk)
    | some denied ↦ (ok false, disk)
    | some broken ↦ (ok false, record disk { files = insert path other disk.files })
  ]

  -- `open(path, "w")` and `write` in a `try` that catches any exception.
  unfoldable pub save_text : Text → Text → Disk F → Disk F
  save_text path text disk = elim (disk.write_fault path) [
    | none ↦ record disk { files = insert path (plain text) disk.files }
    | some missing ↦ disk
    | some denied ↦ disk
    | some broken ↦ record disk { files = insert path other disk.files }
  ]

  -- What was saved is what is loaded from the file, where it can be read.
  pub load_json-save_json :
      (path : Text) (v : Value F) (disk after : Disk F)
      → disk.read_fault path ≡ none
      → save_json path v disk ≡ (ok true, after)
      → load_json path after ≡ some v
  unfolding load_json save_json
  load_json-save_json path v disk after r h =
      ground (arith, lookup-insert_self path (json v) disk.files)
