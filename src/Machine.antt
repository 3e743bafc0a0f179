-- ===== src/Machine.antt =====
-- What the program uses of the operating system and of its libraries, as an interface over an
-- unknown world: system calls, external programs, the JSON codec, SHA-256 and the XML reader.
-- A call takes the world, and gives its outcome with the world that it leaves.
use schelk.Base.{ℕ, Bool, List, Option, Result}
use schelk.Base.Text.{String}
use schelk.Io.Chunks.{CopyChunk}
use schelk.Io.Ring.{Bytes, Config}
use schelk.Io.Copy.{Rig}

abbrev pub FilePath : Type 0
FilePath = String

-- src/cmd.rs: `Output`, without the streams that only messages show.
pub record Output : Type 0 where
  pub stdout : List ℕ
  pub success : Bool

pub record Metadata : Type 0 where
  pub len : ℕ
  pub is_block_device : Bool

-- src/volume.rs: `Access`
pub data Access : Type 0 where
  read write : Access

-- The outcomes of umount2 and open that the code tells apart.
pub data Errno : Type 0 where
  ebusy other : Errno

-- src/state.rs: `AppState`
pub record AppState : Type 0 where
  pub virgin : FilePath
  pub scratch : FilePath
  pub ramdisk : FilePath
  pub mount_point : FilePath
  pub fstype : String
  pub mount_options : Option String
  pub granularity : ℕ
  pub virgin_superblock_hash : List ℕ
  pub dm_era_name : String
  pub is_mounted : Bool
  pub current_era : Option ℕ

-- An attribute, with its unescaped value, or none if that fails; events of the XML reader.
pub record Attr : Type 0 where
  pub key : String
  pub value : Option (List ℕ)

pub data XmlEvent : Type 0 where
  empty : String → List Attr → XmlEvent
  eof : XmlEvent
  other : XmlEvent

pub record Machine : Type 1 where
  pub World : Type 0
  -- system calls that ask; a test or a call that fails may change the world too
  pub is_root : World → Bool × World
  pub exists_path : FilePath → World → Bool × World
  pub metadata : FilePath → World → Option Metadata × World
  pub canonicalize : FilePath → World → Option FilePath × World
  -- an open with the access, which touches no data
  pub open_as : Access → FilePath → World → Bool × World
  pub seek_end : FilePath → World → Option ℕ × World
  pub read_to_string : FilePath → World → Option (List ℕ) × World
  pub read_exact : FilePath → ℕ → World → Option (List ℕ) × World
  -- system calls that act: whether they succeed
  pub create_dir_all : FilePath → World → Bool × World
  pub create : FilePath → World → Bool × World
  pub write_all : FilePath → List ℕ → World → Bool × World
  pub sync_all : FilePath → World → Bool × World
  pub rename : FilePath → FilePath → World → Bool × World
  pub flock : FilePath → World → Bool × World
  -- zeros at an offset, so many
  pub write_zeros : FilePath → ℕ → ℕ → World → Bool × World
  pub umount2 : FilePath → World → Result Errno (Unit {0}) × World
  pub kill : ℕ → World → World
  -- the names of the entries that can be read, and the target of a link
  pub read_dir : FilePath → World → Option (List String) × World
  pub read_link : FilePath → World → Option FilePath × World
  -- a program with its arguments, none if it does not start
  pub exec : String → List String → World → Option Output × World
  -- what the user types in answer to a question
  pub prompt : World → Option (List ℕ) × World
  -- devices opened with O_DIRECT and O_EXCL, and their contents
  pub open_direct : Access → FilePath → World → Result Errno (Unit {0}) × World
  pub disk : FilePath → World → Bytes
  pub set_disk : FilePath → Bytes → World → World
  -- what the kernel contributes to a copy of the chunks from the first device to the second
  pub rig : FilePath → FilePath → Config → List CopyChunk → World → Rig
  -- libraries
  pub from_json : List ℕ → Option AppState
  pub to_json : AppState → List ℕ
  pub from_utf8 : List ℕ → Option (List ℕ)
  pub sha256 : List ℕ → List ℕ
  pub read_events : List ℕ → List (Option XmlEvent)
  pub parent : FilePath → Option FilePath
  -- the constants of the run: the state file, and its directory
  pub state_path : FilePath
  pub state_dir : FilePath
