-- ===== src/Os.antt =====
-- What the tools ask of the operating system, of the process and of other threads, as programs: a
-- program makes calls and goes on with the answers. Any answer may come, so that whatever other
-- processes and threads do between two calls is covered.
pub mod Always
pub mod Ending
pub mod Quiet
use hashline_rs.Prelude.{ℕ, Bool, List, Option, Result, ok, err, Bytes}
use hashline_rs.Paths.{FilePath}
use hashline_rs.Snapshot.{Snapshot, IoError}
use hashline_rs.Snapshot.Stamp.{ℤ, Metadata, FileStamp, from_metadata}

pub data FileType : Type 0 where
  directory regular other_type : FileType

-- What a walk of the `ignore` crate gives of an entry: the time of its last change in nanoseconds
-- since the epoch, where it could be read.
pub record WalkEntry : Type 0 where
  pub entry_path : FilePath
  pub entry_type : Option FileType
  pub modified : Option ℤ

-- `InflightState`: a load that other callers wait for, or its result
pub data InflightState : Type 0 where
  pending : InflightState
  ready : Result Bytes Snapshot → InflightState

-- What a claim gives: a resident snapshot, or the cell of the load.
pub data Claim : Type 0 where
  resident : Snapshot → Claim
  cell : ℕ → Claim

pub data Call : Type 0 where
  -- `File::open`, and the calls on an open descriptor
  open_file : FilePath → Call
  descriptor_metadata : ℕ → Call
  -- one `read` into a buffer of the given size, and `take(n).read_to_end`
  read_some : ℕ → ℕ → Call
  read_to_end : ℕ → ℕ → Call
  write_all : ℕ → Bytes → Call
  sync_all : ℕ → Call
  barrier_sync : ℕ → Call
  -- `OpenOptions::create_new`
  create_new : FilePath → Call
  -- `fs::metadata`, `fs::read`, `fs::create_dir_all` and so on
  metadata : FilePath → Call
  read_file : FilePath → Call
  create_dir_all : FilePath → Call
  -- `Path::exists`, `fs::canonicalize`, and the type of file that `fs::metadata` reports
  path_exists : FilePath → Call
  canonicalize : FilePath → Call
  file_type : FilePath → Call
  -- a whole directory walk, entries that failed included
  walk : FilePath → Call
  rename : FilePath → FilePath → Call
  hard_link : FilePath → FilePath → Call
  remove_file : FilePath → Call
  -- opening and syncing a directory, failures ignored
  fsync_parent : FilePath → Call
  -- `SystemTime::now`, in nanoseconds since the epoch, and `process::id`
  now : Call
  process_id : Call
  -- `TEMP_COUNTER.fetch_add(1)`
  temp_counter : Call
  -- acquiring and releasing the lock of a path
  lock_path : FilePath → Call
  unlock_path : FilePath → Call
  -- `try_reserve_exact`, up to the given capacity: `false` for a failed allocation. Asked too where
  -- the capacity is there already, and then granted.
  reserve : ℕ → Call
  -- The process cache, each call under the lock of one shard: `insert`, `get`, the racy entry of a
  -- path with its stamp, the refreshing of such a stamp, the claim of a load, and its end.
  cache_insert : FilePath → Snapshot → Call
  cache_get : FilePath → FileStamp → Call
  cache_racy : FilePath → Call
  cache_refresh : FilePath → FileStamp → FileStamp → Call
  cache_claim : FilePath → Option FileStamp → Call
  cache_clear : FilePath → Call
  -- the lock of an in-flight cell, which shows its state, the new state, and the unlocking
  cell_lock : ℕ → Call
  cell_set : ℕ → InflightState → Call
  cell_unlock : ℕ → Call

abbrev pub Answer : Call → Type 0
Answer (open_file p) = Result IoError ℕ
Answer (descriptor_metadata d) = Result IoError Metadata
Answer (read_some d n) = Result IoError Bytes
Answer (read_to_end d n) = Result IoError Bytes
Answer (write_all d b) = Result IoError (Unit {0})
Answer (sync_all d) = Result IoError (Unit {0})
Answer (barrier_sync d) = Result IoError (Unit {0})
Answer (create_new p) = Result IoError ℕ
Answer (metadata p) = Result IoError Metadata
Answer (read_file p) = Result IoError Bytes
Answer (create_dir_all p) = Result IoError (Unit {0})
Answer (path_exists p) = Bool
Answer (canonicalize p) = Result IoError FilePath
Answer (file_type p) = Result IoError FileType
Answer (walk p) = List (Option WalkEntry)
Answer (rename a b) = Result IoError (Unit {0})
Answer (hard_link a b) = Result IoError (Unit {0})
Answer (remove_file p) = Result IoError (Unit {0})
Answer (fsync_parent p) = Unit {0}
Answer now = ℕ
Answer process_id = ℕ
Answer temp_counter = ℕ
Answer (lock_path p) = Unit {0}
Answer (unlock_path p) = Unit {0}
Answer (reserve n) = Bool
Answer (cache_insert p s) = Unit {0}
Answer (cache_get p stamp) = Option Snapshot
Answer (cache_racy p) = Option (Snapshot × FileStamp)
Answer (cache_refresh p old new) = Unit {0}
Answer (cache_claim p stamp) = Claim
Answer (cache_clear p) = Unit {0}
Answer (cell_lock a) = InflightState
Answer (cell_set a state) = Unit {0}
Answer (cell_unlock a) = Unit {0}

pub data Program (A : Type 0) : Type 0 where
  ret : A → Program A
  call : (c : Call) → (Answer c → Program A) → Program A
  -- a loop that has not ended in the rounds it was given
  running : Program A

abbrev pub Task : Type 0 → Type 0 → Type 0
Task E A = Program (Result E A)

-- the `?` operator between calls
infixl 5 ◌>>=◌ ◌>>◌
abbrev pub ◌>>=◌ : {E A B : Type 0} → Task E A → (A → Task E B) → Task E B
ret (ok a) >>= f = f a
ret (err e) >>= f = ret (err e)
call c k >>= f = call c (λ a. k a >>= f)
running >>= f = running

abbrev pub ◌>>◌ : {E B : Type 0} → Task E (Unit {0}) → Task E B → Task E B
m >> k = m >>= λ _. k

-- the result of a task, errors included, as a value: the `match` on a call
abbrev pub caught : {E F A : Type 0} → Task E A → Task F (Result E A)
caught (ret r) = ret (ok r)
caught (call c k) = call c (λ a. caught (k a))
caught running = running

-- `FileStamp::from_metadata` reads the clock.
abbrev pub capture : {E : Type 0} → Metadata → Task E FileStamp
capture m = call now (λ t. ret (ok (from_metadata t m)))
