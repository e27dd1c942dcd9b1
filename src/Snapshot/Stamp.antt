-- ===== src/Snapshot/Stamp.antt =====
-- `FileStamp` of src/snapshot.rs on Unix: file identity, length and times, and whether the newest
-- of them lies too close to the capture to rule out a later write at the same time.
use hashline_rs.Prelude.{
  ℕ, ◌+◌, ◌-◌, ◌*◌, ◌^◌, Bool, true, false, ◌&&◌, ◌||◌, Option, none, some, min, leb, ltb, ◌==◌,
  if◌then◌else◌,
}

-- An i64: `negsuc n` is -(n + 1).
pub data ℤ : Type 0 where
  pos negsuc : ℕ → ℤ

abbrev pub ℤ_eq : ℤ → ℤ → Bool
ℤ_eq (pos a) (pos b) = a == b
ℤ_eq (pos a) (negsuc b) = false
ℤ_eq (negsuc a) (pos b) = false
ℤ_eq (negsuc a) (negsuc b) = a == b

pub record FileIdentity : Type 0 where
  pub device : ℕ
  pub inode : ℕ

pub record FileTime : Type 0 where
  pub seconds : ℤ
  pub nanoseconds : ℤ

-- A time of the wall clock, in nanoseconds since the epoch; two seconds of them.
abbrev pub racy_window : ℕ
racy_window = 2 * 1_000_000_000

-- `within_racy_window`: unknown and future times are racy
unfoldable pub within_racy_window : ℕ → Option ℕ → Bool
within_racy_window captured_at none = true
within_racy_window captured_at (some timestamp) =
    if leb timestamp captured_at then leb (captured_at - timestamp) racy_window else true

-- the nanoseconds of a `u32::try_from`, cut to below a second
abbrev nanos_part : ℕ → ℤ → Option ℕ
nanos_part seconds (negsuc n) = none
nanos_part seconds (pos n) =
    if ltb (2 ^ 32 - 1) n then none else some (seconds * 1_000_000_000 + min n 999_999_999)

abbrev system_time : ℤ → ℤ → Option ℕ
system_time (negsuc s) nanoseconds = some 0
system_time (pos s) nanoseconds = nanos_part s nanoseconds

-- `FileTime::to_system_time`: times before the epoch count as the epoch
unfoldable pub to_system_time : FileTime → Option ℕ
to_system_time t = system_time t.seconds t.nanoseconds

pub record FileStamp : Type 0 where
  pub identity : FileIdentity
  pub len : ℕ
  pub modified : FileTime
  pub changed : Option FileTime
  pub racy : Bool

abbrev identity_eq : FileIdentity → FileIdentity → Bool
identity_eq a b = a.device == b.device && a.inode == b.inode

abbrev time_eq : FileTime → FileTime → Bool
time_eq a b = ℤ_eq a.seconds b.seconds && ℤ_eq a.nanoseconds b.nanoseconds

abbrev changed_eq : Option FileTime → Option FileTime → Bool
changed_eq none none = true
changed_eq none (some b) = false
changed_eq (some a) none = false
changed_eq (some a) (some b) = time_eq a b

-- `PartialEq for FileStamp`: the flag is not compared
unfoldable pub stamp_eq : FileStamp → FileStamp → Bool
stamp_eq a b =
    identity_eq a.identity b.identity
    && a.len == b.len
    && time_eq a.modified b.modified
    && changed_eq a.changed b.changed

-- `confirmed_after_rename`: all that a rename keeps is still the same
unfoldable pub confirmed_after_rename : FileStamp → FileStamp → Option FileStamp
confirmed_after_rename before current =
    if identity_eq before.identity current.identity
      && before.len == current.len
      && time_eq before.modified current.modified
    then some current
    else none

-- What `stat` reports of a file.
pub record Metadata : Type 0 where
  pub dev : ℕ
  pub ino : ℕ
  pub size : ℕ
  pub mtime : FileTime
  pub ctime : FileTime

-- `from_metadata` at the given time of the clock
unfoldable pub from_metadata : ℕ → Metadata → FileStamp
unfolding within_racy_window to_system_time
from_metadata captured_at m = record {
  identity = record { device = m.dev; inode = m.ino };
  len = m.size;
  modified = m.mtime;
  changed = some m.ctime;
  racy =
      within_racy_window captured_at (to_system_time m.mtime)
      || within_racy_window captured_at (to_system_time m.ctime);
}
