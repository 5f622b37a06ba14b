-- ===== src/Zip.antt =====
-- apps/hub/src/services/zip.ts: the bundle of one stored entry that an uploaded APK is wrapped in. A
-- file is the list of its bytes; the checksum of zlib and the local time are parameters.
use magnemite.Prelude.{
  ℕ, ◌+◌, ◌-◌, ◌*◌, ◌/◌, ◌%◌, leb, ltb, max, if◌then◌else◌, Bool, ◌&&◌, Option, none, some, List,
  [], ◌∷◌, ◌++◌, length,
}

abbrev pub Bytes : Type 0
Bytes = List ℕ

-- What writeUInt16LE and writeUInt32LE leave in the buffer.
abbrev pub u16 : ℕ → Bytes
u16 n = (n % 256) ∷ (n / 256 % 256) ∷ []

abbrev pub u32 : ℕ → Bytes
u32 n = (n % 256) ∷ (n / 256 % 256) ∷ (n / 65536 % 256) ∷ (n / 16777216 % 256) ∷ []

pub record LocalTime : Type 0 where
  pub year : ℕ
  pub month : ℕ
  pub day : ℕ
  pub hours : ℕ
  pub minutes : ℕ
  pub seconds : ℕ

-- `dosTimestamp`. The parts that are or-ed have no bit in common, so that they add up.
abbrev pub dos_time : LocalTime → ℕ
dos_time t = t.hours * 2048 + t.minutes * 32 + t.seconds / 2 % 32

abbrev pub dos_date : LocalTime → ℕ
dos_date t = (max 1980 t.year - 1980) * 512 + t.month * 32 + t.day

pub record Stamp : Type 0 where
  pub time : ℕ
  pub date : ℕ
  pub crc : ℕ

unfoldable pub local_header : Stamp → (name : Bytes) → (size : ℕ) → Bytes
local_header s name size =
    u32 0x04034b50
    ++ u16 20
    ++ u16 0
    ++ u16 0
    ++ u16 s.time
    ++ u16 s.date
    ++ u32 s.crc
    ++ u32 size
    ++ u32 size
    ++ u16 (length name)
    ++ u16 0
    ++ name

unfoldable pub central_header : Stamp → (name : Bytes) → (size : ℕ) → Bytes
central_header s name size =
    u32 0x02014b50
    ++ u16 20
    ++ u16 20
    ++ u16 0
    ++ u16 0
    ++ u16 s.time
    ++ u16 s.date
    ++ u32 s.crc
    ++ u32 size
    ++ u32 size
    ++ u16 (length name)
    ++ u16 0
    ++ u16 0
    ++ u16 0
    ++ u16 0
    ++ u32 0
    ++ u32 0
    ++ name

unfoldable pub end_record : (central_length central_offset : ℕ) → Bytes
end_record central_length central_offset =
    u32 0x06054b50
    ++ u16 0
    ++ u16 0
    ++ u16 1
    ++ u16 1
    ++ u32 central_length
    ++ u32 central_offset
    ++ u16 0

-- No write to a buffer is out of range. (One that is throws before the file is made.)
abbrev pub are_in_range : Stamp → (name : Bytes) → (size : ℕ) → Bool
are_in_range s name size =
    ltb s.time 65536
    && ltb s.date 65536
    && ltb s.crc 4294967296
    && ltb (length name) 65536
    && ltb (30 + length name + size) 4294967296

unfoldable pub wrap_as_bundle :
    (crc32 : Bytes → ℕ) → LocalTime → (source entry_name : Bytes) → Option Bytes
unfolding local_header central_header end_record
wrap_as_bundle crc32 t source entry_name =
    let size = length source in
    let stamp : Stamp = record {
      time = dos_time t;
      date = dos_date t;
      crc = crc32 source % 4294967296;
    } in
    let head = local_header stamp entry_name size in
    let central = central_header stamp entry_name size in
    if leb 0xffffffff size
    then none
    else (if are_in_range stamp entry_name size
        then some (head ++ source ++ central ++ end_record (length central) (length head + size))
        else none)
