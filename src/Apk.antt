-- ===== src/Apk.antt =====
-- packages/apk/src/index.ts: the entries of a zip file. A reader is the bytes that it is over; the
-- names stay the bytes that TextDecoder reads, and inflating is a parameter. `none` is an error that is
-- thrown.
pub mod Slices
pub mod Bundle
use magnemite.Prelude.{
  ℕ, zero, suc, ◌+◌, ◌-◌, ◌*◌, ◌==◌, leb, min, if◌then◌else◌, Bool, Option, none, some, List, [],
  ◌∷◌, length, take, drop,
}
use magnemite.Zip.{Bytes}

pub record ZipEntry : Type 0 where
  pub name : Bytes
  pub compression : ℕ
  pub offset : ℕ
  pub size : ℕ

abbrev pub first_u16 : Bytes → Option ℕ
first_u16 (a ∷ b ∷ _) = some (a + b * 256)
first_u16 _ = none

abbrev pub first_u32 : Bytes → Option ℕ
first_u32 (a ∷ b ∷ c ∷ d ∷ _) = some (a + b * 256 + c * 65536 + d * 16777216)
first_u32 _ = none

-- `getUint16` and `getUint32`, which throw past the end.
abbrev pub get_u16 : Bytes → ℕ → Option ℕ
get_u16 bytes at = first_u16 (drop at bytes)

abbrev pub get_u32 : Bytes → ℕ → Option ℕ
get_u32 bytes at = first_u32 (drop at bytes)

-- `read` of a reader, and `subarray`.
abbrev pub read : Bytes → (start length : ℕ) → Bytes
read bytes start n = take n (drop start bytes)

abbrev pub is_u32 : ℕ → Option ℕ → Bool
is_u32 n none = Bool.false
is_u32 n (some m) = m == n

-- The last place before `i` that has the signature of the end record.
unfoldable pub find_end : Bytes → (i : ℕ) → Option ℕ
find_end tail zero = none
find_end tail (suc i) =
    let before = find_end tail i in if is_u32 0x06054b50 (get_u32 tail i) then some i else before

infixl 5 ◌>>=◌
abbrev ◌>>=◌ {ℓ κ} : {A : Type ℓ} {B : Type κ} → Option A → (A → Option B) → Option B
none >>= f = none
some a >>= f = f a

abbrev pub entry_at : Bytes → ℕ → Option (ZipEntry × ℕ)
entry_at directory offset = do
  compression ← get_u16 directory (offset + 10)
  size ← get_u32 directory (offset + 20)
  name_length ← get_u16 directory (offset + 28)
  extra_length ← get_u16 directory (offset + 30)
  comment_length ← get_u16 directory (offset + 32)
  local_offset ← get_u32 directory (offset + 42)
  some (
    record {
      name = read directory (offset + 46) name_length;
      compression = compression;
      offset = local_offset;
      size = size;
    },
    offset + 46 + name_length + extra_length + comment_length,
  )

-- The loop over the directory, `count` rounds of it.
unfoldable pub entries_from : Bytes → (count offset : ℕ) → Option (List ZipEntry)
entries_from directory zero offset = some []
entries_from directory (suc count) offset =
    if leb (offset + 46) (length directory)
    then (if is_u32 0x02014b50 (get_u32 directory offset)
        then elim (entry_at directory offset) [
          | none ↦ none
          | some (entry, next) ↦ elim (entries_from directory count next) [
            | none ↦ none
            | some rest ↦ some (entry ∷ rest)
          ]
        ]
        else some [])
    else some []

abbrev max_comment : ℕ
max_comment = 0xffff

abbrev pub directory_of : Bytes → Bytes → (tail_start start size : ℕ) → Bytes
directory_of bytes tail tail_start start size =
    if leb tail_start start then read tail (start - tail_start) size else read bytes start size

abbrev pub entries_of : Bytes → Bytes → (tail_start end : ℕ) → Option (List ZipEntry)
entries_of bytes tail tail_start end = do
  count ← get_u16 tail (end + 10)
  size ← get_u32 tail (end + 12)
  start ← get_u32 tail (end + 16)
  entries_from (directory_of bytes tail tail_start start size) count 0

abbrev pub entries_in : Bytes → Bytes → (tail_start : ℕ) → Option (List ZipEntry)
entries_in bytes tail tail_start = elim (find_end tail (length tail + 1 - 22)) [
  | none ↦ none
  | some end ↦ entries_of bytes tail tail_start end
]

unfoldable pub read_central_directory : Bytes → Option (List ZipEntry)
unfolding find_end entries_from
read_central_directory bytes =
    let tail_length = min (length bytes) (max_comment + 22) in
    let tail_start = length bytes - tail_length in
    entries_in bytes (read bytes tail_start tail_length) tail_start

unfoldable pub data_start : Bytes → ZipEntry → Option ℕ
data_start bytes entry =
    let header = read bytes entry.offset 30 in
    do
      signature ← get_u32 header 0
      name_length ← get_u16 header 26
      extra_length ← get_u16 header 28
      if signature == 0x04034b50
          then some (entry.offset + 30 + name_length + extra_length)
          else none

unfoldable pub read_entry : (inflate_raw : Bytes → Option Bytes) → Bytes → ZipEntry → Option Bytes
unfolding data_start
read_entry inflate_raw bytes entry = do
  start ← data_start bytes entry
  let contents = read bytes start entry.size
  if entry.compression == 0
      then some contents
      else (if entry.compression == 8 then inflate_raw contents else none)
