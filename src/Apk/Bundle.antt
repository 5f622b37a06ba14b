-- ===== src/Apk/Bundle.antt =====
-- A bundle that zip.ts writes, read by packages/apk/src/index.ts.
use native.Mathlib.Omega.{arith}
use magnemite.Prelude.{
  ℕ, suc, ◌+◌, ◌-◌, ◌*◌, ◌/◌, ◌%◌, ◌≤◌, ◌<◌, ◌≡◌, ◌∙◌, refl, sym, ap, inl, inr, Bool-cases, leb,
  min, true, false, Option, some, [], ◌∷◌, ◌++◌, length, drop, length-append,
}
use mathlib.Core.List.{append_assoc}
use magnemite.Zip.{
  Bytes, Stamp, LocalTime, dos_time, dos_date, local_header, central_header, end_record,
  are_in_range, wrap_as_bundle,
}
use magnemite.Apk.{
  ZipEntry, first_u16, first_u32, get_u32, read, find_end, entries_from, entries_of,
  read_central_directory, data_start, read_entry, entry_at, is_u32, directory_of, entries_in,
}
use magnemite.Apk.Slices.{
  drop-append, drop-append_short, drop-drop, take-append, take_all, length-drop,
}

module _ (s : Stamp) (name : Bytes) (size : ℕ) (short : length name < 65536)
    (small : size < 4294967296) where
  length-central : length (central_header s name size) ≡ 46 + length name
  unfolding central_header
  length-central = omega arith

  length-local : length (local_header s name size) ≡ 30 + length name
  unfolding local_header
  length-local = omega arith

  abbrev entry : ZipEntry
  entry = record { name = name; compression = 0; offset = 0; size = size }

  decoded_u16 : length name % 256 + length name / 256 % 256 * 256 ≡ length name
  decoded_u16 = omega arith

  decoded_u32 :
      size % 256
        + size / 256 % 256 * 256
        + size / 65536 % 256 * 65536
        + size / 16777216 % 256 * 16777216
      ≡ size
  decoded_u32 = omega arith

  entry_at-central :
      entry_at (central_header s name size) 0 ≡ some (entry, 0 + 46 + length name + 0 + 0)
  unfolding central_header
  entry_at-central =
      rw (decoded_u16, decoded_u32)
        (ap
          (λ (n : Bytes). some (
            record { name = n; compression = 0; offset = 0; size = size },
            0 + 46 + length name + 0 + 0,
          ))
          (take_all (length name) name (omega arith)))

  signed : is_u32 0x02014b50 (get_u32 (central_header s name size) 0) ≡ true
  unfolding central_header
  signed = refl

  entries_from-central : entries_from (central_header s name size) 1 0 ≡ some (entry ∷ [])
  unfolding entries_from
  entries_from-central =
      let whole : leb (0 + 46) (length (central_header s name size)) ≡ true =
        rw length-central (ground arith) in
      rw (whole, signed, entry_at-central) refl

  module _ (source : Bytes) (is_size : length source ≡ size)
      (all_small : 30 + length name + size < 4294967296) where
    abbrev head : Bytes
    head = local_header s name size

    abbrev central : Bytes
    central = central_header s name size

    abbrev trailer : Bytes
    trailer = end_record (length central) (length head + size)

    abbrev body : Bytes
    body = head ++ source ++ central

    abbrev bundle : Bytes
    bundle = body ++ trailer

    length-body : length body ≡ 76 + length name + size + length name
    length-body = omega (
      arith,
      length-append (head ++ source) central,
      length-append head source,
      length-central,
      length-local,
    )

    length-trailer : length trailer ≡ 22
    unfolding end_record
    length-trailer = omega arith

    length-bundle : length bundle ≡ length body + 22
    length-bundle = omega (arith, length-append body trailer, length-trailer)

    trailer_signed : is_u32 0x06054b50 (first_u32 trailer) ≡ true
    unfolding end_record
    trailer_signed = refl

    trailer_count : first_u16 (drop 10 trailer) ≡ some 1
    unfolding end_record
    trailer_count = refl

    trailer_size : first_u32 (drop 12 trailer) ≡ some (length central)
    unfolding end_record
    trailer_size = let e = length-central in ap some (omega arith)

    trailer_start : first_u32 (drop 16 trailer) ≡ some (length head + size)
    unfolding end_record
    trailer_start = let e = length-local in ap some (omega arith)

    -- What the directory is read from.
    drop-body : drop (length head + size) bundle ≡ central ++ trailer
    drop-body = rw (append_assoc (head ++ source) central trailer) (
        drop-append (length head + size) 0 (head ++ source) (central ++ trailer)
          (omega (arith, length-append head source)))

    module _ (start : ℕ) (le : start ≤ length body) where
      abbrev tail : Bytes
      tail = drop start bundle

      tail_is : tail ≡ drop start body ++ trailer
      tail_is = drop-append_short start body trailer le

      abbrev end : ℕ
      end = length (drop start body)

      in_trailer : (k : ℕ) → drop (end + k) tail ≡ drop k trailer
      in_trailer k = rw tail_is (drop-append (end + k) k (drop start body) trailer refl)

      drop-end : drop end tail ≡ trailer
      drop-end = rw tail_is (drop-append end 0 (drop start body) trailer (omega arith))

      find_end-tail : find_end tail (length tail + 1 - 22) ≡ some end
      unfolding find_end
      find_end-tail =
          let e : length tail + 1 - 22 ≡ suc end =
            rw tail_is (omega (arith, length-append (drop start body) trailer, length-trailer)) in
          rw (e, at_end) refl
        where
          at_end : is_u32 0x06054b50 (get_u32 tail end) ≡ true
          at_end = rw (drop-end, trailer_signed) refl

      directory_lem : directory_of bundle tail start (length head + size) (length central) ≡ central
      directory_lem = elim (Bool-cases (leb start (length head + size))) [
        | inl inside ↦ rw inside (
            rw
              (
                drop-drop (length head + size - start) start (length head + size) bundle
                    (ground arith),
                drop-body,
              )
              (take-append (length central) central trailer refl))
        | inr outside ↦
            rw outside (rw drop-body (take-append (length central) central trailer refl))
      ]

      entries_of-bundle : entries_of bundle tail start end ≡ some (entry ∷ [])
      entries_of-bundle =
          rw
            (
              in_trailer 10,
              in_trailer 12,
              in_trailer 16,
              trailer_count,
              trailer_size,
              trailer_start,
            )
            (rw directory_lem entries_from-central)

      entries_in-bundle : entries_in bundle tail start ≡ some (entry ∷ [])
      entries_in-bundle = rw (entries_in, find_end-tail) entries_of-bundle

    drop-head : drop (30 + length name) bundle ≡ source ++ (central ++ trailer)
    drop-head =
        rw
          (
            append_assoc (head ++ source) central trailer,
            append_assoc head source (central ++ trailer),
          )
          (drop-append (30 + length name) 0 head (source ++ (central ++ trailer))
            (omega (arith, length-local)))

    read_central_directory-bundle : read_central_directory bundle ≡ some (entry ∷ [])
    unfolding read_central_directory
    read_central_directory-bundle =
        let n = length bundle in
        let tail_length = min n (65535 + 22) in
        let start = n - tail_length in
        let near : start ≤ length body = omega (arith, length-bundle) in
        let whole : read bundle start tail_length ≡ drop start bundle =
          take_all tail_length (drop start bundle) (omega (arith, length-drop start bundle)) in
        ap (λ t. entries_in bundle t start) whole ∙ entries_in-bundle start near

    data_start-bundle : data_start bundle entry ≡ some (30 + length name)
    unfolding data_start local_header
    data_start-bundle = ap some (omega arith)

    read_entry-bundle :
        (inflate_raw : Bytes → Option Bytes) → read_entry inflate_raw bundle entry ≡ some source
    unfolding read_entry
    read_entry-bundle inflate_raw =
        rw data_start-bundle
          (ap some (rw drop-head (take-append size source (central ++ trailer) (sym is_size))))

-- If the name and the two parts of the time fit in sixteen bits, and the source with the local
-- header in less than 2^32 - 1 bytes, then the bundle is written, reading its central directory
-- finds one stored entry with that name and the size of the source, and reading that entry gives
-- back the source.
pub wrap_as_bundle-read :
    (crc32 : Bytes → ℕ) (inflate_raw : Bytes → Option Bytes) (t : LocalTime) (source name : Bytes)
    → dos_time t < 65536
    → dos_date t < 65536
    → length name < 65536
    → 30 + length name + length source < 4294967295
    → let entry : ZipEntry = record {
      name = name;
      compression = 0;
      offset = 0;
      size = length source;
    } in
      (zip : Bytes) × (wrap_as_bundle crc32 t source name ≡ some zip)
      × (read_central_directory zip ≡ some (entry ∷ []))
      × (read_entry inflate_raw zip entry ≡ some source)
unfolding wrap_as_bundle
wrap_as_bundle-read crc32 inflate_raw t source name ht hd hn hs =
    let s : Stamp = record {
      time = dos_time t;
      date = dos_date t;
      crc = crc32 source % 4294967296;
    } in
    let size = length source in
    let small : size < 4294967296 = omega arith in
    let all_small : 30 + length name + size < 4294967296 = omega arith in
    let fits : leb 0xffffffff size ≡ false = ground arith in
    let ok : are_in_range s name size ≡ true = ground arith in
    (
      bundle s name size hn small source refl all_small,
      rw (fits, ok) refl,
      read_central_directory-bundle s name size hn small source refl all_small,
      read_entry-bundle s name size hn small source refl all_small inflate_raw,
    )
