-- ===== src/Tests/Apk.antt =====
-- A bundle of two bytes under a name of three, written and read.
use magnemite.Prelude.{◌≡◌, refl, none, some, [], ◌∷◌, arith}
use magnemite.Zip.{Bytes, LocalTime, wrap_as_bundle}
use magnemite.Apk.{ZipEntry, read_central_directory, read_entry}
use magnemite.Apk.Bundle.{wrap_as_bundle-read}

abbrev noon : LocalTime
noon = record { year = 2026; month = 8; day = 26; hours = 12; minutes = 0; seconds = 1 }

abbrev base : ZipEntry
base = record { name = 97 ∷ 98 ∷ 99 ∷ []; compression = 0; offset = 0; size = 2 }

wrap_as_bundle-read_example :
    (zip : Bytes) × (wrap_as_bundle (λ s. 7) noon (80 ∷ 75 ∷ []) (97 ∷ 98 ∷ 99 ∷ []) ≡ some zip)
    × (read_central_directory zip ≡ some (base ∷ []))
    × (read_entry (λ b. none) zip base ≡ some (80 ∷ 75 ∷ []))
wrap_as_bundle-read_example =
    wrap_as_bundle-read (λ s. 7) (λ b. none) noon (80 ∷ 75 ∷ []) (97 ∷ 98 ∷ 99 ∷ []) (omega arith)
      (omega arith) (omega arith) (omega arith)

not_a_zip : read_central_directory (1 ∷ 2 ∷ 3 ∷ []) ≡ none
unfolding read_central_directory
not_a_zip = refl
