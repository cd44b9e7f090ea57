-- ===== src/Buf/Tests.antt =====
-- The theorems of the byte buffer on concrete buffers.
use oiwest_core.Common.{ℕ, ◌≡◌, true, List, [], ◌∷◌, ◌++◌, length, take, ltb, min, ok, arith}
use oiwest_core.Buf.{Buffer, contents, write}
use oiwest_core.Buf.Split.{IsValid, room}
use oiwest_core.Buf.Contents.{write_lem}

abbrev half_read : Buffer
half_read = record { bytes = 1 ∷ 2 ∷ 3 ∷ 0 ∷ 0 ∷ []; start = 1; end = 3; pooled = true }

abbrev long_source : List ℕ
long_source = 4 ∷ 5 ∷ 6 ∷ []

write_lem_example :
    (b' : Buffer) × (write long_source half_read
      ≡ ok (
        b',
        min (length (room half_read)) (length long_source),
        ltb (min (length (room half_read)) (length long_source)) (length long_source),
      ))
    × IsValid b'
    × (contents b' ≡ contents half_read ++ take (length (room half_read)) long_source)
write_lem_example = write_lem long_source half_read (omega arith)
