-- ===== src/Examples/Slices.antt =====
-- A slice with two mirrors in memory.
use embedded_fatfs.Base.{◌+◌, ◌≡◌, arith, take, [], ◌∷◌}
use embedded_fatfs.Io.Ends.{Returns}
use embedded_fatfs.Io.Memory.{Memory, memory, bytes_of, in_memory, in_memory-IsStorage}
use embedded_fatfs.DiskSlice.{DiskSlice, write_slice, new_slice}
use embedded_fatfs.DiskSlice.Mirrors.{Inside, Mirrored, write_slice_lem}

abbrev two_tables : DiskSlice
two_tables = new_slice 512 64 2

two_tables-Inside : Inside 1024 two_tables
two_tables-Inside = record {
  lim = omega arith;
  mirrored = omega arith;
  room = omega arith;
  offset = omega arith;
}

abbrev blank : Memory
blank = memory (λ _. 0) 0

write_slice_lem_example :
    Returns
      (λ n du.
        (n ≡ 3)
        × (du.0 ≡ record two_tables { offset = 0 + n })
        × Mirrored (bytes_of blank) 512 64 0 2 (take n (1 ∷ 2 ∷ 3 ∷ [])) (bytes_of du.1))
      (write_slice (in_memory 1024) (1 ∷ 2 ∷ 3 ∷ []) (two_tables, blank))
write_slice_lem_example =
    write_slice_lem (in_memory-IsStorage 1024) two_tables two_tables-Inside (1 ∷ 2 ∷ 3 ∷ [])
      {s = blank} (omega arith, (omega arith, (omega arith, tt)))
