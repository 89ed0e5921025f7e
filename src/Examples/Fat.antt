-- ===== src/Examples/Fat.antt =====
-- Tables of a few clusters in memory: each layout, allocation, chains, and a read that fails.
use embedded_fatfs.Base.{ℕ, ◌+◌, ◌*◌, ◌/◌, ◌^◌, ◌≡◌, refl, arith, [], ◌∷◌}
use embedded_fatfs.Base.{some, length}
use embedded_fatfs.Base.Bytes.{patch, word, to_le_bytes}
use embedded_fatfs.Io.{Storage, ok, err, out_of_fuel, io, not_enough_space, ReadExactError, other}
use embedded_fatfs.Io.Ends.{Ends, Returns}
use embedded_fatfs.Io.Memory.{
  Memory, memory, Fault, out_of_range, bytes_of, in_memory, in_memory-IsStorage,
}
use embedded_fatfs.FatType.{fat16}
use embedded_fatfs.Table.{alloc_cluster, write_fat, read_fat, get_next_cluster}
use embedded_fatfs.Table.Value.{FatValue, free, data_value}
use embedded_fatfs.Table.Contract.{IsFat, IsFree, NoFree}
use embedded_fatfs.Table.Fat12
use embedded_fatfs.Table.Fat12.Entry
use embedded_fatfs.Table.Fat12.Laws.{fat12-IsFat}
use embedded_fatfs.Table.Fat16
use embedded_fatfs.Table.Fat16.Laws.{fat16-IsFat}
use embedded_fatfs.Table.Fat32
use embedded_fatfs.Table.Fat32.Laws.{fat32-IsFat, set_bytes}
use embedded_fatfs.Chain.{new, free_chain}
use embedded_fatfs.Chain.Spec.{Chain, last, link, Freed}
use embedded_fatfs.Base.{◌++◌, none}
use embedded_fatfs.Chain.Extend.{alloc_cluster-Chain, end_of}
use embedded_fatfs.Chain.Spec.{Outside}
use embedded_fatfs.Chain.Free.{free_chain_lem}
use embedded_fatfs.Chain.Diverges.{free_chain-diverges}

fat12-IsFat_example :
    IsFat (in_memory-IsStorage 512) (Fat12.fat (in_memory 512)) 300 Fat12.Entry.table
fat12-IsFat_example = fat12-IsFat (in_memory-IsStorage 512) 300 (omega arith) (omega arith)

fat16-IsFat_example :
    IsFat (in_memory-IsStorage 512) (Fat16.fat (in_memory 512)) 256 Fat16.Laws.table
fat16-IsFat_example = fat16-IsFat (in_memory-IsStorage 512) 256 (omega arith) (omega arith)

fat32-IsFat_example :
    IsFat (in_memory-IsStorage 512) (Fat32.fat (in_memory 512)) 128 Fat32.Entry.table
fat32-IsFat_example = fat32-IsFat (in_memory-IsStorage 512) 128 (omega arith) (omega arith)

-- A 16-bit table with the chain from 2 to 3.
abbrev image : Memory
image = memory (patch (λ _. 0) 4 (3 ∷ 0 ∷ 255 ∷ 255 ∷ [])) 0

abbrev image_table : ℕ → FatValue
image_table = Fat16.Laws.table (bytes_of image)

image-Chain : Chain image_table 2 (2 ∷ 3 ∷ [])
unfolding Fat16.decode
image-Chain = link refl (last refl)

free_chain_lem_example :
    Returns
      (λ r u. (r ≡ 2) × Freed 256 image_table (2 ∷ 3 ∷ []) (Fat16.Laws.table (bytes_of u)))
      (free_chain (in_memory 512) fat16 10 (new 2) image)
free_chain_lem_example =
    free_chain_lem (in_memory-IsStorage 512) fat16
      (fat16-IsFat (in_memory-IsStorage 512) 256 (omega arith) (omega arith)) (bytes_of image)
      {s = image} 10 image-Chain refl (omega arith, (omega arith, tt)) ((omega arith, tt), (tt, tt))
      (omega arith)

alloc_cluster-Chain_example :
    Ends
      (λ n u.
        Outside n (2 ∷ 3 ∷ []) × Chain (Fat16.Laws.table (bytes_of u)) 2 ((2 ∷ 3 ∷ []) ++ n ∷ []))
      (λ e u. (e ≡ not_enough_space) × NoFree image_table 2 52 × (bytes_of u ≡ bytes_of image))
      (alloc_cluster (in_memory 512) fat16 (some (end_of image-Chain)) none 50 image)
alloc_cluster-Chain_example =
    alloc_cluster-Chain (in_memory-IsStorage 512) fat16
      (fat16-IsFat (in_memory-IsStorage 512) 256 (omega arith) (omega arith)) (bytes_of image)
      image-Chain none 50 {s = image} (omega arith, (omega arith, tt)) ((omega arith, tt), (tt, tt))
      refl (omega arith) (omega arith) (λ h q. ground arith)

abbrev zeros : Memory
zeros = memory (λ _. 0) 0

set_bytes_example :
    Returns
      (λ _ u.
        bytes_of u
        ≡ patch
            (bytes_of zeros)
            20
            (to_le_bytes 4 (word 4 (bytes_of zeros) 20 / 2 ^ 28 * 2 ^ 28 + 7)))
      (Fat32.set (in_memory 512) 5 (data_value 7) zeros)
set_bytes_example =
    set_bytes (in_memory-IsStorage 512) (bytes_of zeros) 5 (data_value 7) {s = zeros} refl
      (omega arith) (omega arith) (omega arith, omega arith)

zeros-IsFree : IsFree (Fat12.Entry.table (bytes_of zeros)) 2
unfolding Fat12.decode
zeros-IsFree = refl

-- A storage that can be written and not read.
abbrev unreadable : Storage
unreadable = record {
  State = Unit {0};
  Failure = Fault;
  Cause = Fault;
  into_error = io;
  seek = λ _. ok 0;
  read = λ _. err out_of_range;
  write = λ bs. ok (length bs);
  flush = ok tt;
  read_exact = λ _. err (other out_of_range);
  write_all = λ _. ok tt;
}

unreadable-writes :
    (u : Unit {0}) → (w : Unit {0}) × (write_fat unreadable fat16 2 free u ≡ ok tt w)
unfolding write_fat Fat16.set Fat16.set_raw embedded_fatfs.Io.write_u16_le
unreadable-writes u = (tt, refl)

unreadable-fails : get_next_cluster unreadable fat16 2 tt ≡ err (io out_of_range) tt
unfolding get_next_cluster read_fat Fat16.get Fat16.get_raw embedded_fatfs.Io.read_u16_le
unreadable-fails = refl

free_chain-diverges_example : free_chain unreadable fat16 1000 (new 2) tt ≡ out_of_fuel
free_chain-diverges_example =
    free_chain-diverges unreadable fat16 2 unreadable-writes tt unreadable-fails 1000
