-- ===== src/Examples/Windows.antt =====
-- A window of eight bytes in a storage of 64 in memory.
use embedded_fatfs.Base.{
  ℕ, ◌+◌, ◌-◌, ◌≤◌, ◌<◌, ◌≡◌, refl, fun_ext, arith, List, [], ◌∷◌, length, take, min, All, All-take,
}
use embedded_fatfs.Base.Bytes.{IsByte, patch, length-slice}
use embedded_fatfs.Io.Ends.{Ends, Returns, returns}
use embedded_fatfs.Io.Memory.{Memory, memory, bytes_of, in_memory, in_memory-IsStorage, patch-mod}
use embedded_fatfs.StreamSlice.{StreamSlice, StreamSliceError, write_window}
use embedded_fatfs.StreamSlice.Confined.{IsPartial, Inside, Stays, write_window_lem}

read_some :
    (n : ℕ) (m : Memory)
    → m.at + n ≤ 64
    → Returns
        (λ bs t. (length bs ≤ n) × (bytes_of t ≡ bytes_of m) × (t.at ≡ m.at + length bs))
        ((in_memory 64).read n m)
read_some n m h =
    let count = length-slice (bytes_of m) m.at (min n (64 - m.at)) in
    returns (omega (arith, count), refl, omega (arith, count))

write_some :
    (bs : List ℕ) (m : Memory)
    → m.at + length bs ≤ 64
    → All IsByte bs
    → Returns
        (λ n t.
          (n ≤ length bs) × (bytes_of t ≡ patch (bytes_of m) m.at (take n bs)) × (t.at ≡ m.at + n))
        ((in_memory 64).write bs m)
write_some bs m h bytes =
    let k = min (length bs) (64 - m.at) in
    returns (
      omega arith,
      fun_ext (λ i. patch-mod m.bytes m.at (take k bs) i (All-take IsByte k bs bytes)),
      refl,
    )

in_memory-IsPartial : IsPartial (in_memory-IsStorage 64)
in_memory-IsPartial = record { read_some = read_some; write_some = write_some }

abbrev window : StreamSlice
window = record { start_offset = 16; current_offset = 6; size = 8 }

abbrev at_window : Memory
at_window = memory (λ _. 0) 22

window-Inside : Inside (in_memory-IsStorage 64) window at_window
window-Inside = record { lim = omega arith; room = omega arith; inside = omega arith; at = refl }

write_window_lem_example :
    Ends
      (λ n (d', s'). (0 < n) × (n ≤ 3) × Stays (in_memory-IsStorage 64) window at_window d' s')
      (λ x (d', s').
        (x ≡ StreamSliceError.write_zero) × Stays (in_memory-IsStorage 64) window at_window d' s')
      (write_window (in_memory 64) (1 ∷ 2 ∷ 3 ∷ []) (window, at_window))
write_window_lem_example =
    write_window_lem (in_memory-IsStorage 64) in_memory-IsPartial window at_window window-Inside
      (1 ∷ 2 ∷ 3 ∷ []) (omega arith, (omega arith, (omega arith, tt)))
