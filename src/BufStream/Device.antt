-- ===== src/BufStream/Device.antt =====
-- The block device under the stream: the trait `BlockDevice` of block-device-driver/src/lib.rs, what
-- is documented of a device, and the checked cast of a byte slice to blocks.
use embedded_fatfs.Base.{
  ℕ, ◌+◌, ◌*◌, ◌%◌, ◌^◌, ◌≤◌, ◌<◌, ◌≡◌, ◌&&◌, ◌==◌, if◌then◌else◌, List, length, All,
}
use embedded_fatfs.Base.Bytes.{IsByte, slice, patch}
use embedded_fatfs.Io.{Cmd, ok, panic}
use embedded_fatfs.Io.Ends.{Returns}

-- `read a n` reads `n` blocks from address `a` on and returns their bytes; the list of `write` is the
-- bytes of its blocks.
pub record BlockDevice : Type 1 where
  pub State : Type 0
  pub Failure : Type 0
  pub block_size : ℕ
  pub align : ℕ
  pub read : ℕ → ℕ → Cmd State Failure (List ℕ)
  pub write : ℕ → List ℕ → Cmd State Failure (Unit {0})
  pub size : Cmd State Failure ℕ

-- The assertions of `slice_to_blocks` and `slice_to_blocks_mut`, for a slice at an address.
abbrev pub slice_to_blocks : {S X : Type 0} (block_size align addr len : ℕ) → Cmd S X (Unit {0})
slice_to_blocks block_size align addr len s =
    if (len % block_size == 0) && ((len % align == 0) && (addr % align == 0))
    then ok tt s
    else panic

-- A device of `blocks` blocks that holds bytes.
pub record IsBlockDevice (dev : BlockDevice) : Type 0 where
  pub content : dev.State → ℕ → ℕ
  pub blocks : ℕ
  pub addressed : blocks < 2 ^ 32
  pub some_bytes : 0 < dev.block_size
  pub small : dev.block_size < 2 ^ 16
  pub aligned : dev.block_size % dev.align ≡ 0
  pub align_pos : 0 < dev.align
  pub content_byte : (s : dev.State) (i : ℕ) → IsByte (content s i)
  pub read_in :
      (a n : ℕ) (s : dev.State)
      → a + n ≤ blocks
      → Returns
          (λ bs t.
            (bs ≡ slice (content s) (a * dev.block_size) (n * dev.block_size))
            × (content t ≡ content s))
          (dev.read a n s)
  pub write_in :
      (a n : ℕ) (bs : List ℕ) (s : dev.State)
      → a + n ≤ blocks
      → length bs ≡ n * dev.block_size
      → All IsByte bs
      → Returns (λ _ t. content t ≡ patch (content s) (a * dev.block_size) bs) (dev.write a bs s)
