-- ===== src/BufStream/View.antt =====
-- What a `BufStream` shows of the device: its bytes, with the cached block over them while it is
-- dirty, and when the cache agrees with that.
use embedded_fatfs.Base.{
  ℕ, ◌+◌, ◌*◌, ◌≤◌, ◌<◌, ◌≡◌, Bool, true, false, ◌⊎◌, List, length, All, ap, sym, ◌∙◌,
}
use embedded_fatfs.Base.Bytes.{IsByte, slice, patch}
use embedded_fatfs.BufStream.{BufStream, in_block}
use embedded_fatfs.BufStream.Device.{BlockDevice, IsBlockDevice}

abbrev pub overlay : Bool → (ℕ → ℕ) → ℕ → List ℕ → ℕ → ℕ
overlay false c p bs = c
overlay true c p bs = patch c p bs

module _ {dev : BlockDevice} (laws : IsBlockDevice dev) where
  open dev use {State, block_size}
  open laws use {content, blocks}

  abbrev pub view : BufStream → State → ℕ → ℕ
  view b s = overlay b.dirty (content s) (b.current_block * block_size) b.buffer

  pub record Coherent (b : BufStream) (s : State) : Type 0 where
    pub whole : length b.buffer ≡ block_size
    pub bytes : All IsByte b.buffer
    pub pending : b.dirty ≡ true → b.current_block < blocks
    pub held :
        b.current_block < blocks
        → b.buffer ≡ slice (view b s) (b.current_block * block_size) block_size

  -- The cached block has no byte of a range.
  abbrev pub Apart : BufStream → ℕ → ℕ → Type 0
  Apart b from len =
      (blocks ≤ b.current_block)
      ⊎ (b.current_block * block_size + block_size ≤ from)
      ⊎ (from + len ≤ b.current_block * block_size)

  -- A stream whose offset moved by `n`, over the bytes `v`. Where a request of `len` bytes is not
  -- done with that, the cached block lies behind the offset.
  pub record Moved (b : BufStream) (v : ℕ → ℕ) (n len : ℕ) (b' : BufStream) (s' : State)
      : Type 0 where
    pub coherent : Coherent b' s'
    pub shows : view b' s' ≡ v
    pub offset : b'.current_offset ≡ b.current_offset + n
    pub behind :
        n < len
        → (b'.current_block ≡ in_block dev b)
          × (in_block dev b * block_size + block_size ≡ b.current_offset + n)

  -- What a stream shows depends on the bytes of the device alone.
  pub view_kept : (b : BufStream) {s t : State} → content t ≡ content s → view b t ≡ view b s
  view_kept b e = ap (λ c. overlay b.dirty c (b.current_block * block_size) b.buffer) e

  pub Coherent-kept :
      (b : BufStream) {s t : State} → content t ≡ content s → Coherent b s → Coherent b t
  Coherent-kept b e h = record {
    whole = h.whole;
    bytes = h.bytes;
    pending = h.pending;
    held = λ lt.
        h.held lt
        ∙ ap (λ v. slice v (b.current_block * block_size) block_size) (sym (view_kept b e));
  }

  -- The offset moves on.
  pub Coherent-moved :
      (b : BufStream) {s : State} (n : ℕ)
      → Coherent b s
      → Coherent (record b { current_offset = n }) s
  Coherent-moved b n h = record {
    whole = h.whole;
    bytes = h.bytes;
    pending = h.pending;
    held = h.held;
  }
