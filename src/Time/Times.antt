-- ===== src/Time/Times.antt =====
-- Times of a directory entry, encoded and decoded again (embedded-fatfs/src/time.rs).
use embedded_fatfs.Base.{ℕ, ◌+◌, ◌*◌, ◌/◌, ◌%◌, ◌^◌, ◌<◌, ◌≡◌, arith, ap, ap₂, ◌∙◌}
use embedded_fatfs.Base.Bits.{bit_and_mask}
use embedded_fatfs.Time.{Time, time, decode_time, encode_time}
use embedded_fatfs.Time.RoundTrip.{FitsTime, time_word}

-- The word of a time.
encode_time-word :
    (t : Time) → FitsTime t → (encode_time t).0 ≡ t.hour * 2048 + t.min * 32 + t.sec / 2
unfolding encode_time
encode_time-word t h = ground (arith, time_word t.hour t.min (t.sec / 2), hour_shift, min_shift)
  where
    hour_shift : t.hour * 2 ^ 11 % 2 ^ 16 ≡ t.hour * 2 ^ 11
    hour_shift = omega (arith, h.hour)

    min_shift : t.min * 2 ^ 5 % 2 ^ 16 ≡ t.min * 2 ^ 5
    min_shift = omega (arith, h.min)

encode_time-fine : (t : Time) → FitsTime t → (encode_time t).1 ≡ t.millis / 10 + t.sec % 2 * 100
unfolding encode_time
encode_time-fine t h = omega (arith, h.millis)

decode_time-word :
    (h m s hi : ℕ)
    → h < 32
    → m < 64
    → s < 32
    → decode_time (h * 2048 + m * 32 + s) hi ≡ time h m (s * 2 + hi / 100) (hi % 100 * 10)
unfolding decode_time
decode_time-word h m s hi hh hm hs =
    let w = h * 2048 + m * 32 + s in ground (arith, bit_and_mask 6 (w / 2 ^ 5), bit_and_mask 5 w)

-- With the byte of the finer resolution, a time is kept to ten milliseconds.
pub decode_time-encode_time :
    (t : Time)
    → FitsTime t
    → decode_time (encode_time t).0 (encode_time t).1 ≡ time t.hour t.min t.sec (t.millis / 10 * 10)
decode_time-encode_time t h =
    let s : t.sec / 2 < 32 = omega (arith, h.sec) in
    let fine : (encode_time t).1 ≡ t.millis / 10 + t.sec % 2 * 100 = encode_time-fine t h in
    ap₂ decode_time (encode_time-word t h) fine
    ∙ decode_time-word t.hour t.min (t.sec / 2) (t.millis / 10 + t.sec % 2 * 100) h.hour h.min s
    ∙ ap₂ (time t.hour t.min) (omega (arith, h.millis)) (omega (arith, h.millis))

-- Without it, to two seconds.
pub decode_time-coarse :
    (t : Time) → FitsTime t → decode_time (encode_time t).0 0 ≡ time t.hour t.min (t.sec / 2 * 2) 0
decode_time-coarse t h =
    let s : t.sec / 2 < 32 = omega (arith, h.sec) in
    ap (λ w. decode_time w 0) (encode_time-word t h)
    ∙ decode_time-word t.hour t.min (t.sec / 2) 0 h.hour h.min s
    ∙ ap₂ (time t.hour t.min) (omega arith) (omega arith)
