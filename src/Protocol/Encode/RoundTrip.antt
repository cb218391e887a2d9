-- ===== src/Protocol/Encode/RoundTrip.antt =====
-- Each payload decoder reads back what its encoder wrote, whatever a later version appends.
use pty.Base.{
  ℕ, ◌<◌, ◌≡◌, refl, Bool, true, false, ◌++◌, some, none, ltb, ◌&&◌, if◌then◌else◌, Bytes, ℤ, InI32,
  u16_to_be, u32_to_be, u16_from-to, u32_from-to, i32_bits, i32_bits_bound, i32_of_bits-i32_bits,
  ◌∷◌,
}
use pty.Protocol.Encode.{
  size_payload, size_cell_payload, decode_size, decode_cell, exit_payload, decode_exit, peek_flags,
  decode_peek,
}

-- Rows and columns of the `u16` range come back from a size payload, with any suffix behind it.
pub decode_size-size_payload :
    (rows cols : ℕ) (rest : Bytes)
    → rows < 65536
    → cols < 65536
    → decode_size (size_payload rows cols ++ rest) ≡ (rows, cols)
unfolding decode_size size_payload u16_to_be
decode_size-size_payload rows cols rest hr hc = cc (u16_from-to rows hr, u16_from-to cols hc)

-- An older reader takes the same size from a payload that carries cell pixels, and a newer one
-- finds the pixels, or nothing when either is zero; for all four in the `u16` range.
pub decode-size_cell_payload :
    (rows cols w h : ℕ) (rest : Bytes)
    → rows < 65536
    → cols < 65536
    → w < 65536
    → h < 65536
    → (decode_size (size_cell_payload rows cols w h ++ rest) ≡ (rows, cols))
      × (decode_cell (size_cell_payload rows cols w h ++ rest)
          ≡ (if ltb 0 w && ltb 0 h then some (w, h) else none))
unfolding decode_size decode_cell size_cell_payload size_payload u16_to_be
decode-size_cell_payload rows cols w h rest hr hc hw hh =
    rw (u16_from-to rows hr, u16_from-to cols hc, u16_from-to w hw, u16_from-to h hh) (refl, refl)

-- An exit code of the `i32` range comes back from its payload.
pub decode_exit-exit_payload :
    (code : ℤ) (rest : Bytes) → InI32 code → decode_exit (exit_payload code ++ rest) ≡ code
unfolding decode_exit exit_payload u32_to_be
decode_exit-exit_payload code rest h =
    rw (u32_from-to (i32_bits code) (i32_bits_bound code)) (i32_of_bits-i32_bits code h)

-- The two flags of a PEEK come back.
pub decode_peek-peek_flags :
    (plain full : Bool) (rest : Bytes) → decode_peek (peek_flags plain full ∷ rest) ≡ (plain, full)
unfolding decode_peek peek_flags
decode_peek-peek_flags true true rest = refl
decode_peek-peek_flags true false rest = refl
decode_peek-peek_flags false true rest = refl
decode_peek-peek_flags false false rest = refl
