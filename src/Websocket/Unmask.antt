-- ===== src/Websocket/Unmask.antt =====
-- Unmasking the payload of a frame where the frame stands, as source/stream_ws.c does.
use c_mx.Common.{
  ℕ, zero, suc, ◌+◌, ◌%◌, ◌<◌, Option, some, List, [], ◌∷◌, ◌++◌, length, take, drop, get_elem?,
}
use c_mx.Common.{
  take-append, drop-append, append_assoc, length-append, arith, ◌≡◌, refl, sym, ap, ◌∙◌, fun_ext,
  ◌>>=◌, store, bit_xor, Memory,
}
use c_mx.Websocket.{mask_loop, apply_mask, flag_of}
use c_mx.Websocket.Masking.{masked, length-masked, masked-masked, apply_mask_lem}
use c_mx.Websocket.Header.{length_bytes, frame_bytes}
use c_mx.Websocket.RoundTrip.{described, length-frame_bytes}

get_elem?-front :
    (key more : List ℕ) (i : ℕ) → i < length key → get_elem? (key ++ more) i ≡ get_elem? key i
get_elem?-front [] more i h = absurd (omega arith)
get_elem?-front (k ∷ key) more zero h = refl
get_elem?-front (k ∷ key) more (suc i) h = get_elem?-front key more i (omega arith)

-- Only the first four bytes of a mask count.
mask_loop-front :
    (memory key more : List ℕ) (bytes i n : ℕ)
    → length key ≡ 4
    → mask_loop memory bytes (key ++ more) i n ≡ mask_loop memory bytes key i n
unfolding mask_loop
mask_loop-front memory key more bytes i zero four = refl
mask_loop-front memory key more bytes i (suc n) four =
    rw (get_elem?-front key more (i % 4) (omega arith)) (
      ap
        (λ (loop : Memory → Option Memory). get_elem? memory (bytes + i) >>= λ byte.
          get_elem? key (i % 4) >>= λ k. store memory (bytes + i) (bit_xor byte k) >>= loop)
        (fun_ext (λ memory'. mask_loop-front memory' key more bytes (i + 1) n four)))

abbrev pub header_of : ℕ → List ℕ → List ℕ → List ℕ
header_of flags key bytes = (flags ∷ length_bytes (flag_of (some key)) (length bytes)) ++ key

-- A masked frame in front of `rest`: unmasking it where it stands leaves the payload in it.
pub unmask_lem :
    (flags : ℕ) (key bytes rest : List ℕ)
    → length key ≡ 4
    → let frame = described flags (some key) (length bytes) in
      let memory = frame_bytes flags (some key) bytes ++ rest in
      (apply_mask memory frame.payload_offset (length bytes) (drop frame.mask_offset memory)
        ≡ some (header_of flags key bytes ++ (bytes ++ rest)))
      × (take
            (length bytes)
            (drop frame.payload_offset (header_of flags key bytes ++ (bytes ++ rest)))
          ≡ bytes)
      × (drop
            (length (frame_bytes flags (some key) bytes))
            (header_of flags key bytes ++ (bytes ++ rest))
          ≡ rest)
unfolding apply_mask
unmask_lem flags key bytes rest four =
    let sizes = length_bytes (flag_of (some key)) (length bytes) in
    let m = masked key 0 bytes in
    let memory = frame_bytes flags (some key) bytes ++ rest in
    let header = header_of flags key bytes in
    let apart : memory ≡ (flags ∷ sizes) ++ (key ++ (m ++ rest)) =
      append_assoc (flags ∷ sizes) (key ++ m) rest
      ∙ ap (λ t. (flags ∷ sizes) ++ t) (append_assoc key m rest) in
    let together : memory ≡ header ++ (m ++ rest) =
      apart ∙ sym (append_assoc (flags ∷ sizes) key (m ++ rest)) in
    let at_mask : drop (1 + length sizes) memory ≡ key ++ (m ++ rest) =
      ap (drop (1 + length sizes)) apart
      ∙ drop-append (flags ∷ sizes) (key ++ (m ++ rest)) (1 + length sizes) (omega arith) in
    let p = 1 + length sizes + 4 in
    let n = length bytes in
    let size : length header ≡ p = omega (arith, length-append (flags ∷ sizes) key) in
    let behind : drop p (header ++ (bytes ++ rest)) ≡ bytes ++ rest =
      drop-append header (bytes ++ rest) p (sym size) in
    let frame_size : length (frame_bytes flags (some key) bytes) ≡ length (header ++ bytes) =
      omega (
        arith,
        four,
        size,
        length-frame_bytes flags bytes (some key) four,
        length-append header bytes,
      ) in
    (
      ap (λ t. apply_mask t p n (drop (1 + length sizes) memory)) together
          ∙ ap (λ t. apply_mask (header ++ (m ++ rest)) p n t) at_mask
          ∙ mask_loop-front (header ++ (m ++ rest)) key (m ++ rest) p 0 n four
          ∙ apply_mask_lem header m rest key p n (sym size) (sym (length-masked key 0 bytes)) four
          ∙ ap (λ t. some (header ++ (t ++ rest))) (masked-masked key 0 bytes),
      ap (take n) behind ∙ take-append bytes rest n refl,
      ap (drop (length (frame_bytes flags (some key) bytes))) (sym (append_assoc header bytes rest))
          ∙ drop-append (header ++ bytes) rest (length (frame_bytes flags (some key) bytes))
              frame_size,
    )
