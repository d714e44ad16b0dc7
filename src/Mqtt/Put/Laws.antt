-- ===== src/Mqtt/Put/Laws.antt =====
-- What each writer leaves in memory: its bytes at its address, and nothing else changed.
use c_mx.Common.{ℕ, ◌+◌, ◌%◌, ◌/◌, ◌^◌, ◌≤◌, ◌<◌}
use c_mx.Common.{some, List, [], ◌∷◌, ◌++◌, append_assoc}
use c_mx.Common.{
  length, take, drop, length-append, length-take, length-drop, take-append-drop, u8, u16, ltb,
  bit_and, arith,
}
use c_mx.Common.{◌≡◌, refl, sym, ap, ◌∙◌, subst, take_all, bit_and_255, lt→ltb}
use c_mx.Common.{store_lem, memcpy_lem}
use c_mx.Mqtt.Put.{Writer, ◌>>◌, done, only_if}
use c_mx.Mqtt.Put.{put_byte, put_short, put_data, put_string}

-- `w` writes the bytes `bytes`, wherever it is started, and leaves the memory around them alone.
pub record Writes (w : Writer) (bytes : List ℕ) : Type 0 where
  pub run :
      (front old back : List ℕ) (at : ℕ)
      → at ≡ length front
      → length old ≡ length bytes
      → w at (front ++ (old ++ back)) ≡ some (length bytes, front ++ (bytes ++ back))

-- Two writers in a row write the bytes of the first and then those of the second.
pub >>-Writes :
    {w v : Writer} {xs ys : List ℕ} → Writes w xs → Writes v ys → Writes (w >> v) (xs ++ ys)
unfolding ◌>>◌
>>-Writes {xs} {ys} hw hv = record {
  run = λ front old back at e l.
      let cut = length xs in
      let now : front ++ (old ++ back) ≡ front ++ (take cut old ++ (drop cut old ++ back)) =
        ap (λ t. front ++ t)
          (ap (λ t. t ++ back) (sym (take-append-drop cut old))
            ∙ append_assoc (take cut old) (drop cut old) back) in
      rw (
        now,
        hw.run front (take cut old) (drop cut old ++ back) at e
            (omega (arith, length-take cut old, length-append xs ys)),
        ← append_assoc front xs (drop cut old ++ back),
        hv.run (front ++ xs) (drop cut old) back (at + length xs)
            (omega (arith, length-append front xs))
            (omega (arith, length-drop cut old, length-append xs ys)),
        append_assoc front xs (ys ++ back),
        append_assoc xs ys back,
        length-append xs ys,
      );
}

-- To prove it, the memory that is written over may be taken apart.
abbrev Runs : Writer → List ℕ → Type 0
Runs w bytes =
    (front old back : List ℕ) (at : ℕ)
    → at ≡ length front
    → length old ≡ length bytes
    → w at (front ++ (old ++ back)) ≡ some (length bytes, front ++ (bytes ++ back))

done-Runs : Runs done []
unfolding done
done-Runs front [] back at e l = refl
done-Runs front (o ∷ old) back at e l = absurd (omega arith)

put_byte-Runs : (v : ℕ) → v < 2 ^ 8 → Runs (put_byte v) (v ∷ [])
unfolding put_byte
put_byte-Runs v h front [] back at e l = absurd (omega arith)
put_byte-Runs v h front (o ∷ []) back at e l =
    let same : u8 v ≡ v = omega arith in rw (same, store_lem front back o v at e)
put_byte-Runs v h front (o ∷ p ∷ old) back at e l = absurd (omega arith)

put_short-Runs : (v : ℕ) → v < 2 ^ 16 → Runs (put_short v) (v / 256 ∷ v % 256 ∷ [])
unfolding put_short
put_short-Runs v h front [] back at e l = absurd (omega arith)
put_short-Runs v h front (o ∷ []) back at e l = absurd (omega arith)
put_short-Runs v h front (o ∷ p ∷ []) back at e l =
    let high : u8 (bit_and (v / 2 ^ 8) 0xff) ≡ v / 256 = omega (arith, bit_and_255 (v / 2 ^ 8)) in
    let low : u8 (bit_and v 0xff) ≡ v % 256 = omega (arith, bit_and_255 v) in
    rw (
      high,
      low,
      store_lem front (p ∷ back) o (v / 256) at e,
      ← append_assoc front (v / 256 ∷ []) (p ∷ back),
      store_lem (front ++ (v / 256 ∷ [])) back p (v % 256) (at + 1)
          (omega (arith, length-append front (v / 256 ∷ []))),
      append_assoc front (v / 256 ∷ []) (v % 256 ∷ back),
    )
put_short-Runs v h front (o ∷ p ∷ q ∷ old) back at e l = absurd (omega arith)

pub done-Writes : Writes done []
done-Writes = record { run = done-Runs }

pub put_byte-Writes : (v : ℕ) → v < 2 ^ 8 → Writes (put_byte v) (v ∷ [])
put_byte-Writes v h = record { run = put_byte-Runs v h }

-- A short goes out high byte first.
pub put_short-Writes : (v : ℕ) → v < 2 ^ 16 → Writes (put_short v) (v / 256 ∷ v % 256 ∷ [])
put_short-Writes v h = record { run = put_short-Runs v h }

pub put_data-Writes :
    (bytes : List ℕ) (n : ℕ) → u16 n ≤ length bytes → Writes (put_data bytes n) (take (u16 n) bytes)
unfolding put_data
put_data-Writes bytes n h = record {
  run = λ front old back at e l.
      let whole : length (take (u16 n) bytes) ≡ u16 n = omega (arith, length-take (u16 n) bytes) in
      rw (memcpy_lem front old back bytes (u16 n) at e (omega arith) h, whole);
}

-- A short as two bytes, and a string behind its length.
abbrev pub short_bytes : ℕ → List ℕ
short_bytes v = v / 256 ∷ v % 256 ∷ []

abbrev pub string_bytes : List ℕ → List ℕ
string_bytes str = short_bytes (length str) ++ str

-- Of a string of any length the writer keeps as many bytes as the length's low 16 bits say.
pub put_string-Writes_cut :
    (str : List ℕ)
    → Writes (put_string str) (short_bytes (u16 (length str)) ++ take (u16 (length str)) str)
unfolding put_string
put_string-Writes_cut str = >>-Writes (put_short-Writes (u16 (length str)) (omega arith)) (body str)
  where
    body :
        (s : List ℕ)
        → Writes (only_if (ltb 0 (length s)) (put_data s (length s))) (take (u16 (length s)) s)
    body [] = done-Writes
    body (x ∷ s) =
        rw (lt→ltb 0 (length (x ∷ s)) (omega arith))
          (put_data-Writes (x ∷ s) (length (x ∷ s)) (omega arith))

pub put_string-Writes :
    (str : List ℕ) → length str < 2 ^ 16 → Writes (put_string str) (string_bytes str)
put_string-Writes str h =
    let fits : u16 (length str) ≡ length str = omega arith in
    subst (Writes (put_string str))
      (ap (λ n. short_bytes n ++ take n str) fits
        ∙ ap (λ t. short_bytes (length str) ++ t) (take_all str (length str) (omega arith)))
      (put_string-Writes_cut str)

-- A writer at work in a buffer with room enough: the bytes behind its own stay as they are.
pub Writes-append :
    {w : Writer} {bytes : List ℕ}
    → Writes w bytes
    → (front room : List ℕ) (at : ℕ) → at ≡ length front
    → length bytes ≤ length room
    → w at (front ++ room) ≡ some (length bytes, front ++ (bytes ++ drop (length bytes) room))
Writes-append {w} {bytes} h front room at e l =
    ap (λ t. w at (front ++ t)) (sym (take-append-drop (length bytes) room))
    ∙ h.run front (take (length bytes) room) (drop (length bytes) room) at e
        (omega (arith, length-take (length bytes) room))
