-- ===== src/Mqtt/Get/Laws.antt =====
-- What each reader gets from memory that holds what the writers wrote.
use c_mx.Common.{ℕ, ◌+◌, ◌*◌, ◌%◌, ◌/◌, ◌^◌, ◌<◌}
use c_mx.Common.{some, List, [], ◌∷◌, ◌++◌, append_assoc}
use c_mx.Common.{length, length-append, get_elem?-append, take-append, drop-append}
use c_mx.Common.{u16, bit_or, bit_or_shifted, arith, ◌≡◌, refl}
use c_mx.Mqtt.Put.Laws.{short_bytes, string_bytes}
use c_mx.Mqtt.Get.{Slice, bytes_of, Reader, ◌>>=◌, pure, get_byte, get_short, get_data, get_string}

-- On memory that holds `bytes` at address `at` the reader gives `a` and goes over these bytes.
pub record Reads {A : Type 0} (r : Reader A) (at : ℕ) (bytes : List ℕ) (a : A) : Type 0 where
  pub run :
      (front back : List ℕ)
      → at ≡ length front
      → r (front ++ (bytes ++ back)) at ≡ some (a, length bytes)

pub >>=-Reads :
    {A B : Type 0} {r : Reader A} (f : A → Reader B) {at : ℕ} {xs ys : List ℕ} {a : A} {b : B}
    → Reads r at xs a
    → Reads (f a) (at + length xs) ys b
    → Reads (r >>= f) at (xs ++ ys) b
unfolding ◌>>=◌
>>=-Reads f {xs} {ys} hr hf = record {
  run = λ front back e. rw (
    append_assoc xs ys back,
    hr.run front (ys ++ back) e,
    ← append_assoc front xs (ys ++ back),
    hf.run (front ++ xs) back (omega (arith, length-append front xs)),
    length-append xs ys,
  );
}

pub pure-Reads : {A : Type 0} {at : ℕ} {a : A} → Reads (pure a) at [] a
unfolding pure
pure-Reads = record { run = λ front back e. refl }

pub get_byte-Reads : {at : ℕ} (b : ℕ) → Reads get_byte at (b ∷ []) b
unfolding get_byte
get_byte-Reads {at} b = record {
  run = λ front back e. rw (get_elem?-append front (b ∷ back) at 0 (omega arith));
}

pub get_short-Reads : {at : ℕ} (v : ℕ) → v < 2 ^ 16 → Reads get_short at (short_bytes v) v
unfolding get_short
get_short-Reads {at} v h = record {
  run = λ front back e.
      let whole : u16 (bit_or (u16 (v / 256 * 2 ^ 8)) (v % 256)) ≡ v =
        ground (arith, bit_or_shifted 8 (v / 256) (v % 256) (omega arith)) in
      rw (
        get_elem?-append front (v / 256 ∷ v % 256 ∷ back) at 0 (omega arith),
        get_elem?-append front (v / 256 ∷ v % 256 ∷ back) (at + 1) 1 (omega arith),
        whole,
      );
}

pub get_data-Reads :
    {at : ℕ} (bytes : List ℕ)
    → length bytes < 2 ^ 16
    → Reads (get_data (length bytes)) at bytes (record { start = at; len = length bytes })
unfolding get_data
get_data-Reads bytes h = record {
  run = λ front back e. let fits : u16 (length bytes) ≡ length bytes = omega arith in rw fits;
}

pub get_string-Reads :
    {at : ℕ} (str : List ℕ)
    → length str < 2 ^ 16
    → Reads get_string at (string_bytes str) (record { start = at + 2; len = length str })
unfolding get_string
get_string-Reads {at} str h = record {
  run = λ front back e.
      let size : 2 + length str ≡ length (string_bytes str) = omega arith in
      let behind = get_short-Reads {at = at} (length str) h in
      rw (behind.run front (str ++ back) e, size);
}

-- The bytes that a slice points to, where memory is known around them.
pub bytes_of_lem :
    (front bytes back : List ℕ) (s : Slice)
    → s.start ≡ length front
    → s.len ≡ length bytes
    → bytes_of (front ++ (bytes ++ back)) s ≡ bytes
bytes_of_lem front bytes back s e l =
    rw (drop-append front (bytes ++ back) s.start e) (take-append bytes back s.len l)
