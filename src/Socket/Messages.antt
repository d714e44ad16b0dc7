-- ===== src/Socket/Messages.antt =====
-- A message is received as it was sent, however the system cuts it.
use c_mx.Common.{
  ℕ, zero, suc, ◌+◌, ◌-◌, ◌*◌, ◌/◌, ◌%◌, ◌^◌, ◌≤◌, ◌<◌, Option, some, List, [], ◌∷◌, ◌++◌, length,
  take, drop,
}
use c_mx.Common.{length-append, length-drop, take-append-drop, append_assoc, append-nil, ◌==◌}
use c_mx.Common.{false, arith, ◌≡◌, refl, sym, ap, ◌∙◌}
use c_mx.Stream.{Result, wrote, Arrival, got}
use c_mx.Socket.{htonl, ntohl, send_loop, go_on, socket_send, socket_send_msg, behind_length}
use c_mx.Socket.{
  read_on, receive_loop, socket_receive, socket_receive_msg_len, socket_receive_msg, as_length,
}

-- A blocking write takes at least one byte of what it is given, and only from its front.
pub record Takes (S : Type 0) (write : S → List ℕ → Result × S) (sent : S → List ℕ) : Type 0 where
  pub takes :
      (s : S) (bytes : List ℕ)
      → 0 < length bytes
      → (n : ℕ) × ((write s bytes).0 ≡ wrote n)
        × (0 < n)
        × (n ≤ length bytes)
        × (sent (write s bytes).1 ≡ sent s ++ take n bytes)

-- A blocking read gives at least one byte, and at most as many as asked for, where there are some to come.
pub record Gives (S : Type 0) (read : S → ℕ → Arrival × S) (to_come : S → List ℕ) : Type 0 where
  pub gives :
      (s : S) (n : ℕ)
      → 0 < n
      → 0 < length (to_come s)
      → (bytes : List ℕ) × ((read s n).0 ≡ got bytes)
        × (0 < length bytes)
        × (length bytes ≤ n)
        × (to_come s ≡ bytes ++ to_come (read s n).1)

module _ {S : Type 0} (write : S → List ℕ → Result × S) (sent : S → List ℕ)
    (system : Takes S write sent) where
  abbrev SendsAll : Option (Result × S) → ℕ → S → List ℕ → Type 0
  SendsAll o len s bytes = (s' : S) × (o ≡ some (wrote len, s')) × (sent s' ≡ sent s ++ bytes)

  sends_round :
      (loop : S → List ℕ → Option (Result × S)) (len : ℕ) (s s' : S) (bytes : List ℕ) (r : Result)
      (n : ℕ)
      → r ≡ wrote n
      → 0 < n
      → sent s' ≡ sent s ++ take n bytes
      → SendsAll (loop s' (drop n bytes)) len s' (drop n bytes)
      → SendsAll (go_on write loop bytes (r, s')) len s bytes
  unfolding go_on
  sends_round loop len s s' bytes r n e some_sent grown (end, runs, all) =
      let counts : (n == 0) ≡ false = ground arith in
      (
        end,
        rw (e, counts) runs,
        all
            ∙ ap (λ t. t ++ drop n bytes) grown
            ∙ append_assoc (sent s) (take n bytes) (drop n bytes)
            ∙ ap (λ t. sent s ++ t) (take-append-drop n bytes),
      )

  send_loop_lem :
      (fuel len : ℕ) (s : S) (bytes : List ℕ)
      → length bytes < fuel
      → SendsAll (send_loop write fuel len s bytes) len s bytes
  unfolding send_loop
  send_loop_lem zero len s bytes enough = absurd (omega arith)
  send_loop_lem (suc fuel) len s [] enough = (s, refl, sym (append-nil (sent s)))
  send_loop_lem (suc fuel) len s (b ∷ bytes) enough =
      let (n, e, some_sent, less, grown) = system.takes s (b ∷ bytes) (omega arith) in
      let filled : (suc (length bytes) == 0) ≡ false = ground arith in
      rw filled (
        sends_round (λ s' bytes'. send_loop write fuel len s' bytes') len s (write s (b ∷ bytes)).1
          (b ∷ bytes) (write s (b ∷ bytes)).0 n e some_sent grown
          (send_loop_lem fuel len (write s (b ∷ bytes)).1 (drop n (b ∷ bytes))
            (omega (arith, length-drop n (b ∷ bytes)))))

-- The four bytes of a number are the number.
ntohl_lem : (a b c d : ℕ) → ntohl (a ∷ b ∷ c ∷ d ∷ []) ≡ a * 16777216 + b * 65536 + c * 256 + d
unfolding ntohl
ntohl_lem a b c d = omega arith

ntohl-htonl : (n : ℕ) → n < 2 ^ 31 → ntohl (htonl n) ≡ n
unfolding htonl
ntohl-htonl n bounded =
    ntohl_lem (n / 2 ^ 24 % 256) (n / 2 ^ 16 % 256) (n / 2 ^ 8 % 256) (n % 256) ∙ omega arith

-- Bytes that begin as much as `ys ++ rest` does begin with `ys`, where they are no longer.
front_of :
    {A : Type 0}
    → (xs zs ys rest : List A) → xs ++ zs ≡ ys ++ rest
    → length xs ≤ length ys
    → (middle : List A) × (ys ≡ xs ++ middle) × (zs ≡ middle ++ rest)
front_of [] zs ys rest e less = (ys, refl, e)
front_of (x ∷ xs) zs [] rest e less = absurd (ground arith)
front_of (x ∷ xs) zs (y ∷ ys) rest e less =
    let same : x ≡ y = cc in
    let others : xs ++ zs ≡ ys ++ rest = cc in
    let (middle, begins, ends) = front_of xs zs ys rest others (ground arith) in (middle, cc, ends)

module _ {T : Type 0} (read : T → ℕ → Arrival × T) (to_come : T → List ℕ)
    (system : Gives T read to_come) where
  abbrev ReceivesAll : Option (Arrival × T) → List ℕ → List ℕ → Type 0
  ReceivesAll o bytes rest = (t' : T) × (o ≡ some (got bytes, t')) × (to_come t' ≡ rest)

  receives_round :
      (loop : T → ℕ → List ℕ → Option (Arrival × T)) (remain : ℕ) (t' : T)
      (buffer bytes rest front middle : List ℕ) (a : Arrival)
      → a ≡ got front
      → bytes ≡ front ++ middle
      → ReceivesAll
          (loop t' (remain - length front) (buffer ++ front))
          ((buffer ++ front) ++ middle)
          rest
      → ReceivesAll (read_on read loop remain buffer (a, t')) (buffer ++ bytes) rest
  unfolding read_on
  receives_round loop remain t' buffer bytes rest front middle a e begins (end, runs, left) = (
    end,
    rw e runs
        ∙ ap (λ b. some (got b, end))
            (append_assoc buffer front middle ∙ ap (λ b. buffer ++ b) (sym begins)),
    left,
  )

  receive_loop_lem :
      (fuel remain : ℕ) (t : T) (buffer bytes rest : List ℕ)
      → remain < fuel
      → length bytes ≡ remain
      → to_come t ≡ bytes ++ rest
      → ReceivesAll (receive_loop read fuel t remain buffer) (buffer ++ bytes) rest
  unfolding receive_loop
  receive_loop_lem zero remain t buffer bytes rest enough size waits = absurd (omega arith)
  receive_loop_lem (suc fuel) zero t buffer [] rest enough size waits =
      (t, ap (λ b. some (got b, t)) (sym (append-nil buffer)), waits)
  receive_loop_lem (suc fuel) zero t buffer (b ∷ bytes) rest enough size waits =
      absurd (ground arith)
  receive_loop_lem (suc fuel) (suc remain) t buffer bytes rest enough size waits =
      let here : 0 < length (to_come t) = rw (waits, length-append bytes rest) (omega arith) in
      let (front, e, some_given, less, comes) = system.gives t (suc remain) (omega arith) here in
      let (middle, begins, ends) =
        front_of front (to_come (read t (suc remain)).1) bytes rest (sym comes ∙ waits)
          (omega arith) in
      let filled : (suc remain == 0) ≡ false = ground arith in
      let sizes : length bytes ≡ length front + length middle =
        ap length begins ∙ length-append front middle in
      rw filled (
        receives_round (λ t' r b. receive_loop read fuel t' r b) (suc remain)
          (read t (suc remain)).1 buffer bytes rest front middle (read t (suc remain)).0 e begins
          (receive_loop_lem fuel (suc remain - length front) (read t (suc remain)).1
            (buffer ++ front) middle rest (omega arith) (omega arith) ends))

length-htonl : (n : ℕ) → length (htonl n) ≡ 4
unfolding htonl
length-htonl n = ground arith

-- Where a write takes at least a byte of what it is given and a read gives at least one of those to come, a message of
-- fewer than 2^31 bytes is sent whole behind its length; a receiver that finds these bytes ahead reads the length and
-- then the message, and what comes behind the message is left.
pub socket_send_msg-socket_receive_msg :
    {S T : Type 0}
    → (write : S → List ℕ → Result × S) → (sent : S → List ℕ) → Takes S write sent
    → (read : T → ℕ → Arrival × T) → (to_come : T → List ℕ) → (reads : Gives T read to_come)
    → (s : S) (t : T) (bytes rest : List ℕ) → length bytes < 2 ^ 31
    → to_come t ≡ htonl (length bytes) ++ (bytes ++ rest)
    → ((s' : S) × (socket_send_msg write s bytes ≡ some (wrote (length bytes), s'))
        × (sent s' ≡ sent s ++ (htonl (length bytes) ++ bytes)))
      × ((t' : T) × (socket_receive_msg_len read t ≡ some (some (length bytes), t'))
          × ReceivesAll read to_come reads (socket_receive_msg read t' (length bytes)) bytes rest)
unfolding socket_send_msg socket_send behind_length socket_receive_msg_len socket_receive_msg
    socket_receive as_length
socket_send_msg-socket_receive_msg write sent writes read to_come reads s t bytes rest bounded
      waits =
    let (s1, runs1, sent1) =
      send_loop_lem write sent writes (length (htonl (length bytes)) + 1)
        (length (htonl (length bytes))) s (htonl (length bytes)) (omega arith) in
    let (s2, runs2, sent2) =
      send_loop_lem write sent writes (length bytes + 1) (length bytes) s1 bytes (omega arith) in
    let (t1, runs3, left) =
      receive_loop_lem read to_come reads 5 4 t [] (htonl (length bytes)) (bytes ++ rest)
        (omega arith) (length-htonl (length bytes)) waits in
    let (t2, runs4, left2) =
      receive_loop_lem read to_come reads (length bytes + 1) (length bytes) t1 [] bytes rest
        (omega arith) refl left in
    let counts : (length (htonl (length bytes)) == 0) ≡ false =
      ap (λ n. n == 0) (length-htonl (length bytes)) in
    (
      (
        s2,
        rw (runs1, counts) runs2,
        sent2 ∙ ap (λ b. b ++ bytes) sent1 ∙ append_assoc (sent s) (htonl (length bytes)) bytes,
      ),
      (
        t1,
        rw runs3 (ap (λ n. some (some n, t1)) (ntohl-htonl (length bytes) bounded)),
        (t2, runs4, left2),
      ),
    )
