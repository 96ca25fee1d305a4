-- ===== src/Network/Transfer.antt =====
-- The loops of network.c end, and report what they moved, by what the system calls gave.
use mqttbroker.Base.{
  ℕ, zero, suc, ◌+◌, ◌-◌, ◌≤◌, ◌<◌, ◌≡◌, refl, ap, ◌⊎◌, inl, inr, true, List, [], ◌∷◌, ◌++◌, arith,
  Returns, length, drop, length-append, ◌==◌, Bool-cases,
}
use mathlib.Core.Path.{subst}
use mqttbroker.Network.{
  Received, Sent, Count, count, error, recv_loop, recv_bytes, send_loop, send_bytes,
}

Received-cases :
    (r : Received)
    → ((bs : List ℕ) × (r ≡ Received.bytes bs))
      ⊎ (r ≡ Received.closed)
      ⊎ (r ≡ Received.would_block)
      ⊎ (r ≡ Received.failed)
Received-cases (Received.bytes bs) = inl (bs, refl)
Received-cases Received.closed = inr (inl refl)
Received-cases Received.would_block = inr (inr (inl refl))
Received-cases Received.failed = inr (inr (inr refl))

-- The bytes of the chunks, one chunk behind the other.
abbrev pub joined : List (List ℕ) → List ℕ
joined [] = []
joined (bs ∷ chunks) = bs ++ joined chunks

module _ {S : Type 0} (recv : S → ℕ → Received × S) where
  -- recv(2): bytes that it gives are at least one, and no more than asked for.
  abbrev pub GivesBytes : Type 0
  GivesBytes =
      (s : S) (n : ℕ) (bs : List ℕ)
      → 0 < n
      → (recv s n).0 ≡ Received.bytes bs
      → (0 < length bs) × (length bs ≤ n)

  -- The calls of recv(2) that gave bytes, from one state of the socket to another, with `left` bytes
  -- asked for in the first.
  abbrev pub Gives : S → ℕ → List (List ℕ) → S → Type 0
  Gives s left [] s' = s ≡ s'
  Gives s left (bs ∷ more) s' =
      (0 < left)
      × ((recv s left).0 ≡ Received.bytes bs)
      × Gives (recv s left).1 (left - length bs) more s'

  -- How the calls end when `total` bytes are stored: nothing is left to read, or the next call gives
  -- the end of the stream, EAGAIN or an error.
  abbrev pub Stopped : S → ℕ → ℕ → Count → S → Type 0
  Stopped s left total result s' =
      ((left ≡ 0) × (result ≡ count total) × (s ≡ s'))
      ⊎ ((0 < left)
          × ((recv s left).0 ≡ Received.closed)
          × (result ≡ count 0)
          × ((recv s left).1 ≡ s'))
      ⊎ ((0 < left)
          × ((recv s left).0 ≡ Received.would_block)
          × (result ≡ count total)
          × ((recv s left).1 ≡ s'))
      ⊎ ((0 < left)
          × ((recv s left).0 ≡ Received.failed)
          × (result ≡ error)
          × ((recv s left).1 ≡ s'))

  -- What is stored is what the calls gave, in order.
  pub record IsRead (start : S) (left total : ℕ) (run : Count × List ℕ × S) : Type 0 where
    pub chunks : List (List ℕ)
    pub last : S
    pub given : Gives start left chunks last
    pub stored : run.1 ≡ joined chunks
    pub fits : length run.1 ≤ left
    pub stopped : Stopped last (left - length run.1) (total + length run.1) run.0 run.2

  stop :
      (s s' : S) (left total : ℕ) (result : Count)
      → Stopped s left total result s'
      → IsRead s left total (result, [], s')
  stop s s' left total result h =
      let all_left : left ≡ left - 0 = omega arith in
      let none_more : total ≡ total + 0 = omega arith in
      record {
        chunks = [];
        last = s;
        given = refl;
        stored = refl;
        fits = omega arith;
        stopped =
            subst (λ l. Stopped s l (total + 0) result s') all_left
              (subst (λ t. Stopped s left t result s') none_more h);
      }

  extend :
      (s : S) (left total : ℕ) (bs : List ℕ) (result : Count) (later : List ℕ) (s' : S)
      → 0 < left
      → (recv s left).0 ≡ Received.bytes bs
      → length bs ≤ left
      → IsRead (recv s left).1 (left - length bs) (total + length bs) (result, later, s')
      → IsRead s left total (result, bs ++ later, s')
  extend s left total bs result later s' some_left got le is =
      let whole = length-append bs later in
      let same_left : left - length bs - length later ≡ left - length (bs ++ later) =
        omega (arith, whole) in
      let same_total : total + length bs + length later ≡ total + length (bs ++ later) =
        omega (arith, whole) in
      record {
        chunks = bs ∷ is.chunks;
        last = is.last;
        given = (some_left, got, is.given);
        stored = ap (λ l. bs ++ l) is.stored;
        fits = omega (arith, whole, is.fits);
        stopped =
            subst (λ l. Stopped is.last l (total + length (bs ++ later)) result s') same_left
              (subst (λ t. Stopped is.last (left - length bs - length later) t result s') same_total
                is.stopped);
      }

  recv_loop-Returns :
      (fuel : ℕ) (s : S) (left total : ℕ)
      → GivesBytes
      → left ≤ fuel
      → Returns (recv_loop recv fuel s left total) (IsRead s left total)
  unfolding recv_loop
  recv_loop-Returns zero s left total gives h =
      let e : (left == 0) ≡ true = ground arith in
      let none_left : left ≡ 0 = omega arith in
      rw e (
        (count total, [], s),
        refl,
        stop s s left total (count total) (inl (none_left, refl, refl)),
      )
  recv_loop-Returns (suc fuel) s left total gives h = elim (Bool-cases (left == 0)) [
    | inl e ↦
        let none_left : left ≡ 0 = ground (arith, e) in
        rw e (
          (count total, [], s),
          refl,
          stop s s left total (count total) (inl (none_left, refl, refl)),
        )
    | inr e ↦
        let s' = (recv s left).1 in
        let more : 0 < left = ground (arith, e) in
        elim (Received-cases (recv s left).0) [
          | inl (bs, got) ↦
              let (some_bytes, fits) = gives s left bs more got in
              let ((result, later, s''), run, is) =
                recv_loop-Returns fuel s' (left - length bs) (total + length bs) gives
                  (omega arith) in
              (
                (result, bs ++ later, s''),
                rw (e, got, run) refl,
                extend s left total bs result later s'' more got fits is,
              )
          | inr (inl got) ↦ (
            (count 0, [], s'),
            rw (e, got) refl,
            stop s s' left total (count 0) (inr (inl (more, got, refl, refl))),
          )
          | inr (inr (inl got)) ↦ (
            (count total, [], s'),
            rw (e, got) refl,
            stop s s' left total (count total) (inr (inr (inl (more, got, refl, refl)))),
          )
          | inr (inr (inr got)) ↦ (
            (error, [], s'),
            rw (e, got) refl,
            stop s s' left total error (inr (inr (inr (more, got, refl, refl)))),
          )
        ]
  ]

  recv_bytes-Returns :
      (s : S) (bufsize : ℕ) → GivesBytes → Returns (recv_bytes recv s bufsize) (IsRead s bufsize 0)
  unfolding recv_bytes
  recv_bytes-Returns s bufsize gives = recv_loop-Returns bufsize s bufsize 0 gives (omega arith)

Sent-cases :
    (r : Sent) → ((n : ℕ) × (r ≡ Sent.taken n)) ⊎ (r ≡ Sent.would_block) ⊎ (r ≡ Sent.failed)
Sent-cases (Sent.taken n) = inl (n, refl)
Sent-cases Sent.would_block = inr (inl refl)
Sent-cases Sent.failed = inr (inr refl)

length-drop : (n : ℕ) (bs : List ℕ) → length (drop n bs) ≡ length bs - n
length-drop zero bs = omega arith
length-drop (suc n) [] = omega arith
length-drop (suc n) (b ∷ bs) = omega (arith, length-drop n bs)

module _ {S : Type 0} (send : S → List ℕ → Sent × S) where
  -- send(2): it takes at least one byte of a buffer that is not empty, and no more than are there.
  abbrev pub TakesBytes : Type 0
  TakesBytes =
      (s : S) (buf : List ℕ) (n : ℕ)
      → 0 < length buf
      → (send s buf).0 ≡ Sent.taken n
      → (0 < n) × (n ≤ length buf)

  -- The calls of send(2) that took bytes, with the socket and the part of the buffer they leave.
  abbrev pub Takes : S → List ℕ → List ℕ → S → List ℕ → Type 0
  Takes s buf [] s' left = (s ≡ s') × (buf ≡ left)
  Takes s buf (n ∷ more) s' left =
      (0 < length buf)
      × ((send s buf).0 ≡ Sent.taken n)
      × Takes (send s buf).1 (drop n buf) more s' left

  -- How the calls end when `total` bytes are sent: nothing is left of the buffer, or the next call
  -- gives EAGAIN or an error.
  abbrev pub Finished : S → List ℕ → ℕ → Count × S → Type 0
  Finished s left total (result, s') =
      ((length left ≡ 0) × (result ≡ count total) × (s ≡ s'))
      ⊎ ((0 < length left)
          × ((send s left).0 ≡ Sent.would_block)
          × (result ≡ count total)
          × ((send s left).1 ≡ s'))
      ⊎ ((0 < length left)
          × ((send s left).0 ≡ Sent.failed)
          × (result ≡ error)
          × ((send s left).1 ≡ s'))

  pub record IsSent (start : S) (buf : List ℕ) (total : ℕ) (run : Count × S) : Type 0 where
    pub counts : List ℕ
    pub last : S
    pub left : List ℕ
    pub taken : Takes start buf counts last left
    pub sent : ℕ
    pub whole : sent + length left ≡ length buf
    pub finished : Finished last left (total + sent) run

  finish :
      (s : S) (buf : List ℕ) (total : ℕ) (run : Count × S)
      → Finished s buf total run
      → IsSent s buf total run
  finish s buf total run h =
      let same : total ≡ total + 0 = omega arith in
      record {
        counts = [];
        last = s;
        left = buf;
        taken = (refl, refl);
        sent = 0;
        whole = omega arith;
        finished = subst (λ t. Finished s buf t run) same h;
      }

  advance :
      (s : S) (buf : List ℕ) (total n : ℕ) (run : Count × S)
      → 0 < length buf
      → (send s buf).0 ≡ Sent.taken n
      → n ≤ length buf
      → IsSent (send s buf).1 (drop n buf) (total + n) run
      → IsSent s buf total run
  advance s buf total n run more got le is =
      let same : total + n + is.sent ≡ total + (n + is.sent) = omega arith in
      record {
        counts = n ∷ is.counts;
        last = is.last;
        left = is.left;
        taken = (more, got, is.taken);
        sent = n + is.sent;
        whole = omega (arith, length-drop n buf, is.whole);
        finished = subst (λ t. Finished is.last is.left t run) same is.finished;
      }

  send_loop-Returns :
      (fuel : ℕ) (s : S) (buf : List ℕ) (total : ℕ)
      → TakesBytes
      → length buf ≤ fuel
      → Returns (send_loop send fuel s buf total) (IsSent s buf total)
  unfolding send_loop
  send_loop-Returns zero s buf total takes h =
      let e : (length buf == 0) ≡ true = ground arith in
      let empty : length buf ≡ 0 = omega arith in
      ((count total, s), rw e refl, finish s buf total (count total, s) (inl (empty, refl, refl)))
  send_loop-Returns (suc fuel) s buf total takes h = elim (Bool-cases (length buf == 0)) [
    | inl e ↦
        let empty : length buf ≡ 0 = ground (arith, e) in
        ((count total, s), rw e refl, finish s buf total (count total, s) (inl (empty, refl, refl)))
    | inr e ↦
        let s' = (send s buf).1 in
        let more : 0 < length buf = ground (arith, e) in
        elim (Sent-cases (send s buf).0) [
          | inl (n, got) ↦
              let (some_bytes, fits) = takes s buf n more got in
              let (run, ran, is) =
                send_loop-Returns fuel s' (drop n buf) (total + n) takes
                  (omega (arith, length-drop n buf)) in
              (run, rw (e, got) ran, advance s buf total n run more got fits is)
          | inr (inl got) ↦ (
            (count total, s'),
            rw (e, got) refl,
            finish s buf total (count total, s') (inr (inl (more, got, refl, refl))),
          )
          | inr (inr got) ↦ (
            (error, s'),
            rw (e, got) refl,
            finish s buf total (error, s') (inr (inr (more, got, refl, refl))),
          )
        ]
  ]

  send_bytes-Returns :
      (s : S) (buf : List ℕ) → TakesBytes → Returns (send_bytes send s buf) (IsSent s buf 0)
  unfolding send_bytes
  send_bytes-Returns s buf takes = send_loop-Returns (length buf) s buf 0 takes (omega arith)

-- `recv_bytes` returns on every socket whose recv(2) gives at least one byte and no more than asked
-- for. It calls recv(2) for what is still to come, until all is there or a call gives none, and
-- stores what the calls gave, in order; its result is the number of bytes stored if all is there or
-- the last call gave EAGAIN, 0 if that gave the end of the stream, and -1 if it gave an error.
-- `send_bytes` returns on every socket whose send(2) takes at least one byte and no more than there
-- are. It calls send(2) on what is left of the buffer, until nothing is or a call takes none; its
-- result is the number of bytes taken in all if nothing is left or the last call gave EAGAIN, and -1
-- if that gave an error.
pub transfers_return :
    {S : Type 0} (recv : S → ℕ → Received × S) (send : S → List ℕ → Sent × S) (s : S) (bufsize : ℕ)
    (buf : List ℕ)
    → GivesBytes recv
    → TakesBytes send
    → Returns (recv_bytes recv s bufsize) (IsRead recv s bufsize 0)
      × Returns (send_bytes send s buf) (IsSent send s buf 0)
transfers_return recv send s bufsize buf gives takes =
    (recv_bytes-Returns recv s bufsize gives, send_bytes-Returns send s buf takes)
