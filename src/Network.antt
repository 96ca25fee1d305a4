-- ===== src/Network.antt =====
-- sol/src/network.c: the two loops around recv(2) and send(2). The system calls are parameters, as
-- functions of a state that stands for the socket.
pub mod Transfer
pub mod EventLoop
use mqttbroker.Base.{
  ℕ, zero, suc, ◌+◌, ◌-◌, List, [], ◌++◌, out_of_fuel, Run, ok, fault, ◌>>=◌, length, drop, ◌==◌,
  if◌then◌else◌,
}

-- What recv(2) reports: bytes, the end of the stream, EAGAIN, or another error.
pub data Received : Type 0 where
  bytes : List ℕ → Received
  closed : Received
  would_block : Received
  failed : Received

-- What send(2) reports: how many bytes it took, EAGAIN, or another error.
pub data Sent : Type 0 where
  taken : ℕ → Sent
  would_block : Sent
  failed : Sent

-- An `ssize_t` result: a number of bytes, or -1.
pub data Count : Type 0 where
  count : ℕ → Count
  error : Count

module _ {S : Type 0} (recv : S → ℕ → Received × S) where
  -- The loop of `recv_bytes`, with `left` bytes still to come: the result, the bytes stored and the
  -- socket. `total` is what has been read so far.
  pub recv_loop : ℕ → S → ℕ → ℕ → Run (Count × List ℕ × S)
  recv_loop zero s left total = if left == 0 then ok (count total, [], s) else fault out_of_fuel
  recv_loop (suc fuel) s left total =
      let (r, s') = recv s left in
      let more : List ℕ → Run (Count × List ℕ × S) = λ bs. (do
        (result, later, s'') ← recv_loop fuel s' (left - length bs) (total + length bs)
        ok (result, bs ++ later, s'')) in
      let round : Run (Count × List ℕ × S) = elim r [
        | Received.bytes bs ↦ more bs
        | Received.closed ↦ ok (count 0, [], s')
        | Received.would_block ↦ ok (count total, [], s')
        | Received.failed ↦ ok (Count.error, [], s')
      ] in
      if left == 0 then ok (count total, [], s) else round

  unfoldable pub recv_bytes : S → ℕ → Run (Count × List ℕ × S)
  unfolding recv_loop
  recv_bytes s bufsize = recv_loop bufsize s bufsize 0

module _ {S : Type 0} (send : S → List ℕ → Sent × S) where
  -- The loop of `send_bytes` on what is left of the buffer.
  pub send_loop : ℕ → S → List ℕ → ℕ → Run (Count × S)
  send_loop zero s buf total = if length buf == 0 then ok (count total, s) else fault out_of_fuel
  send_loop (suc fuel) s buf total =
      let (r, s') = send s buf in
      let round : Run (Count × S) = elim r [
        | Sent.taken n ↦ send_loop fuel s' (drop n buf) (total + n)
        | Sent.would_block ↦ ok (count total, s')
        | Sent.failed ↦ ok (Count.error, s')
      ] in
      if length buf == 0 then ok (count total, s) else round

  unfoldable pub send_bytes : S → List ℕ → Run (Count × S)
  unfolding send_loop
  send_bytes s buf = send_loop (length buf) s buf 0
