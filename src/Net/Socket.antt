-- ===== src/Net/Socket.antt =====
-- The sending and receiving of CTasConnSocket (src/tas_socket/tas_conn_socket.cpp) over the calls of
-- the operating system. A result of -1 is none; a negative time, for which there is no `select`, too.
use tas_client_api.Prelude.{
  ℕ, zero, suc, ◌+◌, ◌-◌, ◌^◌, Bool, true, false, Option, none, some, List, Mem, ltb, if◌then◌else◌,
  get_bytes, put_bytes, length,
}
use tas_client_api.Net.Os.{Os}

-- `(int)` of a `uint32_t`, as a time.
abbrev pub time_of : ℕ → Option ℕ
time_of ms = if ltb ms (2 ^ 31) then some ms else none

-- A `uint32_t` that becomes an `int` and then a `size_t`.
abbrev pub size_of : ℕ → ℕ
size_of n = if ltb n (2 ^ 31) then n else 2 ^ 64 - 2 ^ 32 + n

-- What a call that receives leaves: its result, the buffer and the system.
pub record Receipt (S : Type 0) : Type 0 where
  pub ret : Option ℕ
  pub buf : Mem ℕ
  pub sys : S

module _ {S : Type 0} (os : Os S) where
  abbrev pub wait_write : Option ℕ → S → S
  wait_write none s = s
  wait_write (some ms) s = os.select_write ms s

  -- The `len` bytes of `buf` from byte offset `i` on.
  unfoldable pub send : Mem ℕ → ℕ → ℕ → Option ℕ → S → Option ℕ × S
  send buf i len timeout_ms s = os.send (get_bytes buf i len) (wait_write timeout_ms s)

  -- The bytes that came go to the buffer.
  abbrev pub deposit : Mem ℕ → ℕ → Option (List ℕ) × S → Receipt S
  deposit buf i (none, s) = record { ret = none; buf = buf; sys = s }
  deposit buf i (some got, s) = record {
    ret = some (length got);
    buf = put_bytes got buf i;
    sys = s;
  }

  -- A timeout is no error: the result is 1.
  abbrev pub after_select : Mem ℕ → ℕ → ℕ → Bool × S → Receipt S
  after_select buf i len (true, s) = record { ret = some 1; buf = buf; sys = s }
  after_select buf i len (false, s) = deposit buf i (os.recv len s)

  -- `recv` of at most `len` bytes, to byte offset `i` of `buf`.
  unfoldable pub recv : Mem ℕ → ℕ → ℕ → Option ℕ → S → Receipt S
  recv buf i len none s = deposit buf i (os.recv len s)
  recv buf i len (some ms) s = after_select buf i len (os.select_read ms s)

  abbrev pub after_send : (ℕ → S → Option (Bool × S)) → Option ℕ × S → Option (Bool × S)
  after_send rest (none, s) = some (false, s)
  after_send rest (some n, s) = rest n s

  -- `sendAll` of the `left` bytes of `buf` from byte offset `i` on, with a round of fuel for each
  -- call of `send`: none when it runs out. The Boolean tells whether it returns 0.
  unfoldable pub send_all : ℕ → Mem ℕ → ℕ → ℕ → Option ℕ → S → Option (Bool × S)
  send_all zero buf i left timeout_ms s = none
  send_all (suc fuel) buf i zero timeout_ms s = some (true, s)
  send_all (suc fuel) buf i (suc l) timeout_ms s =
      after_send (λ n. λ s'. send_all fuel buf (i + n) (suc l - n) timeout_ms s')
        (send buf i (suc l) timeout_ms s)

  abbrev after_recv :
      (ℕ → Mem ℕ → S → Option (Bool × Mem ℕ × S)) → Receipt S → Option (Bool × Mem ℕ × S)
  after_recv rest r = elim r.ret [ none ↦ some (false, r.buf, r.sys) | some n ↦ rest n r.buf r.sys ]

  -- `recvAll`, likewise: each call of `recv` asks for all `len` bytes, while `left` counts those that
  -- are still to come.
  unfoldable pub recv_all : ℕ → Mem ℕ → ℕ → ℕ → ℕ → Option ℕ → S → Option (Bool × Mem ℕ × S)
  recv_all zero buf i left len timeout_ms s = none
  recv_all (suc fuel) buf i zero len timeout_ms s = some (true, buf, s)
  recv_all (suc fuel) buf i (suc l) len timeout_ms s =
      after_recv (λ n. λ buf'. λ s'. recv_all fuel buf' (i + n) (suc l - n) len timeout_ms s')
        (recv buf i len timeout_ms s)
