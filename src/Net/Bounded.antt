-- ===== src/Net/Bounded.antt =====
-- The length that CTasPktMailboxSocket::execute reports
-- (src/tas_client/tas_pkt_mailbox_socket.cpp).
use tas_client_api.Prelude.{
  ℕ, zero, suc, ◌+◌, ◌*◌, ◌/◌, ◌%◌, ◌^◌, ◌≤◌, ◌<◌, ◌≡◌, refl, ap, sym, subst, ◌∙◌, ◌⊎◌, inl, inr,
  arith, Bool, true, false, Option, none, Mem, store, u32, sub32, if-lem,
}
use tas_client_api.Net.Os.{Os}
use tas_client_api.Net.Socket.{Receipt, send, recv, time_of, size_of}
use tas_client_api.Net.Mailbox.{
  Mailbox, Answer, is_failure, socket_disconnect, socket_receive, finish_pl2_pkt, is_bad_size,
  take_size, receive_pl2_pkt, send_rest, receive_loop, send_pkts, send_loop, socket_send, answer,
  after_send_pkts, execute,
}

-- The bytes counted are whole words within the maximum.
abbrev IsCounted : {S : Type 0} → ℕ → Mailbox S → Type 0
IsCounted max m = (m.max_num_bytes_rsp ≡ max) × (m.num_bytes_rsp ≤ max) × (m.num_bytes_rsp % 4 ≡ 0)

-- `execute` returns either false and a length of 0, or true and a length within the maximum.
abbrev pub IsBounded : {S : Type 0} → ℕ → Answer S → Type 0
IsBounded max a =
    ((a.ret ≡ false) × (a.num_bytes ≡ 0))
    ⊎ ((a.ret ≡ true) × (a.num_bytes ≤ max) × (a.num_bytes % 4 ≡ 0))

module _ {S : Type 0} (os : Os S) where
  disconnect-Counted :
      (max : ℕ) (m : Mailbox S) → IsCounted max m → IsCounted max (socket_disconnect os m)
  unfolding socket_disconnect
  disconnect-Counted max m h =
      if-lem (λ (x : Mailbox S). IsCounted max x) m.connected (λ c. h) (λ c. h)

  socket_receive-Counted :
      (max w n : ℕ) (m : Mailbox S) → IsCounted max m → IsCounted max (socket_receive os w n m).1
  unfolding socket_receive
  socket_receive-Counted max w n m h =
      if-lem (λ (x : Bool × Mailbox S). IsCounted max x.1) (is_failure os r.ret)
        (λ e. disconnect-Counted max (record m { rsp_buf = r.buf; sys = r.sys }) h) (λ e. h)
    where
      r : Receipt S
      r = recv os (store m.rsp_buf w 0) (4 * w) (size_of n) (time_of m.timeout_receive_ms) m.sys

  socket_receive-num :
      (w n : ℕ) (m : Mailbox S) → (socket_receive os w n m).1.num_bytes_rsp ≡ m.num_bytes_rsp
  unfolding socket_receive socket_disconnect
  socket_receive-num w n m =
      if-lem (λ (x : Bool × Mailbox S). x.1.num_bytes_rsp ≡ m.num_bytes_rsp) (is_failure os r.ret)
        (λ e.
          if-lem (λ (x : Mailbox S). x.num_bytes_rsp ≡ m.num_bytes_rsp) m.connected (λ h. refl)
            (λ h. refl))
        (λ e. refl)
    where
      r : Receipt S
      r = recv os (store m.rsp_buf w 0) (4 * w) (size_of n) (time_of m.timeout_receive_ms) m.sys

  finish-Counted :
      (max pkt_size w : ℕ) (x : Bool × Mailbox S)
      → IsCounted max x.1
      → w ≡ x.1.num_bytes_rsp / 4
      → max < 2 ^ 32
      → is_bad_size os pkt_size w max ≡ false
      → IsCounted max (finish_pl2_pkt os pkt_size x).1
  finish-Counted max pkt_size w (false, m) h e small good = disconnect-Counted max m h
  finish-Counted max pkt_size w (true, m) (a, b, c) e small good = (a, ground arith, ground arith)

  take_size-Counted :
      (max w : ℕ) (x : Bool × Mailbox S)
      → IsCounted max x.1
      → w ≡ x.1.num_bytes_rsp / 4
      → max < 2 ^ 32
      → IsCounted max (take_size os w x).1
  unfolding take_size
  take_size-Counted max w (false, m) h e small = h
  take_size-Counted max w (true, m) h e small =
      if-lem (λ (x : Bool × Mailbox S). IsCounted max x.1)
        (is_bad_size os (m.rsp_buf w) w m.max_num_bytes_rsp) (λ bad. disconnect-Counted max m h)
        (λ good.
          finish-Counted max (m.rsp_buf w) w rest
            (socket_receive-Counted max (w + 1) (sub32 (m.rsp_buf w) 4) m h)
            (e ∙ ap (λ n. n / 4) (sym (socket_receive-num (w + 1) (sub32 (m.rsp_buf w) 4) m))) small
            (subst (λ x. is_bad_size os (m.rsp_buf w) w x ≡ false) h.0 good))
    where
      rest : Bool × Mailbox S
      rest = socket_receive os (w + 1) (sub32 (m.rsp_buf w) 4) m

  -- What a step and the rest of the loop keep, both keep.
  rest-keeps :
      (P : Mailbox S → Type 0) (rest : Mailbox S → Bool × Mailbox S) (x : Bool × Mailbox S)
      → P x.1
      → ((m : Mailbox S) → P m → P (rest m).1)
      → P (send_rest os rest x).1
  rest-keeps P rest (false, m) h k = h
  rest-keeps P rest (true, m) h k = k m h

  receive_loop-Counted :
      (p max : ℕ) (m : Mailbox S)
      → IsCounted max m
      → max < 2 ^ 32
      → IsCounted max (receive_loop os p m).1
  unfolding receive_loop receive_pl2_pkt
  receive_loop-Counted zero max m h small = h
  receive_loop-Counted (suc p) max m h small =
      rest-keeps (IsCounted max) (receive_loop os p) (receive_pl2_pkt os m)
        (take_size-Counted max (m.num_bytes_rsp / 4) (socket_receive os (m.num_bytes_rsp / 4) 4 m)
          (socket_receive-Counted max (m.num_bytes_rsp / 4) 4 m h)
          (ap (λ n. n / 4) (sym (socket_receive-num (m.num_bytes_rsp / 4) 4 m))) small)
        (λ n. λ k. receive_loop-Counted p max n k small)

  abbrev HasMax : ℕ → Mailbox S → Type 0
  HasMax max m = m.max_num_bytes_rsp ≡ max

  socket_send-max :
      (max w n : ℕ) (rq : Mem ℕ) (m : Mailbox S)
      → HasMax max m
      → HasMax max (socket_send os rq w n m).1
  unfolding socket_send socket_disconnect
  socket_send-max max w n rq m h =
      if-lem (λ (x : Bool × Mailbox S). HasMax max x.1) (is_failure os r.0)
        (λ e. if-lem (λ (x : Mailbox S). HasMax max x) m.connected (λ c. h) (λ c. h)) (λ e. h)
    where
      r : Option ℕ × S
      r = send os rq (4 * w) (size_of n) none m.sys

  send_loop-max :
      (p max w : ℕ) (rq : Mem ℕ) (m : Mailbox S)
      → HasMax max m
      → HasMax max (send_loop os p w rq m).1
  unfolding send_loop
  send_loop-max zero max w rq m h = h
  send_loop-max (suc p) max w rq m h =
      rest-keeps (HasMax max) (send_loop os p (u32 (w + rq w / 4)) rq)
        (socket_send os rq w (rq w) m) (socket_send-max max w (rq w) rq m h)
        (λ n. λ k. send_loop-max p max (u32 (w + rq w / 4)) rq n k)

  send_pkts-max :
      (p max : ℕ) (rq : Mem ℕ) (m : Mailbox S) → HasMax max m → HasMax max (send_pkts os rq p m).1
  unfolding send_pkts
  send_pkts-max p max rq m h =
      if-lem (λ (x : Bool × Mailbox S). HasMax max x.1) m.connected
        (λ c. send_loop-max p max 0 rq m h) (λ c. h)

  answer-Bounded :
      (max : ℕ) (x : Bool × Mailbox S) → IsCounted max x.1 → IsBounded max (answer os x)
  answer-Bounded max (false, m) h = inl (refl, refl)
  answer-Bounded max (true, m) (a, b, c) = inr (refl, b, c)

  after_send-Bounded :
      (max p : ℕ) (x : Bool × Mailbox S)
      → HasMax max x.1
      → max < 2 ^ 32
      → IsBounded max (answer os (after_send_pkts os p x))
  after_send-Bounded max p (false, m) h small = inl (refl, refl)
  after_send-Bounded max p (true, m) h small =
      answer-Bounded max (receive_loop os p (record m { num_bytes_rsp = 0 }))
        (receive_loop-Counted p max (record m { num_bytes_rsp = 0 }) (h, omega arith, refl) small)

  -- Whatever the server answers, for a maximum that `config` has set to a 32 bit number, `execute`
  -- returns either false and a length of 0, or true and a length of at most that maximum, in whole
  -- words, for any number of packets.
  pub execute-IsBounded :
      (rq rsp : Mem ℕ) (num_pl2_pkt : ℕ) (m : Mailbox S)
      → m.max_num_bytes_rsp < 2 ^ 32
      → IsBounded m.max_num_bytes_rsp (execute os rq rsp num_pl2_pkt m)
  unfolding execute
  execute-IsBounded rq rsp num_pl2_pkt m small =
      after_send-Bounded m.max_num_bytes_rsp num_pl2_pkt
        (send_pkts os rq num_pl2_pkt (record m { rsp_buf = rsp }))
        (send_pkts-max num_pl2_pkt m.max_num_bytes_rsp rq (record m { rsp_buf = rsp }) refl) small
