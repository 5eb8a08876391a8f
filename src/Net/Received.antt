-- ===== src/Net/Received.antt =====
-- What CTasPktMailboxSocket::receive leaves (src/tas_client/tas_pkt_mailbox_socket.cpp).
use tas_client_api.Prelude.{
  ℕ, ◌*◌, ◌%◌, ◌^◌, ◌≤◌, ◌<◌, ◌≡◌, ◌≢◌, refl, ◌∙◌, ap, sym, ◌⊎◌, inl, inr, arith, Bool, true, false,
  Mem, sub32, if-lem,
}
use tas_client_api.Net.Os.{Os, IsOs}
use tas_client_api.Net.Mailbox.{
  Mailbox, Answer, socket_disconnect, socket_receive, finish_pl2_pkt, is_bad_size, take_size,
  receive_pl2_pkt, answer, receive,
}
use tas_client_api.Net.Receipt.{
  disconnect-buf, socket_receive-elsewhere, socket_receive-Receipt, IsReceipt,
}

-- The response is one packet of the size noted, which keeps within the maximum, and its header
-- is there.
pub record IsPacket {S : Type 0} (m : Mailbox S) : Type 0 where
  pub size : m.num_bytes_rsp ≡ m.rsp_buf 0
  pub least : 8 ≤ m.num_bytes_rsp
  pub most : m.num_bytes_rsp ≤ m.max_num_bytes_rsp
  pub words : m.num_bytes_rsp % 4 ≡ 0
  pub header : m.rsp_buf 1 ≢ 0

module _ {S : Type 0} (os : Os S) (is_os : IsOs os) where
  -- What the receipt of a packet leaves of a buffer, whose words from byte `max` on stay.
  abbrev IsTaken : ℕ → Mem ℕ → Bool × Mailbox S → Type 0
  IsTaken max buf x =
      ((k : ℕ) → max ≤ 4 * k → x.1.rsp_buf k ≡ buf k)
      × ((x.0 ≡ false) ⊎ ((x.0 ≡ true) × IsPacket x.1))

  disconnect-Taken :
      (max : ℕ) (buf : Mem ℕ) (m : Mailbox S)
      → ((k : ℕ) → max ≤ 4 * k → m.rsp_buf k ≡ buf k)
      → IsTaken max buf (false, socket_disconnect os m)
  disconnect-Taken max buf m h =
      (λ k. λ le. ap (λ b. b k) (disconnect-buf os is_os m) ∙ h k le, inl refl)

  -- The rest of a packet, whose size is that of word 0.
  rest-Taken :
      (max : ℕ) (m : Mailbox S) (x : Bool × Mailbox S)
      → max ≡ m.max_num_bytes_rsp
      → max < 2 ^ 31
      → m.num_bytes_rsp ≡ 0
      → m.rsp_buf 0 < 2 ^ 32
      → is_bad_size os (m.rsp_buf 0) 0 m.max_num_bytes_rsp ≡ false
      → IsReceipt os is_os 1 m x
      → ((k : ℕ) → max ≤ 4 * k → x.1.rsp_buf k ≡ m.rsp_buf k)
      → x.1.rsp_buf 0 ≡ m.rsp_buf 0
      → IsTaken max m.rsp_buf (finish_pl2_pkt os (m.rsp_buf 0) x)
  rest-Taken max m (false, n) em small en word good receipt h first =
      disconnect-Taken max m.rsp_buf n h
  rest-Taken max m (true, n) em small en word good (e, f, inl g) h first = absurd (ground arith)
  rest-Taken max m (true, n) em small en word good (e, f, inr (g, header, bound)) h first = (
    h,
    inr (
      refl,
      record {
        size = ground (arith, f, en, first, em);
        least = ground (arith, f, en, first, em);
        most = ground (arith, f, en, first, em, e);
        words = ground (arith, f, en, first, em);
        header = header;
      },
    ),
  )

  take_size-Taken :
      (max : ℕ) (rsp : Mem ℕ) (m : Mailbox S) (x : Bool × Mailbox S)
      → max ≡ m.max_num_bytes_rsp
      → max < 2 ^ 31
      → m.num_bytes_rsp ≡ 0
      → ((k : ℕ) → max ≤ 4 * k → x.1.rsp_buf k ≡ rsp k)
      → IsReceipt os is_os 0 m x
      → IsTaken max rsp (take_size os 0 x)
  unfolding take_size
  take_size-Taken max rsp m (false, n) em small en h receipt = (h, inl refl)
  take_size-Taken max rsp m (true, n) em small en h (e, f, inl g) = absurd (ground arith)
  take_size-Taken max rsp m (true, n) em small en h (e, f, inr (g, ne, word)) =
      if-lem (IsTaken max rsp) (is_bad_size os (n.rsp_buf 0) 0 n.max_num_bytes_rsp)
        (λ bad. disconnect-Taken max rsp n h)
        (λ good.
          let size : sub32 (n.rsp_buf 0) 4 < 2 ^ 31 = ground (arith, good, em, e, small, word) in
          let taken : IsTaken max n.rsp_buf
              (finish_pl2_pkt os (n.rsp_buf 0) (socket_receive os 1 (sub32 (n.rsp_buf 0) 4) n)) =
            rest-Taken max n (socket_receive os 1 (sub32 (n.rsp_buf 0) 4) n) (em ∙ sym e) small
              (f ∙ en) word good (socket_receive-Receipt os is_os 1 (sub32 (n.rsp_buf 0) 4) n)
              (λ k. λ le.
                socket_receive-elsewhere os is_os 1 (sub32 (n.rsp_buf 0) 4) k n size
                  (ground (arith, good, em, e, small, word, le))
                  (inl (ground (arith, good, em, e, small, word, le))))
              (socket_receive-elsewhere os is_os 1 (sub32 (n.rsp_buf 0) 4) 0 n size (omega arith)
                (inr (omega arith))) in
          ((λ k. λ le. taken.0 k le ∙ h k le), taken.1))

-- What `receive` leaves of the caller's buffer, and what it returns.
abbrev pub IsReceived : {S : Type 0} → Mem ℕ → Mailbox S → Answer S → Type 0
IsReceived rsp m a =
    ((k : ℕ) → m.max_num_bytes_rsp ≤ 4 * k → a.mailbox.rsp_buf k ≡ rsp k)
    × (((a.ret ≡ false) × (a.num_bytes ≡ 0))
        ⊎ ((a.ret ≡ true) × (a.num_bytes ≡ a.mailbox.num_bytes_rsp) × IsPacket a.mailbox))

module _ {S : Type 0} (os : Os S) (is_os : IsOs os) where
  answer-Received :
      (rsp : Mem ℕ) (m : Mailbox S) (x : Bool × Mailbox S)
      → IsTaken os is_os m.max_num_bytes_rsp rsp x
      → IsReceived rsp m (answer os x)
  answer-Received rsp m (false, n) (h, k) = (h, inl (refl, refl))
  answer-Received rsp m (true, n) (h, inl e) = absurd (ground arith)
  answer-Received rsp m (true, n) (h, inr (e, packet)) = (h, inr (refl, refl, packet))

  -- Whatever the network delivers, if `::recv` returns at most the bytes asked for, and the maximum
  -- that `config` has set is from 4 bytes to 2^31: `receive` writes no word of the caller's buffer
  -- from that maximum on. Either it returns false and a length of 0; or it returns true, and the
  -- length is that in the packet's first word, at least 8 bytes and at most the maximum, in whole
  -- words, and the packet's header is not 0.
  pub receive-IsReceived :
      (rsp : Mem ℕ) (m : Mailbox S)
      → 4 ≤ m.max_num_bytes_rsp
      → m.max_num_bytes_rsp < 2 ^ 31
      → IsReceived rsp m (receive os rsp m)
  unfolding receive receive_pl2_pkt
  receive-IsReceived rsp m least small =
      if-lem (IsReceived rsp m) m.connected
        (λ c. answer-Received rsp m (receive_pl2_pkt os fresh) (
          take_size-Taken os is_os m.max_num_bytes_rsp rsp fresh (socket_receive os 0 4 fresh) refl
            small refl
            (λ k. λ le.
              socket_receive-elsewhere os is_os 0 4 k fresh (omega arith) (omega arith)
                (inl (omega arith)))
            (socket_receive-Receipt os is_os 0 4 fresh)))
        (λ c. (λ k. λ le. refl, inl (refl, refl)))
    where
      fresh : Mailbox S
      fresh = record m { rsp_buf = rsp; num_bytes_rsp = 0 }
